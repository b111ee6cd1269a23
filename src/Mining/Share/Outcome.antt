-- ===== src/Mining/Share/Outcome.antt =====
-- The two outcomes of `on_share` (src/mining.c).
use c_datum_prime.Common.{ℕ, ◌%◌, ◌^◌, ◌≡◌, refl, ap, ◌∙◌, ◌⊎◌, inl, inr}
use c_datum_prime.Common.{
  Bool, true, false, if◌then◌else◌, Bool-cases, either_cases, Option, none, some,
}
use c_datum_prime.Common.{List, [], ◌∷◌, ◌++◌, length}
use c_datum_prime.Wire.{wr_u16, wr_u32}
use c_datum_prime.Ledger.Replay.{Replay, replay_add}
use c_datum_prime.Ledger.Pool.{Pool}
use c_datum_prime.Abw.Mask.{gateway_proof}
use c_datum_prime.Mining.{Mining, Opts}
use c_datum_prime.Mining.Block.{Node, World, Submission, on_pool}
use c_datum_prime.Mining.Block.Booked.{
  KeepsWindow, stash_or_submit_block-KeepsWindow, stash_or_submit_block_accepted,
}
use c_datum_prime.Ledger.Types.{identity_of, max_identity, sv1_tag}
use c_datum_prime.Mining.Share.{
  Nonces, Head, Work, Verdict, parse_head, sections, encode_share_resp, share_accepted,
}
use c_datum_prime.Mining.Share.Verify.{subsidy_only}
use c_datum_prime.Mining.Share.Judge.{
  slot_of, start_share, count_share, Done, judge, accept, conclude, on_share,
}
use c_datum_prime.Mining.Share.Safe.{share_hash, IsSound, IsForgotten, judge_lem}
use c_datum_prime.Mining.Share.Unmoved.{Unmoved, Unmoved-refl, sections-Unmoved}
use c_datum_prime.Ledger.Window.{record_share}

-- The world with a pool.
abbrev pub world_of : Option Pool → List Submission → World
world_of pool submitted = record { pool = pool; submitted = submitted }

-- The reason, the nonce, the target byte and the job of a response.
abbrev pub fields_bytes : ℕ × ℕ × ℕ × ℕ → List ℕ
fields_bytes (reason, nonce, target_byte, job_id) =
    wr_u16 reason ++ (wr_u32 nonce ++ (target_byte ∷ job_id ∷ []))

accepted_bytes :
    (gets : ℕ → Bool) (nonce target_byte job_id slot : ℕ) (raw_le : List ℕ) (on : Bool)
    → let start = 0x8F ∷ 0x50 ∷ fields_bytes (0, nonce, target_byte, job_id) in
      encode_share_resp gets share_accepted 0 nonce target_byte job_id
        (if on then some (slot, raw_le) else none)
      ≡ (if on
          then (if gets 45 then some (start ++ (6 ∷ slot ∷ (raw_le ++ (0xFE ∷ [])))) else none)
          else (if gets 10 then some start else none))
unfolding encode_share_resp
accepted_bytes gets nonce target_byte job_id slot raw_le true = refl
accepted_bytes gets nonce target_byte job_id slot raw_le false = refl

-- What `accept` does where the pool is there.
module _ (sha256 blake2b : List ℕ → List ℕ) (gets : ℕ → Bool) (node : Node) where
  accept_lem :
      (p : Pool) (w : World) (st : Mining) (opt : Opts) (now : ℕ) (h : Head) (work : Work)
      (key : List ℕ)
      → w.pool ≡ some p
      → let d = accept sha256 blake2b gets node w st opt now h work key in
        KeepsWindow (count_share st opt now h work.result p) d.world
        × (d.st.last_accepted ≡ true)
        × (d.payload
            ≡ encode_share_resp gets share_accepted 0 h.nonce h.target_byte h.job_id (
                if st.abw_on
                then some (slot_of st, gateway_proof sha256 gets work.result key h.target_byte)
                else none))
  unfolding accept count_share on_pool
  accept_lem p w st opt now h work key there = elim (Bool-cases work.meets_network) [
    | inl network ↦ rw network (
      stash_or_submit_block-KeepsWindow sha256 gets node (count_share st opt now h work.result p) _
          _ opt now h.job_id (subsidy_only h) work.header work.result work.merkle work.coinbase
          (identity_of h.user max_identity)
          (record {
            kept = count_share st opt now h work.result p;
            here = rw there refl;
            same = refl;
          }),
      stash_or_submit_block_accepted sha256 gets node _ _ opt now h.job_id (subsidy_only h)
          work.header work.result work.merkle work.coinbase (identity_of h.user max_identity),
      refl,
    )
    | inr share ↦ rw share (
      record { kept = count_share st opt now h work.result p; here = rw there refl; same = refl },
      refl,
      refl,
    )
  ]

module _ (sha256 blake2b : List ℕ → List ℕ) (gets : ℕ → Bool) (node : Node) (p : Pool)
    (submitted : List Submission) (st : Mining) (opt : Opts) (now : ℕ) where
  -- A rejected share: of the pool only the guard may change, of the connection the coinbasers that were sent,
  -- the waiting block, the slots of keys and the last accepted hash are as they were, no share is marked as
  -- accepted, nothing is submitted, no transactions are asked for, and the response says so.
  pub record IsRejected (d : Done) : Type 0 where
    pub replay : Replay
    pub guard : IsForgotten p.replay replay
    pub world : d.world ≡ world_of (some (record p { replay = replay })) submitted
    pub unmoved : Unmoved (record st { last_accepted = false; last_candidate = false }) d.st
    pub no_txns : d.want_txns ≡ none
    pub fields : ℕ × ℕ × ℕ × ℕ
    pub response : d.payload ≡ (if gets 10 then some (0x8F ∷ 0x66 ∷ fields_bytes fields) else none)

  -- An accepted share is sound; the window has the row of its user, its tag, its hash and the work of its
  -- target byte as `record_share` puts it in; it is the last one that the connection accepted; and the
  -- response says so.
  pub record IsAccepted (plain : List ℕ) (d : Done) : Type 0 where
    pub head : Head
    pub rest : List ℕ
    pub parsed : parse_head plain ≡ inr (head, rest)
    pub behind : Mining
    pub carried : Nonces
    pub key : List ℕ
    pub read :
        sections node.parent_have opt head.job_id (length rest) (start_share st) none rest
        ≡ (0, behind, some carried)
    pub sound : IsSound sha256 blake2b gets p behind opt now head carried key
    pub after : Pool
    pub here : d.world.pool ≡ some after
    pub counted :
        after.window
        ≡ (record_share p.window now
            (identity_of head.user max_identity)
            (2 ^ (head.target_byte % 64))
            (share_hash sha256 blake2b gets behind head carried key)
            (if behind.public_stratum then sv1_tag else opt.coinbase_tag)).1
    pub accepted : d.st.last_accepted ≡ true
    pub response :
        let hash = share_hash sha256 blake2b gets behind head carried key in
        let start = 0x8F ∷ 0x50 ∷ fields_bytes (0, head.nonce, head.target_byte, head.job_id) in
        d.payload ≡ (
          if behind.abw_on
          then (if gets 45
              then some (
                  start
                  ++ (6
                      ∷ slot_of behind
                      ∷ (gateway_proof sha256 gets hash key head.target_byte ++ (0xFE ∷ []))))
              else none)
          else (if gets 10 then some start else none))

  on_share-conclude :
      (plain rest : List ℕ) (h : Head) (r : Verdict × Option Pool)
      → parse_head plain ≡ inr (h, rest)
      → let read =
          sections node.parent_have opt h.job_id (length rest) (start_share st) none rest in
        judge sha256 blake2b gets (some p) read.1 opt now h read.0 read.2 ≡ r
        → on_share sha256 blake2b gets node (world_of (some p) submitted) st opt now plain
          ≡ conclude sha256 blake2b gets node (world_of (some p) submitted) read.1 opt now h r
  unfolding on_share
  on_share-conclude plain rest h r e judged =
      let read = sections node.parent_have opt h.job_id (length rest) (start_share st) none rest in
      rw (e, on_share)
        (ap
          (λ (v : Verdict × Option Pool).
            conclude sha256 blake2b gets node (world_of (some p) submitted) read.1 opt now h v)
          judged)

  on_share-parse_head :
      (plain : List ℕ) (fields : ℕ × ℕ × ℕ × ℕ)
      → parse_head plain ≡ inl fields
      → IsRejected
          (on_share sha256 blake2b gets node (world_of (some p) submitted) st opt now plain)
  unfolding on_share start_share encode_share_resp
  on_share-parse_head plain fields e =
      rw (e, on_share)
        (record {
          replay = p.replay;
          guard = inl refl;
          world = refl;
          unmoved = Unmoved-refl (start_share st);
          no_txns = refl;
          fields = fields;
          response = refl;
        })

  -- A share on a pool is rejected or accepted, as `IsRejected` and `IsAccepted` say. It is accepted only where
  -- it has a key, its work is at least the server's minimum, its hash meets the target and is not in the
  -- guard, and, where a split is required, the check of the split does not reject it; then the window is the
  -- one that recording its user with the work of its target byte gives. A rejected share submits nothing,
  -- changes of the pool only the guard, and leaves of the connection the coinbasers that were sent, the waiting
  -- block, the slots of keys and the last accepted hash.
  pub on_share_outcome :
      (plain : List ℕ)
      → IsRejected
          (on_share sha256 blake2b gets node (world_of (some p) submitted) st opt now plain)
        ⊎ IsAccepted plain
            (on_share sha256 blake2b gets node (world_of (some p) submitted) st opt now plain)
  unfolding conclude count_share start_share encode_share_resp
  on_share_outcome plain = elim (either_cases (parse_head plain)) [
    | inl (fields, e) ↦ inl (on_share-parse_head plain fields e)
    | inr ((h, rest), e) ↦
        let read =
          sections node.parent_have opt h.job_id (length rest) (start_share st) none rest in
        elim (judge_lem sha256 blake2b gets p read.1 opt now h read.0 read.2) [
          | inl (r, replay, judged, guard) ↦ rw (on_share-conclude plain rest h _ e judged) (
              inl (record {
                replay = replay;
                guard = guard;
                world = refl;
                unmoved =
                    sections-Unmoved node.parent_have opt h.job_id (length rest) (start_share st)
                      none rest;
                no_txns = refl;
                fields = (r, h.nonce, h.target_byte, h.job_id);
                response = refl;
              }))
          | inr (n, key, work, judged, clean, carried, hash, sound) ↦
              let guarded : Pool = record p { replay = replay_add p.replay work.result } in
              let (counted, accepted, response) =
                accept_lem sha256 blake2b gets node guarded (world_of (some guarded) submitted)
                  read.1 opt now h work key refl in
              rw (on_share-conclude plain rest h _ e judged) (
                inr (record {
                  head = h;
                  rest = rest;
                  parsed = e;
                  behind = read.1;
                  carried = n;
                  key = key;
                  read =
                      ap (λ (r : ℕ). (r, read.1, read.2)) clean
                      ∙ ap (λ (o : Option Nonces). (0, read.1, o)) carried;
                  sound = sound;
                  after = counted.kept;
                  here = counted.here;
                  counted =
                      counted.same
                      ∙ ap (λ (r : List ℕ). (count_share read.1 opt now h r p).window) hash;
                  accepted = accepted;
                  response =
                      response
                      ∙ ap
                          (λ (r : List ℕ).
                            encode_share_resp gets share_accepted 0 h.nonce h.target_byte h.job_id (
                              if read.1.abw_on
                              then some
                                  (slot_of read.1, gateway_proof sha256 gets r key h.target_byte)
                              else none))
                          hash
                      ∙ accepted_bytes gets h.nonce h.target_byte h.job_id (slot_of read.1)
                          (gateway_proof sha256 gets (share_hash sha256 blake2b gets read.1 h n key)
                            key h.target_byte)
                          read.1.abw_on;
                }))
        ]
  ]
