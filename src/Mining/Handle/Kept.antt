-- ===== src/Mining/Handle/Kept.antt =====
-- The mining messages change the session only by encrypting: what every encryption keeps of the session,
-- `prime_handle_mining` keeps.
use c_datum_prime.Common.{ℕ, ◌+◌, inl, inr}
use c_datum_prime.Common.{
  Bool, true, false, ◌&&◌, ◌||◌, ◌==◌, if◌then◌else◌, Bool-cases, Option-cases, Option, none, some,
}
use c_datum_prime.Common.{List, [], ◌∷◌, length}
use c_datum_prime.Wire.{byte_at}
use c_datum_prime.Ledger.Types.{Text}
use c_datum_prime.Mining.{Mining, Opts}
use c_datum_prime.Mining.Coinbaser.{coinbaser_req, on_coinbaser}
use c_datum_prime.Mining.Block.{Node, World}
use c_datum_prime.Mining.Share.{submit_pow}
use c_datum_prime.Mining.Validation.{validation}
use c_datum_prime.Mining.Share.Judge.{Done, on_share}
use c_datum_prime.Mining.Handle.{
  val_req_block_txns, slot_messages, append_mining, append_all, send_parent_fetch, Handled,
  answer_coinbaser, after_share, answer_share, handle_mining,
}

module _ {ℓ} (Session : Type ℓ) (encrypt : Session → List ℕ → Session × Option (List ℕ))
    (gets : ℕ → Bool) (Kept : Session → Type 0)
    (keeps : (s : Session) (m : List ℕ) → Kept s → Kept (encrypt s m).0) where
  append_mining-Kept :
      (s : Session) (wire payload : List ℕ)
      → Kept s
      → Kept (append_mining Session encrypt gets (s, wire) payload).0
  unfolding append_mining
  append_mining-Kept s wire payload k =
      let k' = keeps s payload k in
      elim (Bool-cases (length payload == 0)) [
        | inl empty ↦ rw empty k
        | inr full ↦ elim (Option-cases (encrypt s payload).1) [
          | inl bad ↦ rw (full, bad) k'
          | inr (f, e) ↦ elim (Bool-cases (length wire == 0 || gets (length wire + length f))) [
            | inl has ↦ rw (full, e, has) k'
            | inr lacks ↦ rw (full, e, lacks) k'
          ]
        ]
      ]

  append_all-Kept :
      (s : Session) (wire : List ℕ) (messages : List (List ℕ))
      → Kept s
      → Kept (append_all Session encrypt gets (s, wire) messages).0
  unfolding append_all
  append_all-Kept s wire [] k = k
  append_all-Kept s wire (m ∷ messages) k =
      let next = append_mining Session encrypt gets (s, wire) m in
      append_all-Kept next.0 next.1 messages (append_mining-Kept s wire m k)

  send_parent_fetch-Kept :
      (s : Session) (wire : List ℕ) (st : Mining)
      → Kept s
      → Kept (send_parent_fetch Session encrypt gets (s, wire) st).0.0
  unfolding send_parent_fetch
  send_parent_fetch-Kept s wire st k = elim (Bool-cases st.want_parent) [
    | inl wanted ↦ rw wanted (append_mining-Kept s wire _ k)
    | inr not_wanted ↦ rw not_wanted k
  ]

  if-Kept : (b : Bool) (x y : Session × List ℕ) → Kept x.0 → Kept y.0 → Kept (if b then x else y).0
  if-Kept true x y kx ky = kx
  if-Kept false x y kx ky = ky

  if_session-Kept :
      (b : Bool) (x y : Handled Session)
      → Kept x.session
      → Kept y.session
      → Kept (if b then x else y).session
  if_session-Kept true x y kx ky = kx
  if_session-Kept false x y kx ky = ky

  asked-Kept :
      (want_txns : Option ℕ) (told : Session × List ℕ) (request : ℕ → List ℕ)
      → Kept told.0
      → let asked : Session × List ℕ = elim want_txns [
        | none ↦ told
        | some job ↦ append_mining Session encrypt gets told (request job)
      ] in
        Kept asked.0
  asked-Kept none told request k = k
  asked-Kept (some job) told request k = append_mining-Kept told.0 told.1 (request job) k

  module _ (sha256 blake2b : List ℕ → List ℕ) (node : Node)
      (address_script : Text → Option (List ℕ)) where
    answer_coinbaser-Kept :
        (s : Session) (w : World) (st : Mining) (opt : Opts) (now : ℕ) (stale plain : List ℕ)
        → Kept s
        → Kept
            (answer_coinbaser Session encrypt sha256 blake2b gets node address_script s w st opt now
              stale plain).session
    unfolding answer_coinbaser
    answer_coinbaser-Kept s w st opt now stale plain k =
        let (st', payload) =
          on_coinbaser gets address_script node.parent_have st opt w.pool now stale plain in
        elim (Option-cases payload) [
          | inl bad ↦ rw (answer_coinbaser, bad) k
          | inr (m, e) ↦ elim (Option-cases (encrypt s m).1) [
            | inl bad ↦ rw (answer_coinbaser, e, bad) (keeps s m k)
            | inr (f, sent) ↦
                rw (answer_coinbaser, e, sent)
                  (send_parent_fetch-Kept (encrypt s m).0 f st' (keeps s m k))
          ]
        ]

    after_share-Kept :
        (s : Session) (wire : List ℕ) (d : Done) (random : List ℕ) (now : ℕ)
        → Kept s
        → Kept
            (after_share Session encrypt sha256 blake2b gets node address_script
              (s, wire)
              d
              random
              now).0.0
    unfolding after_share
    after_share-Kept s wire d random now k =
        let is_masked : Bool = d.st.last_accepted && d.st.abw_on in
        let (slots, messages) = slot_messages sha256 gets d.st random now in
        let all = append_all Session encrypt gets (s, wire) messages in
        let told = if is_masked then all else (s, wire) in
        let request = λ (job : ℕ). validation ∷ val_req_block_txns ∷ job ∷ [] in
        let asked : Session × List ℕ = elim d.want_txns [
          | none ↦ told
          | some job ↦ append_mining Session encrypt gets told (request job)
        ] in
        send_parent_fetch-Kept asked.0 asked.1
          (if is_masked then record d.st { abw = slots } else d.st)
          (asked-Kept d.want_txns told request
            (if-Kept is_masked all (s, wire) (append_all-Kept s wire messages k) k))

    answer_share-Kept :
        (s : Session) (w : World) (st : Mining) (opt : Opts) (now : ℕ) (random plain : List ℕ)
        → Kept s
        → Kept
            (answer_share Session encrypt sha256 blake2b gets node address_script s w st opt now
              random plain).session
    unfolding answer_share
    answer_share-Kept s w st opt now random plain k =
        let d = on_share sha256 blake2b gets node w st opt now plain in
        elim (Option-cases d.payload) [
          | inl bad ↦ rw (answer_share, bad) k
          | inr (m, e) ↦ elim (Option-cases (encrypt s m).1) [
            | inl bad ↦ rw (answer_share, e, bad) (keeps s m k)
            | inr (f, sent) ↦
                rw (answer_share, e, sent)
                  (after_share-Kept (encrypt s m).0 f d random now (keeps s m k))
          ]
        ]

    pub handle_mining-Kept :
        (s : Session) (w : World) (st : Mining) (opt : Opts) (now : ℕ) (random stale plain : List ℕ)
        → Kept s
        → Kept
            (handle_mining Session encrypt sha256 blake2b gets node address_script s w st opt now
              random stale plain).session
    unfolding handle_mining
    handle_mining-Kept s w st opt now random stale plain k =
        if_session-Kept (length plain == 0) _ _ k (
          if_session-Kept (byte_at plain 0 == coinbaser_req) _ _
            (answer_coinbaser-Kept s w st opt now stale plain k)
            (if_session-Kept (byte_at plain 0 == submit_pow) _ _
              (answer_share-Kept s w st opt now random plain k)
              (if_session-Kept (byte_at plain 0 == validation) _ _ k k)))
