-- ===== src/Mining/Share.antt =====
-- A share that a gateway submits (src/mining.c: the parse in `on_share`, and the
-- responses); Share/Verify and Share/Judge have the rest of `on_share`. `gets` is what `malloc` answers
-- for a size, and `parent_have` what the node answers to `prime_parent_have`.
pub mod Verify
pub mod Judge
pub mod Safe
pub mod Unmoved
pub mod Outcome
pub mod Rounds
use c_datum_prime.Common.{[], ℕ, zero, suc, ◌%◌, ◌⊎◌, inl, inr}
use c_datum_prime.Common.{Bool, not, ◌||◌, ◌==◌, ltb, if◌then◌else◌, Option, none, some}
use c_datum_prime.Common.{List, ◌∷◌, ◌++◌, length, take, drop}
use c_datum_prime.Wire.{byte_at, rd_u32, wr_u16, wr_u32}
use c_datum_prime.Ledger.Types.{Text}
use c_datum_prime.Abw.{struct_end}
use c_datum_prime.Mining.{Mining, Opts, ask_parent}
use c_datum_prime.Mining.Job.{install_job, install_coinbase}

abbrev pub submit_pow : ℕ
submit_pow = 0x27

abbrev pub share_resp : ℕ
share_resp = 0x8F

abbrev pub share_accepted : ℕ
share_accepted = 0x50

abbrev pub share_rejected : ℕ
share_rejected = 0x66

-- The reasons.
abbrev pub reject_bad_job : ℕ
reject_bad_job = 10

abbrev pub reject_bad_en : ℕ
reject_bad_en = 12

abbrev pub reject_high_hash : ℕ
reject_high_hash = 21

abbrev pub reject_dup : ℕ
reject_dup = 29

abbrev pub reject_other : ℕ
reject_other = 30

abbrev pub reject_blake : ℕ
reject_blake = 40

abbrev pub reject_no_split : ℕ
reject_no_split = 43

abbrev pub reject_abw_slot : ℕ
reject_abw_slot = 44

-- The section that carries the nonces.
pub record Nonces : Type 0 where
  pub ntime : List ℕ
  pub nonce : List ℕ
  pub time_on_wire : ℕ

-- The fields in front of the sections.
pub record Head : Type 0 where
  pub job_id : ℕ
  pub flags : ℕ
  pub target_byte : ℕ
  pub nonce : ℕ
  pub version : ℕ
  pub extranonce : List ℕ
  pub user : Text
  pub use_time_offset : Bool

-- What `verify_pow` gives for a share that holds.
pub record Work : Type 0 where
  pub header : List ℕ
  pub result : List ℕ
  pub merkle : List ℕ
  pub coinbase : List ℕ
  pub meets_network : Bool

-- A share with the reason why it is rejected, or with its work and the key that masked it.
pub data Verdict : Type 0 where
  rejects : ℕ → Verdict
  holds : Work → List ℕ → Verdict

-- The state behind a section, and the bytes behind it, or the reason why the sections end there.
pub data Section : Type 0 where
  ends : ℕ → Mining → Option Nonces → Section
  goes : Mining → Option Nonces → List ℕ → Section

-- The text up to its NUL and the bytes behind it; `none` where there is no NUL.
unfoldable pub split_text : List ℕ → Option (Text × List ℕ)
split_text [] = none
split_text (c ∷ p) =
    let rest = split_text p in
    if c == 0 then some ([], p) else elim rest [ none ↦ none | some r ↦ some (c ∷ r.0, r.1) ]

-- Up to the sections: the head and what is behind it, or the reason and the response's fields.
unfoldable pub parse_head : List ℕ → (ℕ × ℕ × ℕ × ℕ) ⊎ (Head × List ℕ)
parse_head plain =
    let job_id : ℕ = byte_at plain 1 in
    let target_byte : ℕ = byte_at plain 4 in
    let nonce : ℕ = rd_u32 (drop 9 plain) in
    if ltb (length plain) 18 || not (byte_at plain 0 == submit_pow)
    then inl (reject_other, 0, 0xff, 0)
    else if not (byte_at plain 17 == 12) || ltb (length plain) 30
    then inl (reject_bad_en, nonce, target_byte, job_id)
    else elim (split_text (drop 30 plain)) [
      | none ↦ inl (14, nonce, target_byte, job_id)
      | some (user, rest) ↦
          if ltb (length rest) 4
          then inl (reject_other, nonce, target_byte, job_id)
          else inr (
            record {
              job_id = job_id;
              flags = byte_at plain 3;
              target_byte = target_byte;
              nonce = nonce;
              version = rd_u32 (drop 13 plain);
              extranonce = take 12 (drop 18 plain);
              user = user;
              use_time_offset = byte_at rest 0 % 2 == 1;
            },
            drop 4 rest,
          )
    ]

-- `SECTION_BLAKE2B`, behind its mark.
unfoldable pub nonce_section : Mining → Option Nonces → List ℕ → Section
nonce_section st carried p =
    if ltb (length p) 22 || not (byte_at p 0 == 1) || not (byte_at p 17 == 4)
    then ends reject_blake st carried
    else goes st
        (some (record {
          ntime = take 8 (drop 1 p);
          nonce = take 8 (drop 9 p);
          time_on_wire = rd_u32 (drop 18 p);
        }))
        (drop 22 p)

-- `encode_share_resp_abw` and `encode_share_resp`; `none` is their -1.
module _ (gets : ℕ → Bool) where
  unfoldable pub encode_share_resp : ℕ → ℕ → ℕ → ℕ → ℕ → Option (ℕ × List ℕ) → Option (List ℕ)
  encode_share_resp status reason nonce target_byte job_id proof =
      let start =
        share_resp ∷ status ∷ (wr_u16 reason ++ (wr_u32 nonce ++ (target_byte ∷ job_id ∷ []))) in
      elim proof [
        | none ↦ if gets 10 then some start else none
        | some (slot, raw_le) ↦
            if gets 45 then some (start ++ (6 ∷ slot ∷ (raw_le ++ (struct_end ∷ [])))) else none
      ]

module _ (parent_have : List ℕ → Bool) (opt : Opts) (job_id : ℕ) where
  -- One round of the loop over the sections, behind its mark.
  unfoldable pub section : Mining → Option Nonces → ℕ → List ℕ → Section
  section st carried mark p =
      let (job_st, job_used) = install_job st p in
      let (cb_st, cb_used) = install_coinbase st p in
      let job : Section = elim job_used [
        | none ↦ ends reject_bad_job job_st carried
        | some used ↦ goes (ask_if_job job_st) carried (drop used p)
      ] in
      let coinbase : Section = elim cb_used [
        | none ↦ ends reject_other cb_st carried
        | some used ↦ goes cb_st carried (drop used p)
      ] in
      let slot : Section =
        if length p == 0
        then ends reject_other st carried
        else goes (record st { abw_slot = some (byte_at p 0) }) carried (drop 1 p) in
      if mark == struct_end
      then ends 0 st carried
      else if mark == 1
      then job
      else if mark == 2
      then coinbase
      else if mark == 3
      then nonce_section st carried p
      else if mark == 5
      then slot
      else ends reject_other st carried
    where
      ask_if_job : Mining → Mining
      ask_if_job st' =
          if st'.have_job then ask_parent parent_have st' opt job_id st'.prev_hash else st'

  -- The loop: the reason, 0 for none, the state and the nonces. Each round takes a byte or more, so as many
  -- rounds as there are bytes are enough.
  unfoldable pub sections : ℕ → Mining → Option Nonces → List ℕ → ℕ × Mining × Option Nonces
  sections zero st carried p = (0, st, carried)
  sections (suc rounds) st carried [] = (0, st, carried)
  sections (suc rounds) st carried (mark ∷ p) = elim (section st carried mark p) [
    | ends reason st' carried' ↦ (reason, st', carried')
    | goes st' carried' rest ↦ sections rounds st' carried' rest
  ]
