-- ===== src/Mining/Share/Unmoved.antt =====
-- What the sections of a share message leave alone.
use c_datum_prime.Common.{ℕ, zero, suc, ◌+◌, ◌*◌, ◌≡◌, refl, ◌∙◌, inl, inr}
use c_datum_prime.Common.{
  Bool, true, false, not, ◌&&◌, ◌||◌, ◌==◌, ltb, if◌then◌else◌, Bool-cases, Option, none, some,
}
use c_datum_prime.Common.{List, [], ◌∷◌, length, drop}
use c_datum_prime.Wire.{byte_at, rd_u16}
use c_datum_prime.Abw.{struct_end}
use c_datum_prime.Mining.{Mining, Opts, ask_parent}
use c_datum_prime.Mining.Job.{max_merkle, set_job, install_job, install_coinbase}
use c_datum_prime.Mining.Share.{
  Nonces, Section, ends, goes, reject_bad_job, reject_other, nonce_section, section, sections,
}

-- The coinbasers that were sent, the waiting block, the slots of keys, and what is known of the last share
-- are those of `st`.
abbrev pub Unmoved : Mining → Mining → Type 0
Unmoved st st' =
    (st'.splits ≡ st.splits)
    × (st'.pending ≡ st.pending)
    × (st'.abw ≡ st.abw)
    × (st'.abw_on ≡ st.abw_on)
    × (st'.next_coinbaser_id ≡ st.next_coinbaser_id)
    × (st'.public_stratum ≡ st.public_stratum)
    × (st'.last_hash ≡ st.last_hash)
    × (st'.last_accepted ≡ st.last_accepted)
    × (st'.last_candidate ≡ st.last_candidate)

pub Unmoved-refl : (st : Mining) → Unmoved st st
Unmoved-refl st = (refl, refl, refl, refl, refl, refl, refl, refl, refl)

Unmoved-trans : (a b c : Mining) → Unmoved a b → Unmoved b c → Unmoved a c
Unmoved-trans a b c h k = (
  k.0 ∙ h.0,
  k.1 ∙ h.1,
  k.2 ∙ h.2,
  k.3 ∙ h.3,
  k.4 ∙ h.4,
  k.5 ∙ h.5,
  k.6 ∙ h.6,
  k.7 ∙ h.7,
  k.8 ∙ h.8,
)

install_job-Unmoved : (st : Mining) (p : List ℕ) → Unmoved st (install_job st p).0
unfolding install_job set_job
install_job-Unmoved st p =
    let mc : ℕ = byte_at p 67 in
    elim (Bool-cases (ltb (length p) 68)) [
      | inl short ↦ rw short (Unmoved-refl st)
      | inr long ↦ elim (Bool-cases (ltb max_merkle mc || ltb (length p) (68 + mc * 32))) [
        | inl bad ↦ rw (long, bad) (Unmoved-refl st)
        | inr whole ↦ rw (long, whole) (Unmoved-refl st)
      ]
    ]

install_coinbase-Unmoved : (st : Mining) (p : List ℕ) → Unmoved st (install_coinbase st p).0
unfolding install_coinbase
install_coinbase-Unmoved st p =
    let size : ℕ = 5 + rd_u16 (drop 1 p) + rd_u16 (drop 3 p) in
    elim (Bool-cases (ltb (length p) 5)) [
      | inl short ↦ rw short (Unmoved-refl st)
      | inr long ↦ elim (Bool-cases (ltb (length p) size)) [
        | inl bad ↦ rw (long, bad) (Unmoved-refl st)
        | inr whole ↦ rw (long, whole) (Unmoved-refl st)
      ]
    ]

abbrev state : Section → Mining
state (ends reason st carried) = st
state (goes st carried rest) = st

module _ (parent_have : List ℕ → Bool) (opt : Opts) (job_id : ℕ) where
  ask_parent-Unmoved :
      (st : Mining) (hash : List ℕ) → Unmoved st (ask_parent parent_have st opt job_id hash)
  unfolding ask_parent
  ask_parent-Unmoved st hash = elim (Bool-cases (opt.has_datadir && not (parent_have hash))) [
    | inl lacks ↦ rw lacks (Unmoved-refl st)
    | inr has ↦ rw has (Unmoved-refl st)
  ]

  job-Unmoved :
      (st st' : Mining) (used : Option ℕ) (carried : Option Nonces) (p : List ℕ) (asked : Mining)
      → Unmoved st st'
      → Unmoved st asked
      → Unmoved st (
          state (elim used [
            | none ↦ ends reject_bad_job st' carried
            | some n ↦ goes asked carried (drop n p)
          ]))
  job-Unmoved st st' none carried p asked h k = h
  job-Unmoved st st' (some n) carried p asked h k = k

  coinbase-Unmoved :
      (st st' : Mining) (used : Option ℕ) (carried : Option Nonces) (p : List ℕ)
      → Unmoved st st'
      → Unmoved st (
          state (elim used [
            | none ↦ ends reject_other st' carried
            | some n ↦ goes st' carried (drop n p)
          ]))
  coinbase-Unmoved st st' none carried p h = h
  coinbase-Unmoved st st' (some n) carried p h = h

  asked-Unmoved :
      (st st' : Mining) (has_job : Bool)
      → Unmoved st st'
      → Unmoved st (if has_job then ask_parent parent_have st' opt job_id st'.prev_hash else st')
  asked-Unmoved st st' true h =
      Unmoved-trans st st' (ask_parent parent_have st' opt job_id st'.prev_hash) h
        (ask_parent-Unmoved st' st'.prev_hash)
  asked-Unmoved st st' false h = h

  nonce_section-Unmoved :
      (st : Mining) (carried : Option Nonces) (p : List ℕ)
      → Unmoved st (state (nonce_section st carried p))
  unfolding nonce_section
  nonce_section-Unmoved st carried p =
      elim (Bool-cases (ltb (length p) 22 || not (byte_at p 0 == 1) || not (byte_at p 17 == 4))) [
        | inl bad ↦ rw bad (Unmoved-refl st)
        | inr good ↦ rw good (Unmoved-refl st)
      ]

  section-Unmoved :
      (st : Mining) (carried : Option Nonces) (mark : ℕ) (p : List ℕ)
      → Unmoved st (state (section parent_have opt job_id st carried mark p))
  unfolding section
  section-Unmoved st carried mark p =
      let (job_st, job_used) = install_job st p in
      let (cb_st, cb_used) = install_coinbase st p in
      let job = install_job-Unmoved st p in
      elim (Bool-cases (mark == struct_end)) [
        | inl last ↦ rw last (Unmoved-refl st)
        | inr a ↦ elim (Bool-cases (mark == 1)) [
          | inl is_job ↦
              rw (a, is_job)
                (job-Unmoved st job_st job_used carried p _ job
                  (asked-Unmoved st job_st job_st.have_job job))
          | inr b ↦ elim (Bool-cases (mark == 2)) [
            | inl is_coinbase ↦
                rw (a, b, is_coinbase)
                  (coinbase-Unmoved st cb_st cb_used carried p (install_coinbase-Unmoved st p))
            | inr c ↦ elim (Bool-cases (mark == 3)) [
              | inl is_nonce ↦ rw (a, b, c, is_nonce) (nonce_section-Unmoved st carried p)
              | inr d ↦ elim (Bool-cases (mark == 5)) [
                | inl is_slot ↦ elim (Bool-cases (length p == 0)) [
                  | inl cut ↦ rw (a, b, c, d, is_slot, cut) (Unmoved-refl st)
                  | inr there ↦ rw (a, b, c, d, is_slot, there) (Unmoved-refl st)
                ]
                | inr other ↦ rw (a, b, c, d, other) (Unmoved-refl st)
              ]
            ]
          ]
        ]
      ]

  followed-Unmoved :
      (st : Mining) (rest : Mining → Option Nonces → List ℕ → ℕ × Mining × Option Nonces)
      → ((s : Mining) (c : Option Nonces) (q : List ℕ) → Unmoved s (rest s c q).1)
      → (s : Section) → Unmoved st (state s)
      → Unmoved st
          (elim s as (λ x. ℕ × Mining × Option Nonces) [
            | ends reason st' carried' ↦ (reason, st', carried')
            | goes st' carried' q ↦ rest st' carried' q
          ]).1
  followed-Unmoved st rest keeps (ends reason st' carried') h = h
  followed-Unmoved st rest keeps (goes st' carried' q) h =
      Unmoved-trans st st' (rest st' carried' q).1 h (keeps st' carried' q)

  -- The sections of a share message leave those fields alone, however they end.
  pub sections-Unmoved :
      (rounds : ℕ) (st : Mining) (carried : Option Nonces) (p : List ℕ)
      → Unmoved st (sections parent_have opt job_id rounds st carried p).1
  unfolding sections
  sections-Unmoved zero st carried p = Unmoved-refl st
  sections-Unmoved (suc rounds) st carried [] = Unmoved-refl st
  sections-Unmoved (suc rounds) st carried (mark ∷ p) =
      followed-Unmoved st (λ s' c q. sections parent_have opt job_id rounds s' c q)
        (λ s' c q. sections-Unmoved rounds s' c q)
        (section parent_have opt job_id st carried mark p) (section-Unmoved st carried mark p)
