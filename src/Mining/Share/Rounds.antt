-- ===== src/Mining/Share/Rounds.antt =====
-- The loop over the sections of a share ends by itself.
use c_datum_prime.Common.{ℕ, zero, suc, ◌+◌, ◌≤◌, ◌≡◌, refl, ◌⊎◌, inl, inr}
use c_datum_prime.Common.{Bool, not, ◌||◌, ◌==◌, ltb, Bool-cases, Option-cases, Option}
use c_datum_prime.Common.{List, [], ◌∷◌, length, drop}
use c_datum_prime.Common.{length-drop, arith, zero-add, suc-add}
use c_datum_prime.Wire.{byte_at}
use c_datum_prime.Abw.{struct_end}
use c_datum_prime.Mining.{Mining, Opts}
use c_datum_prime.Mining.Job.{install_job, install_coinbase}
use c_datum_prime.Mining.Share.{Nonces, Section, ends, goes, nonce_section, section, sections}

-- What is left behind a section is no more than there was behind its mark.
abbrev IsBehind : List ℕ → Section → Type 0
IsBehind p (ends reason st carried) = Unit
IsBehind p (goes st carried rest) = length rest ≤ length p

section_cases :
    (s : Section)
    → ((reason : ℕ) × (st : Mining) × (carried : Option Nonces) × (s ≡ ends reason st carried))
      ⊎ ((st : Mining) × (carried : Option Nonces) × (rest : List ℕ) × (s ≡ goes st carried rest))
section_cases (ends reason st carried) = inl (reason, st, carried, refl)
section_cases (goes st carried rest) = inr (st, carried, rest, refl)

drop_le : (n : ℕ) (p : List ℕ) → length (drop n p) ≤ length p
drop_le n p = rw (length-drop n p) (omega arith)

nonce_section-IsBehind :
    (st : Mining) (carried : Option Nonces) (p : List ℕ) → IsBehind p (nonce_section st carried p)
unfolding nonce_section
nonce_section-IsBehind st carried p =
    elim (Bool-cases (ltb (length p) 22 || not (byte_at p 0 == 1) || not (byte_at p 17 == 4))) [
      | inl bad ↦ rw bad tt
      | inr good ↦ rw good (drop_le 22 p)
    ]

module _ (parent_have : List ℕ → Bool) (opt : Opts) (job_id : ℕ) where
  section-IsBehind :
      (st : Mining) (carried : Option Nonces) (mark : ℕ) (p : List ℕ)
      → IsBehind p (section parent_have opt job_id st carried mark p)
  unfolding section
  section-IsBehind st carried mark p = elim (Bool-cases (mark == struct_end)) [
    | inl end ↦ rw end tt
    | inr n0 ↦ elim (Bool-cases (mark == 1)) [
      | inl job ↦ elim (Option-cases (install_job st p).1) [
        | inl bad ↦ rw (n0, job, bad) tt
        | inr (used, e) ↦ rw (n0, job, e) (drop_le used p)
      ]
      | inr n1 ↦ elim (Bool-cases (mark == 2)) [
        | inl coinbase ↦ elim (Option-cases (install_coinbase st p).1) [
          | inl bad ↦ rw (n0, n1, coinbase, bad) tt
          | inr (used, e) ↦ rw (n0, n1, coinbase, e) (drop_le used p)
        ]
        | inr n2 ↦ elim (Bool-cases (mark == 3)) [
          | inl blake ↦ rw (n0, n1, n2, blake) (nonce_section-IsBehind st carried p)
          | inr n3 ↦ elim (Bool-cases (mark == 5)) [
            | inl slot ↦ elim (Bool-cases (length p == 0)) [
              | inl nothing ↦ rw (n0, n1, n2, n3, slot, nothing) tt
              | inr there ↦ rw (n0, n1, n2, n3, slot, there) (drop_le 1 p)
            ]
            | inr n5 ↦ rw (n0, n1, n2, n3, n5) tt
          ]
        ]
      ]
    ]
  ]

  -- The loop over the sections ends within as many rounds as there are bytes: any more rounds give the
  -- same.
  pub sections_enough :
      (rounds more : ℕ) (st : Mining) (carried : Option Nonces) (p : List ℕ)
      → length p ≤ rounds
      → sections parent_have opt job_id (rounds + more) st carried p
        ≡ sections parent_have opt job_id rounds st carried p
  unfolding sections
  sections_enough zero zero st carried [] enough = refl
  sections_enough zero (suc more) st carried [] enough = rw (zero-add (suc more)) refl
  sections_enough zero more st carried (mark ∷ p) enough = absurd (omega arith)
  sections_enough (suc rounds) more st carried [] enough = rw (suc-add rounds more) refl
  sections_enough (suc rounds) more st carried (mark ∷ p) enough =
      elim (section_cases (section parent_have opt job_id st carried mark p)) [
        | inl (reason, st', carried', e) ↦ rw (suc-add rounds more, e, sections) refl
        | inr (st', carried', rest, e) ↦
            let behind : length rest ≤ length p = rw e at (section-IsBehind st carried mark p) in
            rw (suc-add rounds more, e, sections)
              (sections_enough rounds more st' carried' rest (omega (arith, behind)))
      ]
