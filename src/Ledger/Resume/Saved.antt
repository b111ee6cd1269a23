-- ===== src/Ledger/Resume/Saved.antt =====
-- A saved session is found again.
use c_datum_prime.Common.{ℕ, zero, suc, ◌+◌, ◌<◌, ◌≡◌, refl, ◌⊎◌, inl, inr}
use c_datum_prime.Common.{false, Bool-cases, Option, none, some}
use c_datum_prime.Common.{List, [], ◌∷◌, length, take, All}
use c_datum_prime.Common.{arith}
use c_datum_prime.Wire.Compare.{bytes_eq_refl}
use c_datum_prime.Abw.{Abw}
use c_datum_prime.Ledger.Resume.{
  SavedSession, is_session, session_slot, saved_at, resume_put, resume_get,
}

-- No session is that of the token and the key.
abbrev IsNew : List ℕ → List ℕ → List SavedSession → Type 0
IsNew token client_pk sessions =
    All (λ (s : SavedSession). is_session s token client_pk ≡ false) sessions

-- A slot from `i` on, with no session of the token and the key in front of it.
record IsSlot (sessions : List SavedSession) (token client_pk : List ℕ) (i slot : ℕ) : Type 0 where
  at : ℕ
  here : slot ≡ i + at
  inside : at < length sessions
  front : IsNew token client_pk (take at sessions)

abbrev or_zero : Option ℕ → ℕ
or_zero none = 0
or_zero (some at) = at

behind :
    (i : ℕ) (s : SavedSession) (sessions : List SavedSession) (token client_pk : List ℕ) (slot : ℕ)
    → is_session s token client_pk ≡ false
    → IsSlot sessions token client_pk (i + 1) slot
    → IsSlot (s ∷ sessions) token client_pk i slot
behind i s sessions token client_pk slot other later = record {
  at = suc later.at;
  here = omega (arith, later.here);
  inside = omega (arith, later.inside);
  front = (other, later.front);
}

-- What was free is still taken, or there is a slot here.
session_slot_lem :
    (i : ℕ) (slot : Option ℕ) (sessions : List SavedSession) (token client_pk : List ℕ)
    → IsSlot sessions token client_pk i (session_slot i slot sessions token client_pk)
      ⊎ (IsNew token client_pk sessions
          × (session_slot i slot sessions token client_pk ≡ or_zero slot))
unfolding session_slot
session_slot_lem i none [] token client_pk = inr (tt, refl)
session_slot_lem i (some at) [] token client_pk = inr (tt, refl)
session_slot_lem i (some at) (s ∷ sessions) token client_pk =
    elim (Bool-cases (is_session s token client_pk)) [
      | inl same ↦
          rw same (inl (record { at = 0; here = omega arith; inside = omega arith; front = tt }))
      | inr other ↦ elim (session_slot_lem (i + 1) (some at) sessions token client_pk) [
        | inl later ↦ rw other (inl (behind i s sessions token client_pk _ other later))
        | inr (is_new, e) ↦ rw other (inr ((refl, is_new), e))
      ]
    ]
session_slot_lem i none (s ∷ sessions) token client_pk =
    elim (Bool-cases (is_session s token client_pk)) [
      | inl same ↦
          rw same (inl (record { at = 0; here = omega arith; inside = omega arith; front = tt }))
      | inr other ↦ elim (Bool-cases s.used) [
        | inl taken ↦ elim (session_slot_lem (i + 1) none sessions token client_pk) [
          | inl later ↦
              simp (other, taken) (inl (behind i s sessions token client_pk _ other later))
          | inr (is_new, e) ↦ simp (other, taken) (inr ((refl, is_new), e))
        ]
        | inr free ↦ elim (session_slot_lem (i + 1) (some i) sessions token client_pk) [
          | inl later ↦ simp (other, free) (inl (behind i s sessions token client_pk _ other later))
          | inr (is_new, e) ↦
              simp (other, free)
                (inl (record { at = 0; here = omega (arith, e); inside = omega arith; front = tt }))
        ]
      ]
    ]

resume_get-saved_at :
    (sessions : List SavedSession) (at : ℕ) (token client_pk : List ℕ) (coinbaser_id : ℕ)
    (abw : Abw)
    → at < length sessions
    → IsNew token client_pk (take at sessions)
    → resume_get (saved_at sessions at token client_pk coinbaser_id (some abw)) token client_pk
      ≡ some (coinbaser_id, abw)
unfolding resume_get saved_at is_session
resume_get-saved_at [] at token client_pk coinbaser_id abw inside front = absurd (omega arith)
resume_get-saved_at (s ∷ sessions) zero token client_pk coinbaser_id abw inside front =
    rw (bytes_eq_refl token, bytes_eq_refl client_pk) refl
resume_get-saved_at (s ∷ sessions) (suc at) token client_pk coinbaser_id abw inside front =
    rw (front.0)
      (resume_get-saved_at sessions at token client_pk coinbaser_id abw (omega arith) front.1)

-- Where there is room for a session, one that is put with its slots of keys is got again, whether it was
-- there, took an unused place or the first one.
pub resume_get-resume_put :
    (sessions : List SavedSession) (token client_pk : List ℕ) (coinbaser_id : ℕ) (abw : Abw)
    → 0 < length sessions
    → resume_get (resume_put sessions token client_pk coinbaser_id (some abw)) token client_pk
      ≡ some (coinbaser_id, abw)
unfolding resume_put
resume_get-resume_put sessions token client_pk coinbaser_id abw room =
    elim (session_slot_lem 0 none sessions token client_pk) [
      | inl s ↦
          let here : session_slot 0 none sessions token client_pk ≡ s.at = omega (arith, s.here) in
          rw here
            (resume_get-saved_at sessions s.at token client_pk coinbaser_id abw s.inside s.front)
      | inr (is_new, first) ↦
          rw first (resume_get-saved_at sessions 0 token client_pk coinbaser_id abw room tt)
    ]
