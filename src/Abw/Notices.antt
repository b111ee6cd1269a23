-- ===== src/Abw/Notices.antt =====
-- The notices for the keys that a gateway does not have yet (src/abw.c: `prime_abw_encode_notices`).
use c_datum_prime.Common.{ℕ, zero, suc, ◌+◌, ◌*◌, ◌≤◌, ◌≡◌, inl, inr}
use c_datum_prime.Common.{
  Bool, true, false, not, ◌&&◌, ◌==◌, if◌then◌else◌, Bool-cases, Option-cases, Option, none, some,
}
use c_datum_prime.Common.{List, [], ◌∷◌, ◌++◌, length}
use c_datum_prime.Common.{length-append, arith}
use c_datum_prime.Abw.{Abw, abw_slots, encode_notice}

-- The slot has a key, is not the active one, and its key is not revealed.
unfoldable pub is_waiting : Abw → ℕ → Bool
is_waiting a slot =
    (a.slots slot).have_key && not (slot == a.active) && not (a.slots slot).retired_sent

-- The first loop: the rounds left, and the slot.
unfoldable pub count_waiting : ℕ → ℕ → Abw → ℕ
count_waiting zero slot a = 0
count_waiting (suc rounds) slot a =
    let rest = count_waiting rounds (slot + 1) a in if is_waiting a slot then suc rest else rest

-- `count`, the places in the arrays.
unfoldable pub notice_count : Abw → ℕ
notice_count a = count_waiting abw_slots 0 a + (if (a.slots a.active).have_key then 1 else 0)

module _ (gets : ℕ → Bool) (key_hash : List ℕ → List ℕ) where
  -- The second loop: the rounds left, and the slot.
  unfoldable pub notices_loop : ℕ → ℕ → Abw → List (List ℕ)
  notices_loop zero slot a = []
  notices_loop (suc rounds) slot a =
      let rest = notices_loop rounds (slot + 1) a in
      if is_waiting a slot
      then (elim (encode_notice gets key_hash a slot false) [ none ↦ rest | some w ↦ w ∷ rest ])
      else rest

  -- The notice of the active slot.
  unfoldable pub active_notice : Abw → List (List ℕ)
  active_notice a =
      if (a.slots a.active).have_key
      then (elim (encode_notice gets key_hash a a.active true) [ none ↦ [] | some w ↦ w ∷ [] ])
      else []

  -- `prime_abw_encode_notices`; `none` is its -1.
  unfoldable pub encode_notices : Abw → Option (List (List ℕ))
  encode_notices a =
      if notice_count a == 0
      then some []
      else if gets (notice_count a * 8)
      then some (notices_loop abw_slots 0 a ++ active_notice a)
      else none

  notices_loop_le :
      (rounds slot : ℕ) (a : Abw)
      → length (notices_loop rounds slot a) ≤ count_waiting rounds slot a
  unfolding notices_loop count_waiting
  notices_loop_le zero slot a = omega arith
  notices_loop_le (suc rounds) slot a =
      let rest = notices_loop_le rounds (slot + 1) a in
      elim (Bool-cases (is_waiting a slot)) [
        | inl waiting ↦ elim (Option-cases (encode_notice gets key_hash a slot false)) [
          | inl no_room ↦ rw (waiting, no_room) (omega (arith, rest))
          | inr (w, e) ↦ rw (waiting, e) (omega (arith, rest))
        ]
        | inr other ↦ rw other rest
      ]

  active_notice_le :
      (a : Abw) → length (active_notice a) ≤ (if (a.slots a.active).have_key then 1 else 0)
  unfolding active_notice
  active_notice_le a = elim (Bool-cases (a.slots a.active).have_key) [
    | inl keyed ↦ elim (Option-cases (encode_notice gets key_hash a a.active true)) [
      | inl no_room ↦ rw (active_notice, keyed, no_room) (omega arith)
      | inr (w, e) ↦ rw (active_notice, keyed, e) (omega arith)
    ]
    | inr other ↦ rw (active_notice, other) (omega arith)
  ]

  -- `prime_abw_encode_notices` never writes a notice behind the arrays that it allocated: the notices
  -- are at most as many as its first loop counted, whatever `malloc` refuses on the way.
  pub length-encode_notices :
      (a : Abw) (notices : List (List ℕ))
      → encode_notices a ≡ some notices
      → length notices ≤ notice_count a
  unfolding encode_notices notice_count
  length-encode_notices a notices e =
      let old = notices_loop_le abw_slots 0 a in
      let new = active_notice_le a in
      let all = length-append (notices_loop abw_slots 0 a) (active_notice a) in
      ground (arith, old, new, all, e)
