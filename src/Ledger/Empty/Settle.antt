-- ===== src/Ledger/Empty/Settle.antt =====
-- A find on its way through the book: prepared, committed or aborted, settled once.
use c_datum_prime.Common.{ℕ, zero, suc, ◌+◌, ◌≤◌, ◌<◌, ◌≡◌, refl, ap, ◌∙◌, inl, inr}
use c_datum_prime.Common.{
  true, false, ◌||◌, ◌==◌, ltb, if◌then◌else◌, Bool-cases, Option-cases, none, some,
}
use c_datum_prime.Common.{List, [], ◌∷◌, ◌++◌, length}
use c_datum_prime.Common.{arith}
use c_datum_prime.Wire.Compare.{bytes_eq_refl}
use c_datum_prime.Ledger.Types.{Text}
use c_datum_prime.Ledger.Empty.{
  max_empty, Find, Terms, Code, done, empty_index, drop_empty_slot, change_slot, settled_index,
  evict_empty_for_add, add_empty_locked, new_find, prepare_empty, commit_empty, abort_empty,
  settled, settle_empty, is_pending_at, empty_count,
}

-- The finds that are pending or not settled.
unfoldable pub open_count : List Find → ℕ
open_count [] = 0
open_count (f ∷ finds) = (if f.pending || f.settled_at == 0 then 1 else 0) + open_count finds

open_count-append :
    (finds : List Find) (f : Find) → open_count finds ≤ open_count (finds ++ (f ∷ []))
unfolding open_count
open_count-append [] f = omega arith
open_count-append (g ∷ finds) f = omega (arith, open_count-append finds f)

open_count-drop :
    (finds : List Find) (i : ℕ)
    → settled_index finds ≡ some i
    → open_count (drop_empty_slot finds i) ≡ open_count finds
unfolding open_count drop_empty_slot settled_index
open_count-drop [] i h = refl
open_count-drop (f ∷ finds) zero h = elim (Option-cases (settled_index finds)) [
  | inl nowhere ↦ ground arith
  | inr (j, there) ↦ ground arith
]
open_count-drop (f ∷ finds) (suc i) h = elim (Option-cases (settled_index finds)) [
  | inl nowhere ↦ ground arith
  | inr (j, there) ↦ ground (arith, open_count-drop finds i)
]

-- Preparing a find, which may be refused or may drop a settled one, loses no find that is pending or
-- not settled.
pub open_count-prepare_empty :
    (t : Terms) (finds : List Find) (height : ℕ) (hash : List ℕ) (finder : Text) (value : ℕ)
    → open_count finds ≤ open_count (prepare_empty t finds height hash finder value).1
unfolding prepare_empty add_empty_locked evict_empty_for_add open_count
open_count-prepare_empty t finds height hash finder value =
    elim (Option-cases (empty_index finds hash)) [
      | inr (i, there) ↦ rw (there, prepare_empty, add_empty_locked) (omega arith)
      | inl missing ↦ elim (Bool-cases (ltb (length finds) max_empty)) [
        | inl room ↦
            rw (missing, room, prepare_empty, add_empty_locked, evict_empty_for_add)
              (open_count-append finds (new_find t height hash finder value true))
        | inr full ↦ elim (Option-cases (settled_index finds)) [
          | inl nowhere ↦
              rw (missing, full, nowhere, prepare_empty, add_empty_locked, evict_empty_for_add)
                (omega arith)
          | inr (i, there) ↦
              let f = new_find t height hash finder value true in
              rw (missing, full, there, prepare_empty, add_empty_locked, evict_empty_for_add)
                (omega (
                  arith,
                  open_count-append (drop_empty_slot finds i) f,
                  open_count-drop finds i there,
                ))
        ]
      ]
    ]

-- The last row of a book.
empty_index-last :
    (finds : List Find) (f : Find)
    → empty_index finds f.hash ≡ none
    → empty_index (finds ++ (f ∷ [])) f.hash ≡ some (length finds)
unfolding empty_index
empty_index-last [] f h = rw (bytes_eq_refl f.hash) refl
empty_index-last (g ∷ finds) f h = elim (Option-cases (empty_index finds f.hash)) [
  | inl missing ↦ ground (arith, empty_index-last finds f missing)
  | inr (i, there) ↦ ground arith
]

pending-last :
    (finds : List Find) (f : Find) → is_pending_at (finds ++ (f ∷ [])) (length finds) ≡ f.pending
unfolding is_pending_at
pending-last [] f = refl
pending-last (g ∷ finds) f = pending-last finds f

drop-last :
    (finds : List Find) (f : Find) → drop_empty_slot (finds ++ (f ∷ [])) (length finds) ≡ finds
unfolding drop_empty_slot
drop-last [] f = refl
drop-last (g ∷ finds) f = ap (λ (t : List Find). g ∷ t) (drop-last finds f)

change-last :
    (finds : List Find) (f : Find) (change : Find → Find)
    → change_slot (finds ++ (f ∷ [])) (length finds) change ≡ finds ++ (change f ∷ [])
unfolding change_slot
change-last [] f change = refl
change-last (g ∷ finds) f change = ap (λ (t : List Find). g ∷ t) (change-last finds f change)

empty_count-append :
    (finds : List Find) (f : Find)
    → empty_count (finds ++ (f ∷ [])) ≡ empty_count finds + (if f.pending then 0 else 1)
unfolding empty_count
empty_count-append [] f = omega arith
empty_count-append (g ∷ finds) f = omega (arith, empty_count-append finds f)

abort-found :
    (book : List Find) (hash : List ℕ) (i : ℕ)
    → empty_index book hash ≡ some i
    → is_pending_at book i ≡ true
    → abort_empty book hash ≡ (done, drop_empty_slot book i)
unfolding abort_empty
abort-found book hash i there unsettled = rw (there, unsettled, abort_empty) refl

commit-found :
    (book : List Find) (hash : List ℕ) (i : ℕ)
    → empty_index book hash ≡ some i
    → commit_empty book hash ≡ (done, change_slot book i (λ f. record f { pending = false }))
unfolding commit_empty
commit-found book hash i there = rw (there, commit_empty) refl

settle-found :
    (book : List Find) (hash : List ℕ) (i at : ℕ)
    → empty_index book hash ≡ some i
    → (settle_empty book hash at).1
      ≡ (if is_pending_at book i then book else change_slot book i (settled at))
unfolding settle_empty
settle-found book hash i at there = elim (Bool-cases (is_pending_at book i)) [
  | inl unsettled ↦ rw (there, unsettled, settle_empty) refl
  | inr shut ↦ rw (there, shut, settle_empty) refl
]

module _ (t : Terms) (finds : List Find) (height : ℕ) (hash : List ℕ) (finder : Text) (value : ℕ)
    (missing : empty_index finds hash ≡ none) (room : length finds < max_empty) where
  abbrev fresh_find : Find
  fresh_find = new_find t height hash finder value true

  prepared : prepare_empty t finds height hash finder value ≡ (done, finds ++ (fresh_find ∷ []))
  unfolding prepare_empty add_empty_locked evict_empty_for_add
  prepared =
      let room' : ltb (length finds) max_empty ≡ true = ground arith in
      rw (missing, room', prepare_empty, add_empty_locked, evict_empty_for_add) refl

  found : empty_index (finds ++ (fresh_find ∷ [])) hash ≡ some (length finds)
  unfolding new_find
  found = empty_index-last finds fresh_find missing

  fresh_is_pending : fresh_find.pending ≡ true
  unfolding new_find
  fresh_is_pending = refl

  -- Where the block is not in the book and there is room, aborting a find that was prepared undoes it.
  pub abort_empty-prepare_empty :
      abort_empty (prepare_empty t finds height hash finder value).1 hash ≡ (done, finds)
  abort_empty-prepare_empty =
      let book = finds ++ (fresh_find ∷ []) in
      let unsettled = pending-last finds fresh_find ∙ fresh_is_pending in
      ap (λ (r : Code × List Find). abort_empty r.1 hash) prepared
      ∙ abort-found book hash (length finds) found unsettled
      ∙ ap (λ (b : List Find). (done, b)) (drop-last finds fresh_find)

  -- Where the block is not in the book and there is room, a find counts once it is committed, not when
  -- it is only prepared.
  pub empty_count-commit_empty :
      let book = (prepare_empty t finds height hash finder value).1 in
      (empty_count book ≡ empty_count finds)
      × (empty_count (commit_empty book hash).1 ≡ empty_count finds + 1)
  empty_count-commit_empty =
      let committed : Find = record fresh_find { pending = false } in
      let before = empty_count-append finds fresh_find in
      let after : empty_count (finds ++ (committed ∷ [])) ≡ empty_count finds + 1 =
        empty_count-append finds committed in
      (
        rw prepared (before ∙ rw fresh_is_pending (omega arith)),
        ap (λ (r : Code × List Find). empty_count (commit_empty r.1 hash).1) prepared
            ∙ ap (λ (r : Code × List Find). empty_count r.1)
                (commit-found (finds ++ (fresh_find ∷ [])) hash (length finds) found)
            ∙ ap (λ (b : List Find). empty_count b)
                (change-last finds fresh_find (λ f. record f { pending = false }))
            ∙ after,
      )

-- What settling changes is not what finds are looked up by.
index-change :
    (finds : List Find) (i : ℕ) (hash : List ℕ) (at : ℕ)
    → empty_index (change_slot finds i (settled at)) hash ≡ empty_index finds hash
unfolding empty_index change_slot
index-change [] i hash at = refl
index-change (f ∷ finds) zero hash at =
    let same : (settled at f).hash ≡ f.hash = unfold settled in ground arith in rw same refl
index-change (f ∷ finds) (suc i) hash at = rw (index-change finds i hash at) refl

pending-change :
    (finds : List Find) (i at : ℕ)
    → is_pending_at (change_slot finds i (settled at)) i ≡ is_pending_at finds i
unfolding is_pending_at change_slot
pending-change [] i at = refl
pending-change (f ∷ finds) zero at = unfold settled in ground arith
pending-change (f ∷ finds) (suc i) at = pending-change finds i at

settled_twice : (f : Find) (at again : ℕ) → settled again (settled at f) ≡ settled at f
unfolding settled
settled_twice f at again = elim (Bool-cases (f.settled_at == 0)) [
  | inl unsettled ↦
      let set : ((if at == 0 then 1 else at) == 0) ≡ false = ground arith in
      rw (unsettled, set) refl
  | inr shut ↦ rw (shut, shut) refl
]

change_twice :
    (finds : List Find) (i at again : ℕ)
    → change_slot (change_slot finds i (settled at)) i (settled again)
      ≡ change_slot finds i (settled at)
unfolding change_slot
change_twice [] i at again = refl
change_twice (f ∷ finds) zero at again = ap (λ (g : Find). g ∷ finds) (settled_twice f at again)
change_twice (f ∷ finds) (suc i) at again =
    ap (λ (t : List Find). f ∷ t) (change_twice finds i at again)

settle-missing :
    (book : List Find) (hash : List ℕ) (at : ℕ)
    → empty_index book hash ≡ none
    → (settle_empty book hash at).1 ≡ book
unfolding settle_empty
settle-missing book hash at missing = rw (missing, settle_empty) refl

-- A find is settled once: whatever time a second settlement gives, the book keeps the first.
pub settle_empty_twice :
    (finds : List Find) (hash : List ℕ) (at again : ℕ)
    → (settle_empty (settle_empty finds hash at).1 hash again).1 ≡ (settle_empty finds hash at).1
settle_empty_twice finds hash at again = elim (Option-cases (empty_index finds hash)) [
  | inl missing ↦
      let same = settle-missing finds hash at missing in
      rw (same, settle-missing finds hash again missing) refl
  | inr (i, there) ↦ elim (Bool-cases (is_pending_at finds i)) [
    | inl unsettled ↦
        let same : (settle_empty finds hash at).1 ≡ finds =
          rw (settle-found finds hash i at there, unsettled) refl in
        rw (same, settle-found finds hash i again there, unsettled) refl
    | inr shut ↦
        let book = change_slot finds i (settled at) in
        let first : (settle_empty finds hash at).1 ≡ book =
          rw (settle-found finds hash i at there, shut) refl in
        let still = pending-change finds i at ∙ shut in
        let second = settle-found book hash i again (index-change finds i hash at ∙ there) in
        rw (first, second, still, change_twice finds i at again) refl
  ]
]
