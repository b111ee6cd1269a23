-- ===== src/Ledger/Empty/Book.antt =====
-- Whatever is done to the book, it has at most 32 finds, each block once.
use c_datum_prime.Common.{ℕ, zero, suc, ◌+◌, ◌≤◌, ◌<◌, ◌≡◌, refl, inl, inr}
use c_datum_prime.Common.{
  Bool, true, false, ltb, if◌then◌else◌, Bool-cases, Option-cases, Option, none, some,
}
use c_datum_prime.Common.{List, [], ◌∷◌, ◌++◌, length}
use c_datum_prime.Common.{length-append, arith}
use c_datum_prime.Wire.{bytes_eq}
use c_datum_prime.Wire.Compare.{eq_of_bytes_eq}
use c_datum_prime.Ledger.Types.{Text}
use c_datum_prime.Ledger.Empty.{
  max_empty, Find, Terms, Code, empty_index, drop_empty_slot, change_slot, settled_index,
  evict_empty_for_add, add_empty_locked, new_find, record_empty, prepare_empty, commit_empty,
  abort_empty, settled, settle_empty, void_empty,
}

-- How many finds have the hash.
unfoldable pub occurs : List Find → List ℕ → ℕ
occurs [] hash = 0
occurs (f ∷ finds) hash = (if bytes_eq f.hash hash then 1 else 0) + occurs finds hash

pub record IsBook (finds : List Find) : Type 0 where
  pub limit : length finds ≤ max_empty
  pub once : (hash : List ℕ) → occurs finds hash ≤ 1

occurs-none :
    (finds : List Find) (hash : List ℕ) → empty_index finds hash ≡ none → occurs finds hash ≡ 0
unfolding empty_index occurs
occurs-none [] hash h = refl
occurs-none (f ∷ finds) hash h = elim (Option-cases (empty_index finds hash)) [
  | inl none_there ↦ ground (arith, occurs-none finds hash none_there)
  | inr (i, there) ↦ ground arith
]

occurs-drop :
    (finds : List Find) (i : ℕ) (hash : List ℕ)
    → occurs (drop_empty_slot finds i) hash ≤ occurs finds hash
unfolding drop_empty_slot occurs
occurs-drop [] i hash = omega arith
occurs-drop (f ∷ finds) zero hash = omega arith
occurs-drop (f ∷ finds) (suc i) hash = omega (arith, occurs-drop finds i hash)

length-drop_empty_slot :
    (finds : List Find) (i : ℕ) → length (drop_empty_slot finds i) ≤ length finds
unfolding drop_empty_slot
length-drop_empty_slot [] i = omega arith
length-drop_empty_slot (f ∷ finds) zero = omega arith
length-drop_empty_slot (f ∷ finds) (suc i) = omega (arith, length-drop_empty_slot finds i)

-- A slot that is there is really dropped.
pub length-drop_settled :
    (finds : List Find) (i : ℕ)
    → settled_index finds ≡ some i
    → length (drop_empty_slot finds i) + 1 ≡ length finds
unfolding drop_empty_slot settled_index
length-drop_settled [] i h = cc
length-drop_settled (f ∷ finds) zero h = omega arith
length-drop_settled (f ∷ finds) (suc i) h = elim (Option-cases (settled_index finds)) [
  | inl nowhere ↦ ground arith
  | inr (j, there) ↦ ground (arith, length-drop_settled finds i)
]

drop-IsBook : (finds : List Find) (i : ℕ) → IsBook finds → IsBook (drop_empty_slot finds i)
drop-IsBook finds i b = record {
  limit = omega (arith, b.limit, length-drop_empty_slot finds i);
  once = λ hash. omega (arith, b.once hash, occurs-drop finds i hash);
}

change-same :
    (finds : List Find) (i : ℕ) (change : Find → Find)
    → ((f : Find) → (change f).hash ≡ f.hash)
    → (length (change_slot finds i change) ≡ length finds)
      × ((hash : List ℕ) → occurs (change_slot finds i change) hash ≡ occurs finds hash)
unfolding change_slot occurs
change-same [] i change h = (refl, λ hash. refl)
change-same (f ∷ finds) zero change h = (refl, λ hash. rw (h f) refl)
change-same (f ∷ finds) (suc i) change h =
    let (size, same) = change-same finds i change h in
    (omega arith, λ hash. omega (arith, same hash))

change-IsBook :
    (finds : List Find) (i : ℕ) (change : Find → Find)
    → ((f : Find) → (change f).hash ≡ f.hash)
    → IsBook finds
    → IsBook (change_slot finds i change)
change-IsBook finds i change h b =
    let (size, same) = change-same finds i change h in
    record { limit = omega (arith, b.limit); once = λ hash. omega (arith, b.once hash, same hash) }

occurs-append :
    (finds : List Find) (f : Find) (hash : List ℕ)
    → occurs (finds ++ (f ∷ [])) hash ≡ occurs finds hash + (if bytes_eq f.hash hash then 1 else 0)
unfolding occurs
occurs-append [] f hash = omega arith
occurs-append (g ∷ finds) f hash = omega (arith, occurs-append finds f hash)

abbrev IfSome : (List Find → Type 0) → Option (List Find) → Type 0
IfSome P none = Unit
IfSome P (some finds) = P finds

-- Room for one more, and no hash more often than before.
abbrev HasRoom : List Find → List Find → Type 0
HasRoom finds kept =
    length kept < max_empty × ((hash : List ℕ) → occurs kept hash ≤ occurs finds hash)

first_dropped :
    (finds : List Find)
    → IsBook finds
    → ltb (length finds) max_empty ≡ false
    → length (drop_empty_slot finds 0) < max_empty
unfolding drop_empty_slot
first_dropped [] b h = omega arith
first_dropped (f ∷ finds) b h = omega (arith, b.limit)

evict-full :
    (finds : List Find) (pending : Bool)
    → IsBook finds
    → ltb (length finds) max_empty ≡ false
    → IfSome (HasRoom finds) (evict_empty_for_add finds pending)
unfolding evict_empty_for_add
evict-full finds true b full = elim (Option-cases (settled_index finds)) [
  | inl nowhere ↦ rw (full, nowhere) tt
  | inr (i, there) ↦
      rw (full, there)
        (
          omega (arith, b.limit, length-drop_settled finds i there),
          λ hash. occurs-drop finds i hash,
        )
]
evict-full finds false b full =
    rw full (first_dropped finds b full, λ hash. occurs-drop finds 0 hash)

evict-HasRoom :
    (finds : List Find) (pending : Bool)
    → IsBook finds
    → IfSome (HasRoom finds) (evict_empty_for_add finds pending)
evict-HasRoom finds pending b = elim (Bool-cases (ltb (length finds) max_empty)) [
  | inl room ↦ unfold evict_empty_for_add in rw room (ground arith, λ hash. omega arith)
  | inr full ↦ evict-full finds pending b full
]

append-IsBook :
    (finds kept : List Find) (f : Find)
    → IsBook finds
    → empty_index finds f.hash ≡ none
    → HasRoom finds kept
    → IsBook (kept ++ (f ∷ []))
append-IsBook finds kept f b missing room = record {
  limit = omega (arith, room.0, length-append kept (f ∷ []));
  once = λ hash. elim (Bool-cases (bytes_eq f.hash hash)) [
    | inl same ↦
        let e = eq_of_bytes_eq f.hash hash same in
        ground
          (arith, occurs-append kept f hash, room.1 hash, occurs-none finds hash (rw (← e) missing))
    | inr other ↦ ground (arith, occurs-append kept f hash, room.1 hash, b.once hash)
  ];
}

add-IsBook :
    (t : Terms) (finds : List Find) (height : ℕ) (hash : List ℕ) (finder : Text) (value : ℕ)
    (pending : Bool)
    → IsBook finds
    → IfSome IsBook (add_empty_locked t finds height hash finder value pending)
unfolding add_empty_locked
add-IsBook t finds height hash finder value pending b =
    elim (Option-cases (empty_index finds hash)) [
      | inr (i, there) ↦ rw (there, add_empty_locked) b
      | inl missing ↦ elim (Option-cases (evict_empty_for_add finds pending)) [
        | inl refused ↦ rw (missing, refused, add_empty_locked) tt
        | inr (kept, e) ↦
            let room : HasRoom finds kept = rw e at (evict-HasRoom finds pending b) in
            let f = new_find t height hash finder value pending in
            let same : f.hash ≡ hash = unfold new_find in refl in
            rw (missing, e, add_empty_locked) (append-IsBook finds kept f b (rw same missing) room)
      ]
    ]

-- The operations on the book.
pub data Op : Type 0 where
  on_record : Terms → ℕ → List ℕ → Text → ℕ → Op
  on_prepare : Terms → ℕ → List ℕ → Text → ℕ → Op
  on_commit : List ℕ → Op
  on_abort : List ℕ → Op
  on_settle : List ℕ → ℕ → Op
  on_void : List ℕ → Op

unfoldable pub run : Op → List Find → Code × List Find
run (on_record t height hash finder value) finds = record_empty t finds height hash finder value
run (on_prepare t height hash finder value) finds = prepare_empty t finds height hash finder value
run (on_commit hash) finds = commit_empty finds hash
run (on_abort hash) finds = abort_empty finds hash
run (on_settle hash at) finds = settle_empty finds hash at
run (on_void hash) finds = void_empty finds hash

unfoldable pub run_all : List Op → List Find → List Find
run_all [] finds = finds
run_all (op ∷ ops) finds = run_all ops (run op finds).1

run-IsBook : (op : Op) (finds : List Find) → IsBook finds → IsBook (run op finds).1
unfolding run record_empty prepare_empty commit_empty abort_empty settle_empty void_empty settled
run-IsBook (on_record t height hash finder value) finds b =
    elim (Option-cases (add_empty_locked t finds height hash finder value false)) [
      | inl refused ↦ rw (refused, run, record_empty) b
      | inr (finds', e) ↦
          rw (e, run, record_empty) (rw e at (add-IsBook t finds height hash finder value false b))
    ]
run-IsBook (on_prepare t height hash finder value) finds b =
    elim (Option-cases (add_empty_locked t finds height hash finder value true)) [
      | inl refused ↦ rw (refused, run, prepare_empty) b
      | inr (finds', e) ↦
          rw (e, run, prepare_empty) (rw e at (add-IsBook t finds height hash finder value true b))
    ]
run-IsBook (on_commit hash) finds b = elim (Option-cases (empty_index finds hash)) [
  | inl missing ↦ rw (missing, run, commit_empty) b
  | inr (i, there) ↦
      rw (there, run, commit_empty)
        (change-IsBook finds i (λ f. record f { pending = false }) (λ f. refl) b)
]
run-IsBook (on_abort hash) finds b = elim (Option-cases (empty_index finds hash)) [
  | inl missing ↦ rw (missing, run, abort_empty) b
  | inr (i, there) ↦ rw (there, run, abort_empty) (ground (arith, drop-IsBook finds i b))
]
run-IsBook (on_settle hash at) finds b = elim (Option-cases (empty_index finds hash)) [
  | inl missing ↦ rw (missing, run, settle_empty) b
  | inr (i, there) ↦
      rw (there, run, settle_empty)
        (ground (arith, change-IsBook finds i (settled at) (λ f. ground arith) b))
]
run-IsBook (on_void hash) finds b = elim (Option-cases (empty_index finds hash)) [
  | inl missing ↦ rw (missing, run, void_empty) b
  | inr (i, there) ↦ rw (there, run, void_empty) (drop-IsBook finds i b)
]

-- From a book with at most 32 finds and each block once, any sequence of operations, refused ones
-- included, leads to such a book.
pub run_all-IsBook : (ops : List Op) (finds : List Find) → IsBook finds → IsBook (run_all ops finds)
unfolding run_all
run_all-IsBook [] finds b = b
run_all-IsBook (op ∷ ops) finds b = run_all-IsBook ops (run op finds).1 (run-IsBook op finds b)
