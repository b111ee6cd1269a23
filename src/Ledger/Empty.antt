-- ===== src/Ledger/Empty.antt =====
-- The book of blocks that were found empty (src/ledger.c: `empty_index` to `prime_pool_void_empty`):
-- a find is prepared before its block is submitted and committed or aborted after; it is settled when
-- the miners were paid by hand. The files and the printed rows are not modelled.
pub mod Book
pub mod Settle
mod Examples
use c_datum_prime.Common.{[], ℕ, zero, suc, ◌+◌}
use c_datum_prime.Common.{
  Bool, true, false, not, ◌&&◌, ◌==◌, ltb, if◌then◌else◌, Option, none, some,
}
use c_datum_prime.Common.{List, ◌∷◌, ◌++◌, length, get_elem?}
use c_datum_prime.Wire.{bytes_eq}
use c_datum_prime.Ledger.Types.{Text, IdentWork, copy_text, max_identity, max_idents}

abbrev pub max_empty : ℕ
max_empty = 32

-- A row of `empty`: `rows` are the parallel arrays `idents`, `work` and `public_work`.
pub record Find : Type 0 where
  pub at : ℕ
  pub height : ℕ
  pub hash : List ℕ
  pub value : ℕ
  pub total_work : ℕ
  pub settled_at : ℕ
  pub finder : Text
  pub rows : List IdentWork
  pub fee_bps : ℕ
  pub min_payout : ℕ
  pub pending : Bool

-- What a new row copies from the pool, and the time.
pub record Terms : Type 0 where
  pub now : ℕ
  pub total_work : ℕ
  pub fee_bps : ℕ
  pub min_payout : ℕ
  pub idents : List IdentWork

-- The return values 0, 1 and -1.
pub data Code : Type 0 where
  done : Code
  absent : Code
  failed : Code

unfoldable pub empty_index : List Find → List ℕ → Option ℕ
empty_index [] hash = none
empty_index (f ∷ finds) hash =
    let rest = empty_index finds hash in
    if bytes_eq f.hash hash then some 0 else elim rest [ none ↦ none | some i ↦ some (suc i) ]

-- `drop_empty_slot`: the rows behind move up.
unfoldable pub drop_empty_slot : List Find → ℕ → List Find
drop_empty_slot [] i = []
drop_empty_slot (f ∷ finds) zero = finds
drop_empty_slot (f ∷ finds) (suc i) = f ∷ drop_empty_slot finds i

-- `p->empty[i] = change(p->empty[i])`.
unfoldable pub change_slot : List Find → ℕ → (Find → Find) → List Find
change_slot [] i change = []
change_slot (f ∷ finds) zero change = change f ∷ finds
change_slot (f ∷ finds) (suc i) change = f ∷ change_slot finds i change

-- The first row that is settled and not pending.
unfoldable pub settled_index : List Find → Option ℕ
settled_index [] = none
settled_index (f ∷ finds) =
    let rest = settled_index finds in
    if not f.pending && not (f.settled_at == 0)
    then some 0
    else elim rest [ none ↦ none | some i ↦ some (suc i) ]

-- `none` is its -1.
unfoldable pub evict_empty_for_add : List Find → Bool → Option (List Find)
evict_empty_for_add finds pending =
    if ltb (length finds) max_empty
    then some finds
    else if pending
    then elim (settled_index finds) [ none ↦ none | some i ↦ some (drop_empty_slot finds i) ]
    else some (drop_empty_slot finds 0)

-- The rows that have work, while there is room for `room` more.
unfoldable pub working_rows : ℕ → List IdentWork → List IdentWork
working_rows room [] = []
working_rows zero (r ∷ idents) = []
working_rows (suc room) (r ∷ idents) =
    let skipped = working_rows (suc room) idents in
    let rest = working_rows room idents in
    if r.work == 0
    then skipped
    else record r { identity = copy_text max_identity r.identity } ∷ rest

-- The row that `add_empty_locked` fills in.
unfoldable pub new_find : Terms → ℕ → List ℕ → Text → ℕ → Bool → Find
new_find t height hash finder value pending = record {
  at = t.now;
  height = height;
  hash = hash;
  value = value;
  total_work = t.total_work;
  settled_at = 0;
  finder = copy_text max_identity finder;
  rows = working_rows max_idents t.idents;
  fee_bps = t.fee_bps;
  min_payout = t.min_payout;
  pending = pending;
}

-- `none` is its -1, which leaves the book as it is.
unfoldable pub add_empty_locked :
    Terms → List Find → ℕ → List ℕ → Text → ℕ → Bool → Option (List Find)
add_empty_locked t finds height hash finder value pending = elim (empty_index finds hash) [
  | some i ↦ some finds
  | none ↦ elim (evict_empty_for_add finds pending) [
    | none ↦ none
    | some kept ↦ some (kept ++ (new_find t height hash finder value pending ∷ []))
  ]
]

unfoldable pub record_empty : Terms → List Find → ℕ → List ℕ → Text → ℕ → Code × List Find
record_empty t finds height hash finder value =
    elim (add_empty_locked t finds height hash finder value false) [
      | none ↦ (done, finds)
      | some finds' ↦ (done, finds')
    ]

unfoldable pub prepare_empty : Terms → List Find → ℕ → List ℕ → Text → ℕ → Code × List Find
prepare_empty t finds height hash finder value =
    elim (add_empty_locked t finds height hash finder value true) [
      | none ↦ (failed, finds)
      | some finds' ↦ (done, finds')
    ]

-- `p->empty[i]`, where a row is pending.
unfoldable pub is_pending_at : List Find → ℕ → Bool
is_pending_at finds i = elim (get_elem? finds i) [ none ↦ false | some f ↦ f.pending ]

unfoldable pub commit_empty : List Find → List ℕ → Code × List Find
commit_empty finds hash = elim (empty_index finds hash) [
  | none ↦ (absent, finds)
  | some i ↦ (done, change_slot finds i (λ f. record f { pending = false }))
]

unfoldable pub abort_empty : List Find → List ℕ → Code × List Find
abort_empty finds hash = elim (empty_index finds hash) [
  | none ↦ (absent, finds)
  | some i ↦ if is_pending_at finds i then (done, drop_empty_slot finds i) else (absent, finds)
]

unfoldable pub settled : ℕ → Find → Find
settled at f = if f.settled_at == 0 then record f { settled_at = if at == 0 then 1 else at } else f

unfoldable pub settle_empty : List Find → List ℕ → ℕ → Code × List Find
settle_empty finds hash at = elim (empty_index finds hash) [
  | none ↦ (absent, finds)
  | some i ↦
      if is_pending_at finds i then (absent, finds) else (done, change_slot finds i (settled at))
]

unfoldable pub void_empty : List Find → List ℕ → Code × List Find
void_empty finds hash = elim (empty_index finds hash) [
  | none ↦ (absent, finds)
  | some i ↦ (done, drop_empty_slot finds i)
]

unfoldable pub empty_count : List Find → ℕ
empty_count [] = 0
empty_count (f ∷ finds) = (if f.pending then 0 else 1) + empty_count finds

unfoldable pub empty_unsettled : List Find → ℕ
empty_unsettled [] = 0
empty_unsettled (f ∷ finds) =
    (if not f.pending && f.settled_at == 0 then 1 else 0) + empty_unsettled finds
