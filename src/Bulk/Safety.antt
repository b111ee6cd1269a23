-- ===== src/Bulk/Safety.antt =====
-- The buffer of a transfer is never written past its end.
use c_datum_prime.Common.{ℕ, ◌+◌, ◌≤◌, ◌≡◌, inl, inr}
use c_datum_prime.Common.{true, Bool-cases, Option-cases, Option, none, some}
use c_datum_prime.Common.{List, [], ◌∷◌, ◌++◌, length, take, drop}
use c_datum_prime.Common.{length-append, length-take, length-drop, arith}
use c_datum_prime.Framing.{max_cmd_len}
use c_datum_prime.Bulk.{
  splice, place, admit, ingest, is_sane, split_fragment, carries_on, on_bulk, receive, Transfer,
  Fragment, store,
}

-- What holds of the parameters between two calls.
pub record IsOpen (t : Transfer) (buf : List ℕ) : Type 0 where
  pub size : length buf ≡ t.total
  pub capacity : t.acc_cap ≡ t.total
  pub small : t.total ≤ max_cmd_len
  pub within : t.got ≤ t.total
  pub counted : t.acc_len ≡ t.got

abbrev pub IsValidAt : Option (List ℕ) → Transfer → Type 0
IsValidAt none t = t.got ≡ 0
IsValidAt (some buf) t = IsOpen t buf

abbrev pub IsValid : Transfer → Type 0
IsValid t = IsValidAt t.acc t

-- `malloc(n)` gives an array of `n` bytes, or NULL.
abbrev pub Allocates : (ℕ → Option (List ℕ)) → Type 0
Allocates malloc = (n : ℕ) (buf : List ℕ) → malloc n ≡ some buf → length buf ≡ n

pub length-splice :
    (buf : List ℕ) (at : ℕ) (src : List ℕ)
    → at + length src ≤ length buf
    → length (splice buf at src) ≡ length buf
length-splice buf at src h = omega (
  arith,
  length-append (take at buf) (src ++ drop (at + length src) buf),
  length-append src (drop (at + length src) buf),
  length-take at buf,
  length-drop (at + length src) buf,
)

store-IsValid :
    (t : Transfer) (buf : List ℕ) (f : Fragment)
    → t.acc ≡ some buf
    → IsOpen t buf
    → IsValid (store t buf f).transfer
unfolding store
store-IsValid t buf f e v = ground (arith, length-splice buf f.foff f.bytes)

module _ (malloc : ℕ → Option (List ℕ)) (alloc : Allocates malloc) where
  -- A transfer that is opened takes a buffer of the stated size, within the limit.
  place-IsValid :
      (t : Transfer) (f : Fragment)
      → IsValid t
      → is_sane f ≡ true
      → IsValid (place malloc t f).transfer
  unfolding place is_sane store
  place-IsValid t f v sane = elim (Option-cases t.acc) [
    | inl closed ↦ elim (Option-cases (malloc f.ftotal)) [
      | inl out_of_memory ↦ ground (arith)
      | inr (buf, e) ↦ ground (arith, alloc f.ftotal buf e, length-splice buf f.foff f.bytes)
    ]
    | inr (buf, e) ↦ ground (arith, length-splice buf f.foff f.bytes)
  ]

  admit-IsValid : (t : Transfer) (f : Fragment) → IsValid t → IsValid (admit malloc t f).transfer
  unfolding admit
  admit-IsValid t f v = elim (Bool-cases (is_sane f)) [
    | inl sane ↦ elim (Bool-cases (carries_on t f)) [
      | inl next ↦ rw (sane, next) (place-IsValid t f v sane)
      | inr other ↦ rw (sane, other) v
    ]
    | inr bad ↦ rw bad v
  ]

  pub ingest-IsValid :
      (t : Transfer) (plain : List ℕ) → IsValid t → IsValid (ingest malloc t plain).transfer
  unfolding ingest
  ingest-IsValid t plain v = elim (Option-cases (split_fragment plain)) [
    | inl e ↦ rw (e, ingest) v
    | inr (f, e) ↦ rw (e, ingest) (admit-IsValid t f v)
  ]

  on_bulk-IsValid : (t : Transfer) (plain : List ℕ) → IsValid t → IsValid (on_bulk malloc t plain).0
  unfolding on_bulk
  on_bulk-IsValid t plain v = ground (arith, ingest-IsValid t plain v)

  -- From a valid state, with an allocator that gives arrays of the size asked for or none, any list of
  -- messages leaves the transfer valid, complete transfers and their resets included: the buffer has
  -- the stated size, at most 2 ^ 22 - 1 bytes, and the bytes counted as received lie inside it.
  pub receive-IsValid :
      (t : Transfer) (plains : List (List ℕ)) → IsValid t → IsValid (receive malloc t plains).0
  unfolding receive
  receive-IsValid t [] v = v
  receive-IsValid t (plain ∷ rest) v =
      receive-IsValid (on_bulk malloc t plain).0 rest (on_bulk-IsValid t plain v)
