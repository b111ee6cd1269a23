-- ===== src/Ledger/Split/Pot.antt =====
-- `pot_split`: what it pays of a pot, whom, and how much.
use c_datum_prime.Common.{
  ℕ, zero, suc, ◌+◌, ◌*◌, ◌/◌, ◌^◌, ◌≤◌, ◌<◌, ◌≡◌, refl, sym, ap, ◌∙◌, inl, inr,
}
use c_datum_prime.Common.{Bool, true, false, ◌==◌, leb, if◌then◌else◌, Bool-cases}
use c_datum_prime.Common.{List, [], ◌∷◌, ◌++◌, reverse, take, All, All-append}
use c_datum_prime.Common.{arith}
use native.Mathlib.Nat.{le-div_iff_mul-le, div-mul-le_self, mul-le-mul_left, le_trans, div-zero}
use mathlib.Core.List.{reverse-append}
use c_datum_prime.Ledger.Types.{IdentWork}
use c_datum_prime.Ledger.Split.{
  share, sub64, pay, add_work, shed, sort_rows, insert_row, comes_first, side_rows, ident_side_work,
  ranked_rows, pot_split,
}
use c_datum_prime.Ledger.Split.Pay.{sum_work, HasWork, add_work-eq-sum_work, share_lem}

-- Sorting keeps the work and the rows' properties.
sum_work-insert_row :
    (x : IdentWork) (rows : List IdentWork) → sum_work (insert_row x rows) ≡ x.work + sum_work rows
unfolding insert_row
sum_work-insert_row x [] = refl
sum_work-insert_row x (y ∷ rows) = ground (arith, sum_work-insert_row x rows)

sum_work-sort_rows : (rows : List IdentWork) → sum_work (sort_rows rows) ≡ sum_work rows
unfolding sort_rows
sum_work-sort_rows [] = refl
sum_work-sort_rows (x ∷ rows) =
    sum_work-insert_row x (sort_rows rows) ∙ ap (λ (t : ℕ). x.work + t) (sum_work-sort_rows rows)

All-insert_row {ℓ} :
    (P : IdentWork → Type ℓ) (x : IdentWork) (rows : List IdentWork)
    → P x
    → All P rows
    → All P (insert_row x rows)
unfolding insert_row
All-insert_row P x [] px h = (px, tt)
All-insert_row P x (y ∷ rows) px h = elim (Bool-cases (comes_first x y)) [
  | inl first ↦ rw first (px, h)
  | inr after ↦ rw after (h.0, All-insert_row P x rows px h.1)
]

All-sort_rows {ℓ} :
    (P : IdentWork → Type ℓ) (rows : List IdentWork) → All P rows → All P (sort_rows rows)
unfolding sort_rows
All-sort_rows P [] h = h
All-sort_rows P (x ∷ rows) h = All-insert_row P x (sort_rows rows) h.0 (All-sort_rows P rows h.1)

All-take {ℓ} :
    (P : IdentWork → Type ℓ) (n : ℕ) (rows : List IdentWork) → All P rows → All P (take n rows)
All-take P zero rows h = tt
All-take P (suc n) [] h = h
All-take P (suc n) (x ∷ rows) h = (h.0, All-take P n rows h.1)

sum_work-take : (n : ℕ) (rows : List IdentWork) → sum_work (take n rows) ≤ sum_work rows
sum_work-take zero rows = omega arith
sum_work-take (suc n) [] = omega arith
sum_work-take (suc n) (x ∷ rows) = omega (arith, sum_work-take n rows)

-- The side's work of the rows of the window.
abbrev pub side_work : List IdentWork → Bool → ℕ
side_work [] public_side = 0
side_work (k ∷ kept) public_side = ident_side_work k public_side + side_work kept public_side

sum_work-side_rows :
    (kept : List IdentWork) (public_side : Bool)
    → sum_work (side_rows kept public_side) ≡ side_work kept public_side
unfolding side_rows
sum_work-side_rows [] public_side = refl
sum_work-side_rows (k ∷ kept) public_side = ground (arith, sum_work-side_rows kept public_side)

side_rows-HasWork :
    (kept : List IdentWork) (public_side : Bool) → All HasWork (side_rows kept public_side)
unfolding side_rows
side_rows-HasWork [] public_side = tt
side_rows-HasWork (k ∷ kept) public_side = ground (arith, side_rows-HasWork kept public_side)

pub side_work-le :
    (kept : List IdentWork) (public_side : Bool) → side_work kept public_side ≤ sum_work kept
unfolding ident_side_work
side_work-le [] public_side = omega arith
side_work-le (k ∷ kept) true = ground (arith, side_work-le kept true)
side_work-le (k ∷ kept) false = ground (arith, side_work-le kept false)

sum_work-append : (xs ys : List IdentWork) → sum_work (xs ++ ys) ≡ sum_work xs + sum_work ys
sum_work-append [] ys = omega arith
sum_work-append (x ∷ xs) ys = omega (arith, sum_work-append xs ys)

sum_work-reverse : (xs : List IdentWork) → sum_work (reverse xs) ≡ sum_work xs
sum_work-reverse [] = refl
sum_work-reverse (x ∷ xs) =
    ap (λ (t : List IdentWork). sum_work t) (reverse-append (x ∷ []) xs)
    ∙ sum_work-append (reverse xs) (x ∷ [])
    ∙ omega (arith, sum_work-reverse xs)

All-reverse {ℓ} : (P : IdentWork → Type ℓ) (xs : List IdentWork) → All P xs → All P (reverse xs)
All-reverse P [] h = h
All-reverse P (x ∷ xs) h =
    rw (reverse-append (x ∷ []) xs)
      (All-append P (reverse xs) (x ∷ []) (All-reverse P xs h.1) (h.0, tt))

-- No row is below one of the rows behind it; and the same the other way round.
abbrev IsDescending : List IdentWork → Type 0
IsDescending [] = Unit
IsDescending (r ∷ rows) = All (λ x. x.work ≤ r.work) rows × IsDescending rows

abbrev IsAscending : List IdentWork → Type 0
IsAscending [] = Unit
IsAscending (r ∷ rows) = All (λ x. r.work ≤ x.work) rows × IsAscending rows

comes_first-le : (x y : IdentWork) → comes_first x y ≡ true → y.work ≤ x.work
unfolding comes_first
comes_first-le x y h = ground arith

le-comes_first : (x y : IdentWork) → comes_first x y ≡ false → x.work ≤ y.work
unfolding comes_first
le-comes_first x y h = ground arith

All-le_trans :
    (a b : ℕ) (rows : List IdentWork)
    → a ≤ b
    → All (λ x. x.work ≤ a) rows
    → All (λ x. x.work ≤ b) rows
All-le_trans a b [] h p = tt
All-le_trans a b (x ∷ rows) h p = (omega arith, All-le_trans a b rows h p.1)

insert_row-IsDescending :
    (x : IdentWork) (rows : List IdentWork) → IsDescending rows → IsDescending (insert_row x rows)
unfolding insert_row
insert_row-IsDescending x [] h = (tt, tt)
insert_row-IsDescending x (y ∷ rows) h = elim (Bool-cases (comes_first x y)) [
  | inl first ↦
      let le = comes_first-le x y first in
      rw first ((le, All-le_trans y.work x.work rows le h.0), h)
  | inr after ↦ rw after (
    All-insert_row (λ z. z.work ≤ y.work) x rows (le-comes_first x y after) h.0,
    insert_row-IsDescending x rows h.1,
  )
]

sort_rows-IsDescending : (rows : List IdentWork) → IsDescending (sort_rows rows)
unfolding sort_rows
sort_rows-IsDescending [] = tt
sort_rows-IsDescending (x ∷ rows) =
    insert_row-IsDescending x (sort_rows rows) (sort_rows-IsDescending rows)

take-IsDescending : (n : ℕ) (rows : List IdentWork) → IsDescending rows → IsDescending (take n rows)
take-IsDescending zero rows h = tt
take-IsDescending (suc n) [] h = tt
take-IsDescending (suc n) (x ∷ rows) h =
    (All-take (λ y. y.work ≤ x.work) n rows h.0, take-IsDescending n rows h.1)

snoc-IsAscending :
    (xs : List IdentWork) (r : IdentWork)
    → IsAscending xs
    → All (λ x. x.work ≤ r.work) xs
    → IsAscending (xs ++ (r ∷ []))
snoc-IsAscending [] r h p = (tt, tt)
snoc-IsAscending (x ∷ xs) r h p =
    (All-append (λ y. x.work ≤ y.work) xs (r ∷ []) h.0 (p.0, tt), snoc-IsAscending xs r h.1 p.1)

reverse-IsAscending : (rows : List IdentWork) → IsDescending rows → IsAscending (reverse rows)
reverse-IsAscending [] h = tt
reverse-IsAscending (r ∷ rows) h = rw (reverse-append (r ∷ []) rows) (
    snoc-IsAscending (reverse rows) r (reverse-IsAscending rows h.1)
      (All-reverse (λ x. x.work ≤ r.work) rows h.0))

part_mono : (pot a b work : ℕ) → a ≤ b → pot * a / work ≤ pot * b / work
part_mono pot a b zero h = omega (arith, div-zero (pot * a))
part_mono pot a b (suc w) h =
    (le-div_iff_mul-le (omega arith)).1
      (omega (arith, div-mul-le_self (pot * a) (suc w), mul-le-mul_left pot h))

-- What `shed` leaves: rows whose parts of the pot all reach the minimum, and their work.
pub record Kept (pot min_payout : ℕ) (kept : ℕ × List IdentWork) : Type 0 where
  pub work : kept.0 ≡ sum_work kept.1
  pub range : kept.0 < 2 ^ 64
  pub positive : All HasWork kept.1
  pub parts : All (λ x. min_payout ≤ pot * x.work / kept.0) kept.1

module _ (pot min_payout : ℕ) (hp : pot < 2 ^ 64) where
  parts_of_least :
      (work least : ℕ) (rows : List IdentWork)
      → min_payout ≤ pot * least / work
      → All (λ x. least ≤ x.work) rows
      → All (λ x. min_payout ≤ pot * x.work / work) rows
  parts_of_least work least [] h p = tt
  parts_of_least work least (x ∷ rows) h p =
      (le_trans h (part_mono pot least x.work work p.0), parts_of_least work least rows h p.1)

  shed-Kept :
      (rows : List IdentWork)
      → sum_work rows < 2 ^ 64
      → All HasWork rows
      → IsAscending rows
      → Kept pot min_payout (shed pot min_payout (sum_work rows) rows)
  unfolding shed
  shed-Kept [] hw pos asc = record { work = refl; range = omega arith; positive = tt; parts = tt }
  shed-Kept (r ∷ rows) hw pos asc =
      let work = sum_work (r ∷ rows) in
      let some_work : (work == 0) ≡ false = ground arith in
      let exact = (share_lem pot r.work work hp (omega arith)).0 in
      let less : sub64 work r.work ≡ sum_work rows = omega arith in
      elim (Bool-cases (leb min_payout (share pot r.work work))) [
        | inl enough ↦
            let part : min_payout ≤ pot * r.work / work = ground (arith, exact) in
            rw (some_work, enough)
              (record {
                work = refl;
                range = hw;
                positive = pos;
                parts = (part, parts_of_least work r.work rows part asc.0);
              })
        | inr short ↦ rw (some_work, short, less) (shed-Kept rows (omega arith) pos.1 asc.1)
      ]

module _ (kept : List IdentWork) (public_side : Bool) (pot min_payout max_n : ℕ) where
  unfoldable pub ranked : List IdentWork
  ranked = ranked_rows kept public_side max_n

  -- The rows that the minimum leaves, in rank order: these are paid.
  unfoldable pub funded_rows : List IdentWork
  funded_rows = reverse (shed pot min_payout (add_work 0 ranked) (reverse ranked)).1

  sum_work-ranked : sum_work ranked ≤ sum_work kept
  unfolding ranked ranked_rows
  sum_work-ranked = omega (
    arith,
    sum_work-take max_n (sort_rows (side_rows kept public_side)),
    sum_work-sort_rows (side_rows kept public_side),
    sum_work-side_rows kept public_side,
    side_work-le kept public_side,
  )

  ranked-HasWork : All HasWork ranked
  unfolding ranked ranked_rows
  ranked-HasWork =
      All-take (λ r. HasWork r) max_n (sort_rows (side_rows kept public_side))
        (All-sort_rows (λ r. HasWork r) (side_rows kept public_side)
          (side_rows-HasWork kept public_side))

  ranked-IsAscending : IsAscending (reverse ranked)
  unfolding ranked ranked_rows
  ranked-IsAscending = reverse-IsAscending (take max_n (sort_rows (side_rows kept public_side))) (
      take-IsDescending max_n (sort_rows (side_rows kept public_side))
        (sort_rows-IsDescending (side_rows kept public_side)))

  module _ (hp : pot < 2 ^ 64) (hw : sum_work kept < 2 ^ 64) where
    shed-ranked : Kept pot min_payout (shed pot min_payout (add_work 0 ranked) (reverse ranked))
    shed-ranked =
        let exact : add_work 0 ranked ≡ sum_work (reverse ranked) =
          add_work-eq-sum_work 0 ranked (omega (arith, sum_work-ranked))
          ∙ omega (arith, sum_work-reverse ranked) in
        rw exact (
          shed-Kept pot min_payout hp (reverse ranked)
            (omega (arith, sum_work-reverse ranked, sum_work-ranked))
            (All-reverse (λ r. HasWork r) ranked ranked-HasWork) ranked-IsAscending)

    pub funded : Kept pot min_payout (sum_work funded_rows, funded_rows)
    unfolding funded_rows
    funded =
        let k = shed-ranked in
        let left = shed pot min_payout (add_work 0 ranked) (reverse ranked) in
        let same : sum_work (reverse left.1) ≡ left.0 = sum_work-reverse left.1 ∙ sym k.work in
        record {
          work = refl;
          range = rw same k.range;
          positive = All-reverse (λ r. HasWork r) left.1 k.positive;
          parts = rw same (All-reverse (λ x. min_payout ≤ pot * x.work / left.0) left.1 k.parts);
        }

    pub pot_split-pay :
        pot_split kept public_side pot min_payout max_n
        ≡ (if pot == 0 then [] else pay pot (sum_work funded_rows) funded_rows)
    unfolding pot_split funded_rows ranked
    pot_split-pay =
        let left = shed pot min_payout (add_work 0 ranked) (reverse ranked) in
        let same : sum_work (reverse left.1) ≡ left.0 =
          sum_work-reverse left.1 ∙ sym shed-ranked.work in
        rw same refl
