-- ===== src/Ledger/Split/Pay.antt =====
-- The loop of `pot_split` that pays: what it hands out, and at least how much to each row.
use c_datum_prime.Common.{ℕ, ◌+◌, ◌-◌, ◌*◌, ◌/◌, ◌^◌, ◌≤◌, ◌<◌, ◌≡◌, refl, ◌∙◌}
use c_datum_prime.Common.{false, ◌==◌, if◌then◌else◌}
use c_datum_prime.Common.{List, [], ◌∷◌, All}
use c_datum_prime.Common.{arith, add-zero}
use native.Mathlib.Nat.{
  div-le_of_le-mul, mul-div_left, le-div_iff_mul-le, div-mul-le_self, mul-le-mul_left,
  mul-le-mul_right, le_of_mul-le-mul_right, mul_comm,
}
use c_datum_prime.Wire.{u64}
use c_datum_prime.Ledger.Types.{IdentWork, copy_text, max_identity}
use c_datum_prime.Ledger.Split.{Payout, share, sub64, pay, add_work}

-- The work of all rows, and the sum that is paid.
abbrev pub sum_work : List IdentWork → ℕ
sum_work [] = 0
sum_work (r ∷ rows) = r.work + sum_work rows

abbrev pub sum_paid : List Payout → ℕ
sum_paid [] = 0
sum_paid (p ∷ ps) = p.amount + sum_paid ps

abbrev pub HasWork : IdentWork → Type 0
HasWork r = 0 < r.work

-- Without overflow the sum in a uint64_t is the sum.
pub add_work-eq-sum_work :
    (acc : ℕ) (rows : List IdentWork)
    → acc + sum_work rows < 2 ^ 64
    → add_work acc rows ≡ acc + sum_work rows
unfolding add_work
add_work-eq-sum_work acc [] h = omega arith
add_work-eq-sum_work acc (r ∷ rows) h =
    let fits : u64 (acc + r.work) ≡ acc + r.work = omega arith in
    rw fits (omega (arith, add_work-eq-sum_work (acc + r.work) rows (omega arith)))

-- A part of the pot is at most the pot, and is not cut off by the cast.
pub share_lem :
    (pot w work : ℕ)
    → pot < 2 ^ 64
    → w ≤ work
    → (share pot w work ≡ pot * w / work) × (share pot w work ≤ pot)
share_lem pot w work hp hw =
    let most : pot * w / work ≤ pot =
      div-le_of_le-mul work (omega (arith, mul-le-mul_left pot hw, mul_comm pot work)) in
    omega (arith, most)

share_all : (pot w : ℕ) → pot < 2 ^ 64 → 0 < w → share pot w w ≡ pot
share_all pot w hp hw = omega (arith, mul-div_left pot hw)

-- One round of the loop, in plain numbers.
pay_step :
    (left work : ℕ) (r : IdentWork) (rows : List IdentWork)
    → left < 2 ^ 64
    → work < 2 ^ 64
    → r.work ≤ work
    → sum_paid (pay left work (r ∷ rows)) ≡ (
        if work == 0
        then 0
        else share left r.work work
          + sum_paid (pay (left - share left r.work work) (work - r.work) rows))
unfolding pay
pay_step left work r rows hl hw hr =
    let fits = (share_lem left r.work work hl hr).1 in
    let l : sub64 left (share left r.work work) ≡ left - share left r.work work = omega arith in
    let w : sub64 work r.work ≡ work - r.work = omega arith in rw (l, w) (ground arith)

-- The loop hands out the whole pot: the last row takes what is left.
pub sum_paid-pay :
    (left : ℕ) (r : IdentWork) (rows : List IdentWork)
    → left < 2 ^ 64
    → sum_work (r ∷ rows) < 2 ^ 64
    → All HasWork (r ∷ rows)
    → sum_paid (pay left (sum_work (r ∷ rows)) (r ∷ rows)) ≡ left
sum_paid-pay left r [] hl hw pos =
    pay_step left (r.work + 0) r [] hl hw (omega arith)
    ∙ rw (add-zero r.work, share_all left r.work hl pos.0) (unfold pay in ground arith)
sum_paid-pay left r (q ∷ rows) hl hw pos =
    let work = sum_work (r ∷ q ∷ rows) in
    let fits = (share_lem left r.work work hl (omega arith)).1 in
    let rest : work - r.work ≡ sum_work (q ∷ rows) = omega arith in
    let ih =
      sum_paid-pay (left - share left r.work work) q rows (omega arith) (omega arith) pos.1 in
    pay_step left work r (q ∷ rows) hl hw (omega arith) ∙ rw (rest, ih) (ground (arith, fits))

-- What is left of the pot is never less, for the work that is left, than at the start.
module _ (pot whole : ℕ) (some_work : 0 < whole) where
  rest_ratio :
      (rest_left a w d : ℕ)
      → 0 < w + d
      → pot * (w + d) ≤ (rest_left + a) * whole
      → a * (w + d) ≤ (rest_left + a) * w
      → pot * d ≤ rest_left * whole
  rest_ratio rest_left a w d pos ratio part =
      let small : a * d ≤ rest_left * w = omega arith in
      le_of_mul-le-mul_right (omega (arith, mul-le-mul_right d ratio, mul-le-mul_right whole small))
        pos

  part_ratio :
      (left w work : ℕ) → 0 < work → pot * work ≤ left * whole → pot * w / whole ≤ left * w / work
  part_ratio left w work pos ratio =
      let q : ℕ = pot * w / whole in
      let floor = div-mul-le_self (pot * w) whole in
      (le-div_iff_mul-le pos).1 (
        le_of_mul-le-mul_right
          (omega (arith, mul-le-mul_right work floor, mul-le-mul_right w ratio)) some_work)

  -- The payouts go to the rows, in order, and each is at least the row's part of the pot.
  abbrev pub PaysRows : List IdentWork → List Payout → Type 0
  PaysRows [] [] = Unit
  PaysRows [] (p ∷ ps) = ⊥
  PaysRows (r ∷ rows) [] = ⊥
  PaysRows (r ∷ rows) (p ∷ ps) =
      (p.identity ≡ copy_text max_identity r.identity)
      × (pot * r.work / whole ≤ p.amount)
      × PaysRows rows ps

  abbrev pub HasPart : IdentWork → Type 0
  HasPart r = 1 ≤ pot * r.work / whole

  pub pay-PaysRows :
      (left : ℕ) (rows : List IdentWork)
      → left < 2 ^ 64
      → sum_work rows < 2 ^ 64
      → pot * sum_work rows ≤ left * whole
      → All HasWork rows
      → All HasPart rows
      → PaysRows rows (pay left (sum_work rows) rows)
  unfolding pay
  pay-PaysRows left [] hl hw ratio pos parts = tt
  pay-PaysRows left (r ∷ rows) hl hw ratio pos parts =
      let work = sum_work (r ∷ rows) in
      let a : ℕ = left * r.work / work in
      let (exact, fits) = share_lem left r.work work hl (omega arith) in
      let least = part_ratio left r.work work (omega arith) ratio in
      let l : sub64 left (share left r.work work) ≡ left - a = omega (arith, exact, fits) in
      let w : sub64 work r.work ≡ sum_work rows = omega arith in
      let back : left - a + a ≡ left = omega (arith, exact, fits) in
      let ratio' =
        rest_ratio (left - a) a r.work (sum_work rows) (omega arith) (rw back ratio)
          (rw back (div-mul-le_self (left * r.work) work)) in
      let ih = pay-PaysRows (left - a) rows (omega arith) (omega arith) ratio' pos.1 parts.1 in
      let some_left : (work == 0) ≡ false = ground arith in
      let some_paid : (share left r.work work == 0) ≡ false =
        ground (arith, exact, least, parts.0) in
      rw (some_left, some_paid, l, w) (refl, omega (arith, exact, least), ih)
