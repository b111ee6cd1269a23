-- ===== src/Ledger/Split/Paid.antt =====
-- What `pot_split` pays out: all of the pot, to the ranked rows, at least the minimum to each.
use c_datum_prime.Common.{ℕ, ◌*◌, ◌/◌, ◌^◌, ◌≤◌, ◌<◌, ◌≡◌, refl, ◌⊎◌, inl, inr}
use c_datum_prime.Common.{Bool, false, ◌==◌, Bool-cases}
use c_datum_prime.Common.{List, [], ◌∷◌, All}
use c_datum_prime.Common.{arith}
use native.Mathlib.Nat.{le_trans}
use c_datum_prime.Ledger.Types.{IdentWork}
use c_datum_prime.Ledger.Split.{Payout, pay, pot_split}
use c_datum_prime.Ledger.Split.Pay.{
  sum_work, sum_paid, HasWork, sum_paid-pay, PaysRows, HasPart, pay-PaysRows,
}
use c_datum_prime.Ledger.Split.Pot.{funded_rows, funded, pot_split-pay}

-- The whole pot is paid, or nothing when there is no row.
pay_in_full :
    (pot : ℕ) (rows : List IdentWork)
    → pot < 2 ^ 64
    → sum_work rows < 2 ^ 64
    → All HasWork rows
    → sum_paid (pay pot (sum_work rows) rows) ≡ pot
      ⊎ ((rows ≡ []) × (pay pot (sum_work rows) rows ≡ []))
unfolding pay
pay_in_full pot [] hp hw pos = inr (refl, refl)
pay_in_full pot (r ∷ rows) hp hw pos = inl (sum_paid-pay pot r rows hp hw pos)

pay_no_work : (left : ℕ) (rows : List IdentWork) → pay left 0 rows ≡ []
unfolding pay
pay_no_work left [] = refl
pay_no_work left (r ∷ rows) = refl

rows_amounts :
    (pot whole min_payout : ℕ) (some_work : 0 < whole) (rows : List IdentWork) (ps : List Payout)
    → PaysRows pot whole some_work rows ps
    → All (λ x. min_payout ≤ pot * x.work / whole) rows
    → All (λ (p : Payout). min_payout ≤ p.amount) ps
rows_amounts pot whole min_payout some_work [] [] h p = tt
rows_amounts pot whole min_payout some_work [] (q ∷ ps) h p = elim h [ ]
rows_amounts pot whole min_payout some_work (r ∷ rows) [] h p = elim h [ ]
rows_amounts pot whole min_payout some_work (r ∷ rows) (q ∷ ps) h p =
    (le_trans p.0 h.1, rows_amounts pot whole min_payout some_work rows ps h.2 p.1)

rows_parts :
    (pot whole min_payout : ℕ) (some_work : 0 < whole) (rows : List IdentWork)
    → 1 ≤ min_payout
    → All (λ x. min_payout ≤ pot * x.work / whole) rows
    → All (λ x. HasPart pot whole some_work x) rows
rows_parts pot whole min_payout some_work [] h p = tt
rows_parts pot whole min_payout some_work (r ∷ rows) h p =
    (le_trans h p.0, rows_parts pot whole min_payout some_work rows h p.1)

module _ (kept : List IdentWork) (public_side : Bool) (pot min_payout max_n : ℕ) (hp : pot < 2 ^ 64)
    (hw : sum_work kept < 2 ^ 64) where
  abbrev rows : List IdentWork
  rows = funded_rows kept public_side pot min_payout max_n

  -- Where the pot and the work of the window fit in a uint64_t, `pot_split` pays out exactly the
  -- pot; only when the minimum leaves no row to be paid, it pays nothing.
  pub sum_paid-pot_split :
      sum_paid (pot_split kept public_side pot min_payout max_n) ≡ pot
      ⊎ ((rows ≡ []) × (pot_split kept public_side pot min_payout max_n ≡ []))
  sum_paid-pot_split =
      let k = funded kept public_side pot min_payout max_n hp hw in
      let exact = pot_split-pay kept public_side pot min_payout max_n hp hw in
      elim (Bool-cases (pot == 0)) [
        | inl none_left ↦ inl (rw (exact, none_left) (ground arith))
        | inr some_left ↦ rw (exact, some_left) (pay_in_full pot rows hp k.range k.positive)
      ]

  -- Where the pot and the work of the window fit in a uint64_t, the pot is not 0, the minimum is at
  -- least 1 and some row has work left: the payouts go to the rows that the minimum leaves, one each,
  -- in rank order, and each is at least the row's part of the pot by work, rounded down.
  pub pot_split-PaysRows :
      1 ≤ min_payout
      → 0 < pot
      → (some_work : 0 < sum_work rows)
      → PaysRows pot
          (sum_work rows)
          some_work
          rows
          (pot_split kept public_side pot min_payout max_n)
  pot_split-PaysRows least some_pot some_work =
      let k = funded kept public_side pot min_payout max_n hp hw in
      let some_left : (pot == 0) ≡ false = ground arith in
      rw (pot_split-pay kept public_side pot min_payout max_n hp hw, some_left)
        (pay-PaysRows pot (sum_work rows) some_work pot rows hp k.range (omega arith) k.positive
          (rows_parts pot (sum_work rows) min_payout some_work rows least k.parts))

  -- Where the pot and the work of the window fit in a uint64_t and the minimum is at least 1, no
  -- payout of `pot_split` is below the minimum.
  pub pot_split-amounts :
      1 ≤ min_payout
      → All
          (λ (p : Payout). min_payout ≤ p.amount)
          (pot_split kept public_side pot min_payout max_n)
  pot_split-amounts least =
      let k = funded kept public_side pot min_payout max_n hp hw in
      let exact = pot_split-pay kept public_side pot min_payout max_n hp hw in
      elim (Bool-cases (pot == 0)) [
        | inl none_left ↦ rw (exact, none_left) tt
        | inr some_left ↦
            let some_pot : 0 < pot = ground arith in
            elim (Bool-cases (sum_work rows == 0)) [
              | inl no_work ↦
                  let none : sum_work rows ≡ 0 = ground arith in
                  rw (exact, some_left, none, pay_no_work pot rows) tt
              | inr work ↦
                  let some_work : 0 < sum_work rows = ground arith in
                  rows_amounts pot (sum_work rows) min_payout some_work rows
                    (pot_split kept public_side pot min_payout max_n)
                    (pot_split-PaysRows least some_pot some_work) k.parts
            ]
      ]
