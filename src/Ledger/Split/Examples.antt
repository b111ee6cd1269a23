-- ===== src/Ledger/Split/Examples.antt =====
-- A block's value split over a window of three miners.
use c_datum_prime.Common.{ℕ, ◌≤◌, ◌≡◌, refl, ◌⊎◌}
use c_datum_prime.Common.{false}
use c_datum_prime.Common.{List, [], ◌∷◌}
use c_datum_prime.Common.{arith}
use c_datum_prime.Ledger.Types.{Text, IdentWork}
use c_datum_prime.Ledger.Split.{
  Payout, pot_split, split_window, cap_outputs, merge_public, pots_of, public_work_of, ranked_rows,
  side_rows, ident_side_work, sort_rows, insert_row, comes_first, shed, pay, add_work, credit,
}
use c_datum_prime.Wire.{bytes_eq, bytes_le}
use c_datum_prime.Ledger.Split.Pay.{sum_paid, PaysRows}
use c_datum_prime.Ledger.Split.Pot.{funded_rows, ranked}
use c_datum_prime.Ledger.Split.Paid.{sum_paid-pot_split, pot_split-PaysRows}
use c_datum_prime.Ledger.Split.Whole.{sum_paid-split_window}

abbrev miner : ℕ → ℕ → ℕ → IdentWork
miner name work public_work = record {
  identity = name ∷ [];
  work = work;
  public_work = public_work;
}

-- One miner on the private side, one on the public side and one on both.
abbrev window : List IdentWork
window = miner b'a' 600 0 ∷ miner b'b' 300 300 ∷ miner b'c' 100 50 ∷ []

abbrev paid : Text → ℕ → Payout
paid name amount = record { identity = name; amount = amount }

window_split :
    split_window window 1000 100000 100 1000 16
    ≡ paid (b'a' ∷ []) 60046 ∷ paid (b'c' ∷ []) 9889 ∷ paid (b'b' ∷ []) 29310 ∷ []
unfolding split_window cap_outputs merge_public pots_of public_work_of pot_split ranked_rows
    side_rows ident_side_work sort_rows insert_row comes_first shed pay add_work credit bytes_eq
    bytes_le
window_split = refl

sum_paid-split_window_example : sum_paid (split_window window 1000 100000 100 1000 16) ≤ 100000
sum_paid-split_window_example =
    sum_paid-split_window window 1000 100000 100 1000 16 (omega arith) (omega arith) (omega arith)

sum_paid-pot_split_example :
    (sum_paid (pot_split window false 65000 5000 16) ≡ 65000)
    ⊎ ((funded_rows window false 65000 5000 16 ≡ []) × (pot_split window false 65000 5000 16 ≡ []))
sum_paid-pot_split_example =
    sum_paid-pot_split window false 65000 5000 16 (omega arith) (omega arith)

pot_split-PaysRows_example :
    PaysRows 65000 650
      (omega arith)
      (miner b'a' 600 0 ∷ miner b'c' 50 50 ∷ [])
      (pot_split window false 65000 5000 16)
unfolding funded_rows ranked ranked_rows side_rows ident_side_work sort_rows insert_row comes_first
    shed add_work
pot_split-PaysRows_example =
    pot_split-PaysRows window false 65000 5000 16 (omega arith) (omega arith) (omega arith)
      (omega arith) (omega arith)
