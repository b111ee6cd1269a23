-- ===== src/Ledger/Pool/Credit.antt =====
-- What a block that the node accepted leaves in the books.
use c_datum_prime.Common.{ℕ, zero, suc, ◌+◌, ◌^◌, ◌≤◌, ◌<◌, ◌≡◌, refl, ap, ◌⊎◌, inl, inr}
use c_datum_prime.Common.{false, ◌==◌, if◌then◌else◌, Bool-cases}
use c_datum_prime.Common.{List, [], ◌∷◌, ◌++◌, length, take, drop}
use c_datum_prime.Common.{arith}
use c_datum_prime.Wire.{u64}
use c_datum_prime.Ledger.Types.{Text, IdentWork, max_idents}
use c_datum_prime.Ledger.Split.{Payout, max_split_outputs}
use c_datum_prime.Ledger.Split.Pay.{sum_work, sum_paid}
use c_datum_prime.Ledger.Split.Whole.{sum_paid-split_window, length-split_window}
use c_datum_prime.Ledger.Owed.{has_owed, max_owed, owed_row}
use c_datum_prime.Ledger.Owed.Record.{sum_owed, record_owed_lem}
use c_datum_prime.Ledger.Pool.{
  Pool, terms_of, pool_split, record_block, add_paid, credit_accepted_split,
}

-- The sum of the loop, while it fits.
add_paid-sum_paid :
    (paid : ℕ) (ps : List Payout)
    → paid + sum_paid ps < 2 ^ 64
    → add_paid paid ps ≡ paid + sum_paid ps
unfolding add_paid
add_paid-sum_paid paid [] fits = omega arith
add_paid-sum_paid paid (a ∷ ps) fits =
    let one : u64 (paid + a.amount) ≡ paid + a.amount = omega (arith, fits) in
    rw one (omega (arith, add_paid-sum_paid (paid + a.amount) ps (omega arith)))

sum_work-take : (n : ℕ) (rows : List IdentWork) → sum_work (take n rows) ≤ sum_work rows
sum_work-take zero rows = omega arith
sum_work-take (suc n) [] = omega arith
sum_work-take (suc n) (r ∷ rows) = omega (arith, sum_work-take n rows)

module _ (p : Pool) (value : ℕ) (hv : value < 2 ^ 64) (hw : sum_work p.window.idents < 2 ^ 64)
    (hf : p.fee_bps ≤ 10000) where
  pub pool_split_le :
      (sum_paid (pool_split p value max_split_outputs) ≤ value)
      × (length (pool_split p value max_split_outputs) ≤ max_split_outputs)
  unfolding pool_split
  pool_split_le =
      let kept = take max_idents p.window.idents in
      let paid =
        sum_paid-split_window kept p.window.total_work value p.fee_bps p.min_payout
          max_split_outputs hv (omega (arith, sum_work-take max_idents p.window.idents)) hf in
      let few =
        length-split_window kept p.window.total_work value p.fee_bps p.min_payout
          max_split_outputs in
      elim (Bool-cases (p.window.total_work == 0)) [
        | inl none_there ↦ rw none_there (omega arith, omega arith)
        | inr some_there ↦ rw some_there (paid, omega (arith, few))
      ]

  -- Where the value and the work of the window fit in a uint64_t, the fee is at most 10000 basis points,
  -- and the book has at most 256 rows and none for the block: when the split of the value has no
  -- payouts the book of what is owed stays, else it has one more row at its end, for which the oldest
  -- makes room when there are 256, which owes in all what the split's payouts are together, as its total
  -- says, and no more than the value. Either way one more block is found.
  pub credit_accepted_split_lem :
      (now height : ℕ) (hash : List ℕ) (finder : Text)
      → has_owed p.owed hash ≡ false
      → length p.owed ≤ max_owed
      → let split = pool_split p value max_split_outputs in
        let row = owed_row (terms_of p now) height hash finder (sum_paid split) split in
        let p' = credit_accepted_split p now height hash finder value in
        (((split ≡ []) × (p'.owed ≡ p.owed))
          ⊎ ((p'.owed ≡ (if length p.owed == max_owed then drop 1 p.owed else p.owed) ++ (row ∷ []))
              × (sum_owed row.ents ≡ row.total)
              × (row.total ≤ value)))
        × (p'.blocks_found ≡ u64 (p.blocks_found + 1))
  unfolding credit_accepted_split record_block owed_row
  credit_accepted_split_lem now height hash finder missing size =
      let split = pool_split p value max_split_outputs in
      let (paid, few) = pool_split_le in
      let sum : add_paid 0 split ≡ sum_paid split =
        omega (arith, add_paid-sum_paid 0 split (omega arith)) in
      elim (Bool-cases (length split == 0)) [
        | inl empty ↦ rw (empty, sum) (inl (length-nil split (ground arith), refl), refl)
        | inr some_there ↦
            let (book, owed, most, room) =
              record_owed_lem (terms_of p now) p.owed height hash finder (sum_paid split) split
                (ground arith) few missing size in
            rw (some_there, sum) (inr (ap (λ r. r.1) book, owed, paid), refl)
      ]
    where
      length-nil : (ps : List Payout) → length ps ≡ 0 → ps ≡ []
      length-nil [] h = refl
      length-nil (a ∷ ps) h = absurd (omega arith)
