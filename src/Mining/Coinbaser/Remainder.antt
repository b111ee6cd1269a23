-- ===== src/Mining/Coinbaser/Remainder.antt =====
-- The outputs that a coinbaser's message asks for pay the whole value.
use c_datum_prime.Common.{ℕ, ◌+◌, ◌-◌, ◌^◌, ◌≤◌, ◌<◌, ◌≡◌, refl, ◌⊎◌, inl, inr}
use c_datum_prime.Common.{false, ◌&&◌, ◌||◌, ◌==◌, ltb, leb, Bool-cases, Option-cases, Option, some}
use c_datum_prime.Common.{List, [], ◌∷◌, ◌++◌, length}
use c_datum_prime.Common.{length-append, arith}
use c_datum_prime.Wire.{u64}
use c_datum_prime.Ledger.Types.{Text}
use c_datum_prime.Ledger.Split.{Payout, max_split_outputs}
use c_datum_prime.Ledger.Split.Pay.{sum_work, sum_paid}
use c_datum_prime.Ledger.Pool.{Pool, pool_split}
use c_datum_prime.Ledger.Pool.Credit.{pool_split_le}
use c_datum_prime.Mining.{Output}
use c_datum_prime.Mining.Coinbaser.{
  payable_outputs, add_values, add_first, with_remainder, coinbaser_outputs,
}

abbrev pub sum_values : List Output → ℕ
sum_values [] = 0
sum_values (o ∷ outputs) = o.value + sum_values outputs

sum_values-append : (xs ys : List Output) → sum_values (xs ++ ys) ≡ sum_values xs + sum_values ys
sum_values-append [] ys = omega arith
sum_values-append (x ∷ xs) ys = omega (arith, sum_values-append xs ys)

add_values-sum_values :
    (paid : ℕ) (outputs : List Output)
    → paid + sum_values outputs < 2 ^ 64
    → add_values paid outputs ≡ paid + sum_values outputs
unfolding add_values
add_values-sum_values paid [] fits = omega arith
add_values-sum_values paid (o ∷ outputs) fits =
    let one : u64 (paid + o.value) ≡ paid + o.value = omega (arith, fits) in
    rw one (omega (arith, add_values-sum_values (paid + o.value) outputs (omega arith)))

-- Only the payouts with an address are taken.
payable_outputs_le :
    (address_script : Text → Option (List ℕ)) (payouts : List Payout)
    → (sum_values (payable_outputs address_script payouts) ≤ sum_paid payouts)
      × (length (payable_outputs address_script payouts) ≤ length payouts)
unfolding payable_outputs
payable_outputs_le address_script [] = (omega arith, omega arith)
payable_outputs_le address_script (a ∷ payouts) =
    let (sum, few) = payable_outputs_le address_script payouts in
    elim (Option-cases (address_script a.identity)) [
      | inl bad ↦ rw (bad, payable_outputs) (omega (arith, sum), omega (arith, few))
      | inr (script, good) ↦ rw (good, payable_outputs) (omega (arith, sum), omega (arith, few))
    ]

-- The value of the first output, with the remainder.
add_first_lem :
    (rem : ℕ) (outputs : List Output)
    → 0 < length outputs
    → rem + sum_values outputs < 2 ^ 64
    → (sum_values (add_first rem outputs) ≡ rem + sum_values outputs)
      × (length (add_first rem outputs) ≡ length outputs)
unfolding add_first
add_first_lem rem [] some_there fits = absurd (omega arith)
add_first_lem rem (o ∷ outputs) some_there fits = (omega arith, refl)

no_values : (outputs : List Output) → length outputs ≡ 0 → sum_values outputs ≡ 0
no_values [] h = refl
no_values (o ∷ outputs) h = absurd (omega arith)

-- With a script for the pool, and a miner's output or a value that is worth an output.
with_remainder_lem :
    (value : ℕ) (payout_script : List ℕ) (outputs : List Output)
    → value < 2 ^ 64
    → 2 ≤ length payout_script
    → length payout_script ≤ 64
    → sum_values outputs ≤ value
    → length outputs ≤ max_split_outputs
    → (0 < length outputs) ⊎ (546 ≤ value)
    → (sum_values (with_remainder value payout_script outputs) ≡ value)
      × (length (with_remainder value payout_script outputs) ≤ max_split_outputs)
unfolding with_remainder
with_remainder_lem value payout_script outputs hv lo hi paid few worth =
    let sum : add_values 0 outputs ≡ sum_values outputs =
      omega (arith, add_values-sum_values 0 outputs (omega arith)) in
    let script : (ltb (length payout_script) 2 || ltb 64 (length payout_script)) ≡ false =
      ground arith in
    let rem : ℕ = value - sum_values outputs in
    let pool : Output = record { value = rem; script = payout_script } in
    elim (Bool-cases (rem == 0)) [
      | inl nothing ↦ rw (sum, nothing) (ground arith, few)
      | inr left ↦ elim (Bool-cases (leb 546 rem && ltb (length outputs) max_split_outputs)) [
        | inl room ↦
            rw (sum, left, script, room)
              (
                omega (arith, sum_values-append outputs (pool ∷ [])),
                ground (arith, length-append outputs (pool ∷ [])),
              )
        | inr full ↦
            let some_there : 0 < length outputs = elim worth [
              | inl some_there ↦ some_there
              | inr much ↦ elim (Bool-cases (length outputs == 0)) [
                | inl none_there ↦ absurd (ground (arith, no_values outputs (ground arith)))
                | inr some_there ↦ ground arith
              ]
            ] in
            let (more, same) = add_first_lem rem outputs some_there (omega arith) in
            rw (sum, left, script, full) (omega (arith, more), omega (arith, same))
      ]
    ]

module _ (address_script : Text → Option (List ℕ)) (p : Pool) (value : ℕ) (payout_script : List ℕ)
    (hv : value < 2 ^ 64) (hw : sum_work p.window.idents < 2 ^ 64) (hf : p.fee_bps ≤ 10000) where
  -- Where the value and the work of the window fit in a uint64_t, the fee is at most 10000 basis points,
  -- the pool's script has 2 to 64 bytes, and the value is at least 546, the outputs that `on_coinbaser`
  -- asks for are at most 128 and pay exactly the value, whichever identities have an address.
  pub sum_values-coinbaser_outputs :
      2 ≤ length payout_script
      → length payout_script ≤ 64
      → 546 ≤ value
      → let outputs = (coinbaser_outputs address_script (some p) value payout_script).1 in
        (sum_values outputs ≡ value) × (length outputs ≤ max_split_outputs)
  unfolding coinbaser_outputs
  sum_values-coinbaser_outputs lo hi worth =
      let split = pool_split p value max_split_outputs in
      let (paid, few) = pool_split_le p value hv hw hf in
      let (sum, kept) = payable_outputs_le address_script split in
      with_remainder_lem value payout_script (payable_outputs address_script split) hv lo hi
        (omega (arith, paid, sum)) (omega (arith, few, kept)) (inr worth)
