-- ===== src/Ledger/Split/Whole.antt =====
-- `split_window`: both pots together, and how many outputs they take.
use c_datum_prime.Common.{ℕ, zero, suc, ◌+◌, ◌-◌, ◌*◌, ◌/◌, ◌^◌, ◌≤◌, ◌<◌, min, ◌≡◌, inl, inr}
use c_datum_prime.Common.{Bool, true, false, ltb, if◌then◌else◌, Bool-cases}
use c_datum_prime.Common.{List, [], ◌∷◌, length, take}
use c_datum_prime.Common.{length-take, arith}
use native.Mathlib.Nat.{div-le_of_le-mul, mul-le-mul_left, mul_comm}
use c_datum_prime.Ledger.Types.{IdentWork}
use c_datum_prime.Ledger.Split.{
  Payout, share, sub64, pot_split, pots_of, credit, merge_public, cap_outputs, split_window,
  public_work_of, sv1_fee_bps, sv1_datum_rebate_bps, max_split_outputs,
}
use c_datum_prime.Ledger.Split.Pay.{sum_work, sum_paid}
use c_datum_prime.Ledger.Split.Paid.{sum_paid-pot_split}

fee_le : (amount bps : ℕ) → bps ≤ 10000 → amount * bps / 10000 ≤ amount
fee_le amount bps h =
    div-le_of_le-mul 10000 (omega (arith, mul-le-mul_left amount h, mul_comm amount 10000))

rebate_le : (amount : ℕ) → amount * sv1_datum_rebate_bps / 10000 ≤ amount * sv1_fee_bps / 10000
rebate_le amount = omega arith

-- The two pots hold no more than the value that is split.
pub pots_of-le :
    (pub_w total value fee : ℕ)
    → value < 2 ^ 64
    → fee ≤ 10000
    → (pots_of pub_w total value fee).datum_pot + (pots_of pub_w total value fee).pub_pot ≤ value
unfolding pots_of
pots_of-le pub_w total value fee hv hf =
    let slice : ℕ = share value pub_w total in
    let slice_pub : ℕ = if ltb value slice then value else slice in
    let le : slice_pub ≤ value = ground arith in
    let back : sub64 value slice_pub ≡ value - slice_pub = omega arith in
    rw back (
      omega (
        arith,
        le,
        fee_le (value - slice_pub) fee hf,
        fee_le slice_pub sv1_fee_bps (omega arith),
        rebate_le slice_pub,
      ))

sum_paid-take : (n : ℕ) (ps : List Payout) → sum_paid (take n ps) ≤ sum_paid ps
sum_paid-take zero ps = omega arith
sum_paid-take (suc n) [] = omega arith
sum_paid-take (suc n) (p ∷ ps) = omega (arith, sum_paid-take n ps)

sum_paid-credit :
    (out : List Payout) (p : Payout) → sum_paid (credit out p) ≤ sum_paid out + p.amount
unfolding credit
sum_paid-credit [] p = omega arith
sum_paid-credit (q ∷ out) p = ground (arith, sum_paid-credit out p)

length-credit : (out : List Payout) (p : Payout) → length (credit out p) ≤ suc (length out)
unfolding credit
length-credit [] p = omega arith
length-credit (q ∷ out) p = ground (arith, length-credit out p)

sum_paid-merge_public :
    (n : ℕ) (out ps : List Payout) → sum_paid (merge_public n out ps) ≤ sum_paid out + sum_paid ps
unfolding merge_public
sum_paid-merge_public n out [] = omega arith
sum_paid-merge_public n out (p ∷ ps) = elim (Bool-cases (ltb (length out) n)) [
  | inl room ↦
      rw room (omega (arith, sum_paid-merge_public n (credit out p) ps, sum_paid-credit out p))
  | inr full ↦ rw full (omega (arith, sum_paid-merge_public n out ps))
]

length-merge_public :
    (n : ℕ) (out ps : List Payout) → length out ≤ n → length (merge_public n out ps) ≤ n
unfolding merge_public
length-merge_public n out [] h = h
length-merge_public n out (p ∷ ps) h = elim (Bool-cases (ltb (length out) n)) [
  | inl room ↦ rw room (
      length-merge_public n (credit out p) ps
        (let less : length out < n = ground arith in omega (arith, length-credit out p)))
  | inr full ↦ rw full (length-merge_public n out ps h)
]

pot_split-le :
    (kept : List IdentWork) (public_side : Bool) (pot min_payout max_n : ℕ)
    → pot < 2 ^ 64
    → sum_work kept < 2 ^ 64
    → sum_paid (pot_split kept public_side pot min_payout max_n) ≤ pot
pot_split-le kept public_side pot min_payout max_n hp hw =
    elim (sum_paid-pot_split kept public_side pot min_payout max_n hp hw) [
      | inl all ↦ omega arith
      | inr none_paid ↦ rw (none_paid.1) (omega arith)
    ]

-- What `split_window` pays is together at most the value, where the value and the work of the window
-- fit in a uint64_t and the fee is at most 10000 basis points.
pub sum_paid-split_window :
    (kept : List IdentWork) (total value fee min_payout max_n : ℕ)
    → value < 2 ^ 64
    → sum_work kept < 2 ^ 64
    → fee ≤ 10000
    → sum_paid (split_window kept total value fee min_payout max_n) ≤ value
unfolding split_window
sum_paid-split_window kept total value fee min_payout max_n hv hw hf =
    let pots = pots_of (public_work_of 0 kept) total value fee in
    let room : ℕ = cap_outputs max_n in
    let datum = pot_split kept false pots.datum_pot min_payout room in
    let public = pot_split kept true pots.pub_pot min_payout room in
    let le = pots_of-le (public_work_of 0 kept) total value fee hv hf in
    let most : sum_paid (merge_public room (take room datum) public) ≤ value = omega (
      arith,
      sum_paid-merge_public room (take room datum) public,
      sum_paid-take room datum,
      pot_split-le kept false pots.datum_pot min_payout room (omega arith) hw,
      pot_split-le kept true pots.pub_pot min_payout room (omega arith) hw,
    ) in
    ground (arith, most)

-- `split_window` gives at most as many outputs as the caller asks for, and at most 128.
pub length-split_window :
    (kept : List IdentWork) (total value fee min_payout max_n : ℕ)
    → length (split_window kept total value fee min_payout max_n) ≤ min max_n max_split_outputs
unfolding split_window cap_outputs
length-split_window kept total value fee min_payout max_n =
    let pots = pots_of (public_work_of 0 kept) total value fee in
    let room : ℕ = cap_outputs max_n in
    let datum = pot_split kept false pots.datum_pot min_payout room in
    let public = pot_split kept true pots.pub_pot min_payout room in
    let most =
      length-merge_public room (take room datum) public
        (rw (length-take room datum) (omega arith)) in
    let small : room ≤ min max_n max_split_outputs = ground arith in ground (arith, most, small)
