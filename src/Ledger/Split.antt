-- ===== src/Ledger/Split.antt =====
-- How a block's value is split over the share window (src/ledger.c: `ident_side_work`, `pot_split`,
-- `split_window`). A `__int128` product of two uint64_t is the product of the numbers.
pub mod Pay
pub mod Pot
pub mod Paid
pub mod Whole
mod Examples
use c_datum_prime.Common.{[], ℕ, ◌+◌, ◌-◌, ◌*◌, ◌/◌, ◌^◌}
use c_datum_prime.Common.{Bool, true, false, ◌||◌, ◌==◌, ltb, leb, if◌then◌else◌}
use c_datum_prime.Common.{List, ◌∷◌, reverse, length, take}
use c_datum_prime.Wire.{u64, bytes_eq, bytes_le}
use c_datum_prime.Ledger.Types.{Text, IdentWork, copy_text, max_identity}

abbrev pub max_split_outputs : ℕ
max_split_outputs = 128

abbrev pub max_coinbaser_outputs : ℕ
max_coinbaser_outputs = 512

abbrev pub sv1_fee_bps : ℕ
sv1_fee_bps = 230

abbrev pub sv1_datum_rebate_bps : ℕ
sv1_datum_rebate_bps = 200

-- An entry of the parallel arrays `idents` and `amounts`.
pub record Payout : Type 0 where
  pub identity : Text
  pub amount : ℕ

-- a - b on a uint64_t.
abbrev pub sub64 : ℕ → ℕ → ℕ
sub64 a b = u64 (a + 2 ^ 64 - b)

unfoldable pub ident_side_work : IdentWork → Bool → ℕ
ident_side_work row true = if ltb row.work row.public_work then row.work else row.public_work
ident_side_work row false = if ltb row.public_work row.work then row.work - row.public_work else 0

-- The rows that have work on that side, with that work.
unfoldable pub side_rows : List IdentWork → Bool → List IdentWork
side_rows [] public_side = []
side_rows (k ∷ kept) public_side =
    let w : ℕ = ident_side_work k public_side in
    let rest = side_rows kept public_side in if w == 0 then rest else record k { work = w } ∷ rest

-- `cmp_ident_desc(x, y) <= 0`: more work first, then by name.
unfoldable pub comes_first : IdentWork → IdentWork → Bool
comes_first x y =
    if ltb x.work y.work
    then false
    else if ltb y.work x.work
    then true
    else bytes_le x.identity y.identity

-- `qsort` with `cmp_ident_desc`: rows that compare equal have the same work and name.
unfoldable pub insert_row : IdentWork → List IdentWork → List IdentWork
insert_row x [] = x ∷ []
insert_row x (y ∷ rows) = if comes_first x y then x ∷ (y ∷ rows) else y ∷ insert_row x rows

unfoldable pub sort_rows : List IdentWork → List IdentWork
sort_rows [] = []
sort_rows (x ∷ rows) = insert_row x (sort_rows rows)

-- for (i = 0; i < m; i++) work += row[i].work
unfoldable pub add_work : ℕ → List IdentWork → ℕ
add_work work [] = work
add_work work (r ∷ rows) = add_work (u64 (work + r.work)) rows

-- `(uint64_t)((unsigned __int128)pot * w / work)`
abbrev pub share : ℕ → ℕ → ℕ → ℕ
share pot w work = u64 (pot * w / work)

-- `while (m)`: the rows, the last one first, from which the last are dropped while their part of
-- the pot is below the minimum; what is left of them and of `work`.
unfoldable pub shed : ℕ → ℕ → ℕ → List IdentWork → ℕ × List IdentWork
shed pot min_payout work [] = (work, [])
shed pot min_payout work (r ∷ rows) =
    let rest = shed pot min_payout (sub64 work r.work) rows in
    if work == 0
    then (work, [])
    else if leb min_payout (share pot r.work work)
    then (work, r ∷ rows)
    else rest

-- The last loop of `pot_split`: each row takes its part of what is left.
unfoldable pub pay : ℕ → ℕ → List IdentWork → List Payout
pay left work [] = []
pay left work (r ∷ rows) =
    let amount : ℕ = share left r.work work in
    let rest = pay (sub64 left amount) (sub64 work r.work) rows in
    if work == 0
    then []
    else if amount == 0
    then rest
    else record { identity = copy_text max_identity r.identity; amount = amount } ∷ rest

-- The rows that `pot_split` pays from: sorted, at most `max_n`.
unfoldable pub ranked_rows : List IdentWork → Bool → ℕ → List IdentWork
ranked_rows kept public_side max_n = take max_n (sort_rows (side_rows kept public_side))

unfoldable pub pot_split : List IdentWork → Bool → ℕ → ℕ → ℕ → List Payout
pot_split kept public_side pot min_payout max_n =
    let rows = ranked_rows kept public_side max_n in
    let (work, last_first) = shed pot min_payout (add_work 0 rows) (reverse rows) in
    if pot == 0 then [] else pay pot work (reverse last_first)

unfoldable pub public_work_of : ℕ → List IdentWork → ℕ
public_work_of acc [] = acc
public_work_of acc (k ∷ kept) = public_work_of (u64 (acc + ident_side_work k true)) kept

-- `amounts[found] += pub_amt[i]`, or one more entry.
unfoldable pub credit : List Payout → Payout → List Payout
credit [] p = record p { identity = copy_text max_identity p.identity } ∷ []
credit (q ∷ out) p =
    if bytes_eq q.identity p.identity
    then record q { amount = u64 (q.amount + p.amount) } ∷ out
    else q ∷ credit out p

-- The loop over the public payouts, while there is room.
unfoldable pub merge_public : ℕ → List Payout → List Payout → List Payout
merge_public max_n out [] = out
merge_public max_n out (p ∷ public) =
    merge_public max_n (if ltb (length out) max_n then credit out p else out) public

-- The two pots of a value.
pub record Pots : Type 0 where
  pub datum_pot : ℕ
  pub pub_pot : ℕ

unfoldable pub pots_of : ℕ → ℕ → ℕ → ℕ → Pots
pots_of pub_w total value fee =
    let slice : ℕ = share value pub_w total in
    let slice_pub : ℕ = if ltb value slice then value else slice in
    let slice_dat : ℕ = sub64 value slice_pub in
    let datum_fee : ℕ = u64 (slice_dat * fee / 10000) in
    let pub_fee : ℕ = u64 (slice_pub * sv1_fee_bps / 10000) in
    let rebate : ℕ = u64 (slice_pub * sv1_datum_rebate_bps / 10000) in
    record {
      datum_pot = u64 (sub64 slice_dat datum_fee + rebate);
      pub_pot = sub64 slice_pub pub_fee;
    }

unfoldable pub cap_outputs : ℕ → ℕ
cap_outputs max_n =
    let capped : ℕ = if ltb max_split_outputs max_n then max_split_outputs else max_n in
    if ltb max_coinbaser_outputs capped then max_coinbaser_outputs else capped

unfoldable pub split_window : List IdentWork → ℕ → ℕ → ℕ → ℕ → ℕ → List Payout
split_window kept total value fee min_payout max_n =
    if length kept == 0 || total == 0 || max_n == 0
    then []
    else let pots = pots_of (public_work_of 0 kept) total value fee in
      let room : ℕ = cap_outputs max_n in
      merge_public room (take room (pot_split kept false pots.datum_pot min_payout room))
        (pot_split kept true pots.pub_pot min_payout room)
