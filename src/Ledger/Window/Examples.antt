-- ===== src/Ledger/Window/Examples.antt =====
-- A window of two shares that lie around the end of the array.
use c_datum_prime.Common.{ℕ, zero, suc, ◌≤◌, ◌<◌, min, ◌≡◌, refl, ap}
use c_datum_prime.Common.{true, false, ◌==◌, if◌then◌else◌}
use c_datum_prime.Common.{[], ◌∷◌, ◌++◌, length, drop, replicate}
use c_datum_prime.Common.{arith}
use c_datum_prime.Wire.{bytes_eq}
use c_datum_prime.Ledger.Types.{Text, ShareRow, IdentWork, max_idents}
use c_datum_prime.Ledger.Window.{Window, record_share, share_row}
use c_datum_prime.Ledger.Window.Ring.{IsValid, queue, rows_from, made_room}
use c_datum_prime.Ledger.Window.Trim.{IsTight, record_share_lem}
use c_datum_prime.Ledger.Window.Tally.{IsTallied, other_name}
use c_datum_prime.Ledger.Window.Runs.{record_all, record_all-IsTallied}
use c_datum_prime.Ledger.Window.Full.{IsShut, is_tabled, record_share-IsShut}

abbrev alice : Text
alice = b'a' ∷ []

abbrev bob : Text
bob = b'b' ∷ []

abbrev share_of : Text → ℕ → ShareRow
share_of name difficulty = record {
  at = 1700000000;
  difficulty = difficulty;
  hash = replicate 32 1;
  identity = name;
  tag = [];
}

abbrev two_shares : Window
two_shares = record {
  window = 100;
  have_window = true;
  total_work = 100;
  cumulative_work = 100;
  nshares = 2;
  share_head = 131071;
  shares = λ i. if i == 0 then share_of bob 60 else share_of alice 40;
  idents =
      record { identity = alice; work = 40; public_work = 0 }
      ∷ record { identity = bob; work = 60; public_work = 0 }
      ∷ [];
}

two_shares-IsValid : IsValid two_shares
unfolding rows_from
two_shares-IsValid = record {
  count = omega arith;
  head = omega arith;
  total = refl;
  range = omega arith;
}

two_shares-IsTallied : IsTallied two_shares
unfolding rows_from bytes_eq
two_shares-IsTallied name = ground (arith, other_name alice bob name refl)

record_share_lem_example :
    let (recorded, w') = record_share two_shares 1700000100 bob 50 (replicate 32 2) [] in
    (recorded ≡ true)
    × IsValid w'
    × ((k : ℕ) × (queue w'
          ≡ drop k (
              queue (made_room two_shares)
              ++ (share_row 1700000100 bob 50 (replicate 32 2) [] ∷ []))))
    × (0 < w'.nshares)
    × (min 100 150 ≤ w'.total_work)
    × IsTight w'
record_share_lem_example =
    record_share_lem two_shares 1700000100 bob 50 (replicate 32 2) [] two_shares-IsValid refl
      (omega arith) (omega arith)

record_all-IsTallied_example :
    IsTallied (record_all two_shares (share_of bob 50 ∷ share_of alice 70 ∷ []))
record_all-IsTallied_example =
    record_all-IsTallied two_shares (share_of bob 50 ∷ share_of alice 70 ∷ []) two_shares-IsValid
      two_shares-IsTallied refl (omega arith, (omega arith, tt)) (omega arith) (omega arith)

-- A table whose 4096 rows have no work any more.
abbrev gone : IdentWork
gone = record { identity = alice; work = 0; public_work = 0 }

replicate-missing : (n : ℕ) → is_tabled (replicate n gone) bob ≡ false
unfolding is_tabled bytes_eq
replicate-missing zero = refl
replicate-missing (suc n) = replicate-missing n

length-replicate : (n : ℕ) → length {A = IdentWork} (replicate n gone) ≡ n
length-replicate zero = refl
length-replicate (suc n) = ap suc (length-replicate n)

table-IsShut : IsShut bob (replicate max_idents gone)
table-IsShut = record {
  full = omega (arith, length-replicate max_idents);
  missing = replicate-missing max_idents;
}

abbrev full_window : Window
full_window = record {
  window = 100;
  have_window = true;
  total_work = 0;
  cumulative_work = 0;
  nshares = 0;
  share_head = 0;
  shares = λ i. share_of alice 0;
  idents = replicate max_idents gone;
}

record_share-IsShut_example :
    ((record_share full_window 1700000100 bob 50 (replicate 32 2) []).0 ≡ true)
    × IsShut bob (record_share full_window 1700000100 bob 50 (replicate 32 2) []).1.idents
record_share-IsShut_example =
    record_share-IsShut full_window 1700000100 bob 50 (replicate 32 2) [] table-IsShut (omega arith)
