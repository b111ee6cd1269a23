-- ===== src/Cap/Examples.antt =====
-- Runs of the cap at concrete inputs. A `double` is a number of hundredths here.
use c_datum_prime.Common.{ℕ, zero, suc, ◌+◌, ◌*◌, ◌-◌, ◌/◌, ◌≡◌, ◌↔◌, ◌≤◌, ◌⊎◌, refl, ap}
use c_datum_prime.Common.{
  Bool, true, false, ltb, leb, ◌==◌, ◌||◌, if◌then◌else◌, Option, none, some,
}
use c_datum_prime.Common.{List, [], ◌∷◌, ◌++◌, length, map, take, get_elem?}
use c_datum_prime.Common.{arith}
use c_datum_prime.Wire.{bytes_eq}
use c_datum_prime.Ledger.Types.{Text, ShareRow, sv1_tag, share_tag_is_sv1}
use c_datum_prime.Ledger.Window.{Window}
use c_datum_prime.Ledger.Window.Ring.{rows_from, queue, sum_difficulty, IsValid}
use c_datum_prime.Ledger.Window.Since.{work_since, since_loop, count_row, recent, public}
use c_datum_prime.Cap.{
  Doubles, CapClient, Reading, Snap, cap_policy, refresh_snap, with_work, node_snap, lookback,
  work_to_hashrate_hs,
}
use c_datum_prime.Cap.Thread.{
  shed_clients, budget_of, sum_hs, Gateway, Action, accept, kill, cmp_newest, note_connected,
  CapThread, enforce, kick_loop, connected, tick,
}
use c_datum_prime.Cap.Admission.{admit_after, WasShut, admit_after_iff}
use c_datum_prime.Cap.Kick.{IsNewestFirst, IsNeeded, live_after, kick_loop_lem}
use c_datum_prime.Cap.Ticks.{tick-steady}
use c_datum_prime.Cap.Shed.{IsSilent, IsTold, IsShed, tick_lem}
use c_datum_prime.Cap.Measure.{refresh_snap_lem}
use c_datum_prime.Cap.Command.{password_key, gw_body, inner, read_string, printable, gw_body_lem}

abbrev fixed : Doubles ℕ
fixed = record {
  gt = λ a b. ltb b a;
  le = leb;
  add = λ a b. a + b;
  sub = λ a b. a - b;
  mul = λ a b. a * b / 100;
  div = λ a b. a * 100 / b;
  of_u64 = λ n. 100 * n;
  hundredths = λ n. n;
}

-- Above the cap, then between the fractions.
abbrev two_ticks : List (ℕ × ℕ)
two_ticks = (26, 1) ∷ (23, 1) ∷ []

admit_after_iff_example : (admit_after fixed true two_ticks ≡ false) ↔ WasShut fixed two_ticks
admit_after_iff_example = admit_after_iff fixed two_ticks

abbrev client : ℕ → ℕ → CapClient ℕ
client at hs = record { tid = 1; cid = at; connect_tsms = at; unique_id = at; hs = hs }

abbrev some_or : CapClient ℕ → Option (CapClient ℕ) → CapClient ℕ
some_or c none = c
some_or c (some x) = x

abbrev two_clients : List (CapClient ℕ)
two_clients = client 9 500 ∷ client 4 700 ∷ []

two_clients-IsNewestFirst : IsNewestFirst two_clients
unfolding cmp_newest
two_clients-IsNewestFirst zero zero x y lt at_i at_j = absurd (omega arith)
two_clients-IsNewestFirst zero (suc zero) x y lt at_i at_j =
    let first = ap (some_or (client 0 0)) at_i in
    let second = ap (some_or (client 0 0)) at_j in rw (← first, ← second) (λ e. ground arith)
two_clients-IsNewestFirst zero (suc (suc j)) x y lt at_i at_j = absurd (ground arith)
two_clients-IsNewestFirst (suc zero) zero x y lt at_i at_j = absurd (omega arith)
two_clients-IsNewestFirst (suc zero) (suc zero) x y lt at_i at_j = absurd (omega arith)
two_clients-IsNewestFirst (suc zero) (suc (suc j)) x y lt at_i at_j = absurd (ground arith)
two_clients-IsNewestFirst (suc (suc i)) j x y lt at_i at_j = absurd (ground arith)

abbrev asked : List (CapClient ℕ)
asked = kick_loop fixed (λ c. true) false 800 1200 two_clients

kick_loop_lem_example :
    (spared : List (CapClient ℕ)) × (two_clients ≡ asked ++ spared)
    × IsNeeded fixed (λ c. true) false 800 1200 asked
    × ((spared ≡ [])
        ⊎ ((false || ltb 800 (live_after fixed (λ c. true) false 800 1200 asked)) ≡ false))
    × ((i j : ℕ) (x y : CapClient ℕ)
        → get_elem? asked i ≡ some x
        → get_elem? spared j ≡ some y
        → y.connect_tsms ≤ x.connect_tsms)
kick_loop_lem_example =
    kick_loop_lem fixed (λ c. true) false 800 1200 two_clients two_clients-IsNewestFirst

abbrev answers : Gateway ℕ
answers = record {
  counted = some 2;
  set_accept = λ b. true;
  clients = some two_clients;
  kill_client = λ c. true;
}

-- 5 shares of the DATUM gateways among 6.
abbrev row : ℕ → ShareRow
row i = record {
  at = 72000 + i;
  difficulty = 1000;
  hash = [];
  identity = b'a' ∷ [];
  tag = if i == 0 then sv1_tag else [];
}

abbrev six_shares : Window
six_shares = record {
  window = 10000;
  have_window = true;
  total_work = 6000;
  cumulative_work = 6000;
  nshares = 6;
  share_head = 0;
  shares = row;
  idents = [];
}

six_shares-IsValid : IsValid six_shares
unfolding rows_from
six_shares-IsValid = record {
  count = omega arith;
  head = omega arith;
  total = refl;
  range = omega arith;
}

abbrev reading : Reading ℕ
reading = record {
  now = 80000;
  networkhashps = some 10000000000;
  lookback_since = none;
  pool = some six_shares;
}

abbrev measured : Bool → Snap ℕ
measured = refresh_snap fixed reading

abbrev rows : List ShareRow
rows = recent 8000 (queue six_shares)

refresh_snap_lem_example :
    (600 ≤ (measured true).lookback_sec)
    × ((measured true).pool_hs
        ≡ work_to_hashrate_hs fixed (sum_difficulty rows) (measured true).lookback_sec)
    × ((measured true).sv1_hs
        ≡ work_to_hashrate_hs fixed (sum_difficulty (public rows)) (measured true).lookback_sec)
    × ((measured true).datum_hs
        ≡ work_to_hashrate_hs fixed
            (sum_difficulty rows - sum_difficulty (public rows))
            (measured true).lookback_sec)
    × ((measured true).share_count ≡ length rows)
unfolding refresh_snap with_work node_snap lookback
refresh_snap_lem_example = refresh_snap_lem fixed reading true six_shares refl six_shares-IsValid

-- A tick of the thread whose gateway lists two clients.
abbrev ticked : Bool → CapThread ℕ × List (Action ℕ)
ticked admit =
    tick fixed (λ cls. cls) true true answers reading reading
      (record { admit = admit; accept_synced = true; snap = measured true })

abbrev was_open : CapThread ℕ
was_open = record { admit = true; accept_synced = true; snap = measured true }

tick_lem_example :
    IsSilent fixed (λ cls. cls) true answers reading reading true was_open
    ⊎ (IsTold fixed (λ cls. cls) true answers reading reading true was_open
        ⊎ IsShed fixed (λ cls. cls) true answers reading reading true was_open)
tick_lem_example = tick_lem fixed (λ cls. cls) true answers reading reading true was_open

-- Both clients are killed.
kills_both :
    (ticked true).1 ≡ note_connected 2 ∷ accept false ∷ note_connected 2 ∷ map kill two_clients
unfolding tick enforce cap_policy refresh_snap with_work node_snap lookback work_to_hashrate_hs
    work_since since_loop count_row share_tag_is_sv1 bytes_eq connected shed_clients kick_loop
    budget_of sum_hs
kills_both = refl

tick-steady_example :
    ((ticked false).1 ≡ connected true answers) × ((ticked false).0.accept_synced ≡ true)
unfolding tick enforce cap_policy refresh_snap with_work node_snap lookback work_to_hashrate_hs
    work_since since_loop count_row share_tag_is_sv1 bytes_eq
tick-steady_example =
    tick-steady fixed (λ cls. cls) true answers reading reading true
      (record { admit = false; accept_synced = true; snap = measured true }) refl refl

-- A password with a quote.
abbrev password : Text
password = b'a' ∷ b'"' ∷ []

abbrev command : Text
command = b'{' ∷ b'}' ∷ []

gw_body_lem_example :
    (n : ℕ) × (shown : Text) × (gw_body password command ≡ password_key ++ shown)
    × (read_string false shown ≡ some (take n (printable password), b',' ∷ inner command))
    × ((take n (printable password) ≡ printable password) ⊎ (127 ≤ n))
gw_body_lem_example = gw_body_lem password command
