-- ===== src/Ledger/Window/Trim.antt =====
-- `trim`: the oldest rows go, as long as the rest has the work of the window.
use c_datum_prime.Common.{
  ℕ, zero, suc, ◌+◌, ◌-◌, ◌^◌, ◌≤◌, ◌<◌, min, ◌≡◌, ◌≢◌, refl, ap, ◌∙◌, ◌⊎◌, inl, inr,
}
use c_datum_prime.Common.{Bool, true, false, ◌&&◌, ◌==◌, ltb, if◌then◌else◌, Bool-cases}
use c_datum_prime.Common.{List, [], ◌∷◌, ◌++◌, drop}
use c_datum_prime.Common.{arith}
use c_datum_prime.Ledger.Types.{Text, ShareRow}
use c_datum_prime.Ledger.Window.{
  max_shares, Window, oldest, drop_oldest, push_row, trim, trim_loop, shrink_loop, record_share,
  share_row, set_window,
}
use c_datum_prime.Ledger.Window.Ring.{
  queue, IsValid, queue_cons, drop_oldest-IsValid, total-drop_oldest, nshares-drop_oldest,
  made_room, push_row_lem, counts-push_row,
}

-- What a trim leaves: the newest rows, at least one if there was one, and at least the work of the
-- window if there was that much.
pub record Trimmed (w w' : Window) : Type 0 where
  pub valid : IsValid w'
  pub newest : (k : ℕ) × (queue w' ≡ drop k (queue w))
  pub covers : min w.window w.total_work ≤ w'.total_work
  pub some_left : 0 < w.nshares → 0 < w'.nshares
  pub same_window : w'.window ≡ w.window

-- One row is left, or the rows are not above the window, or without the oldest they are below it.
abbrev pub IsTight : Window → Type 0
IsTight w = (w.nshares ≤ 1) ⊎ (w.total_work ≤ w.window + ((oldest w).difficulty - 1))

window-drop_oldest : (w : Window) → (drop_oldest w).window ≡ w.window
unfolding drop_oldest
window-drop_oldest w = ground arith

Trimmed-refl : (w : Window) → IsValid w → Trimmed w w
Trimmed-refl w v = record {
  valid = v;
  newest = (0, refl);
  covers = omega arith;
  some_left = λ h. h;
  same_window = refl;
}

-- A row that is dropped above the window leaves the window covered.
Trimmed-drop_oldest :
    (w w' : Window)
    → IsValid w
    → 1 < w.nshares
    → w.window + (oldest w).difficulty ≤ w.total_work
    → Trimmed (drop_oldest w) w'
    → Trimmed w w'
Trimmed-drop_oldest w w' v more above t =
    let (less, total) = total-drop_oldest w v (omega arith) in
    let (k, rows) = t.newest in
    record {
      valid = t.valid;
      newest = (suc k, rw (queue_cons w v.head (omega arith)) rows);
      covers = omega (arith, t.covers, less, window-drop_oldest w);
      some_left = λ h. t.some_left (omega (arith, nshares-drop_oldest w));
      same_window = t.same_window ∙ window-drop_oldest w;
    }

-- With a round for each row, the loop ends because its condition fails.
trim_loop_lem :
    (rounds : ℕ) (w : Window)
    → IsValid w
    → w.nshares ≤ rounds
    → Trimmed w (trim_loop rounds w) × IsTight (trim_loop rounds w)
unfolding trim_loop
trim_loop_lem zero w v enough = (Trimmed-refl w v, inl (omega arith))
trim_loop_lem (suc rounds) w v enough =
    elim (Bool-cases (ltb 1 w.nshares && ltb w.window w.total_work)) [
      | inl over ↦ elim (Bool-cases (ltb (w.total_work - w.window) (oldest w).difficulty)) [
        | inl needed ↦
            let tight : IsTight w = inr (ground arith) in
            rw (over, needed) (Trimmed-refl w v, tight)
        | inr spare ↦
            let more : 1 < w.nshares = ground arith in
            let above : w.window + (oldest w).difficulty ≤ w.total_work = ground arith in
            let (t, tight) =
              trim_loop_lem rounds (drop_oldest w) (drop_oldest-IsValid w v (omega arith))
                (omega (arith, nshares-drop_oldest w)) in
            rw (over, spare) (Trimmed-drop_oldest w _ v more above t, tight)
      ]
      | inr done ↦ let slack : IsTight w = ground arith in rw done (Trimmed-refl w v, slack)
    ]

shrink_loop-same : (rounds : ℕ) (w : Window) → w.nshares ≤ max_shares → shrink_loop rounds w ≡ w
unfolding shrink_loop
shrink_loop-same zero w h = refl
shrink_loop-same (suc rounds) w h = ground arith

if_true : (b : Bool) (x y : Window) → b ≡ true → (if b then x else y) ≡ x
if_true b x y h = rw h refl

-- With at most `max_shares` rows the second loop of `trim` has nothing to do.
pub trim_loops : (w : Window) → IsValid w → w.have_window ≡ true → trim w ≡ trim_loop w.nshares w
unfolding trim
trim_loops w v have =
    let (t, tight) = trim_loop_lem w.nshares w v (omega arith) in
    ap (λ (w' : Window). shrink_loop w'.nshares w')
      (if_true w.have_window (trim_loop w.nshares w) w have)
    ∙ shrink_loop-same (trim_loop w.nshares w).nshares (trim_loop w.nshares w) t.valid.count

pub trim_lem :
    (w : Window) → IsValid w → w.have_window ≡ true → Trimmed w (trim w) × IsTight (trim w)
trim_lem w v have = rw (trim_loops w v have) (trim_loop_lem w.nshares w v (omega arith))

-- From a valid state, `prime_pool_set_window` leaves a valid state with the newest rows: the new window
-- is covered if it was, and the oldest row left is needed to cover it, or is the only one.
pub set_window_lem :
    (w : Window) (window : ℕ)
    → IsValid w
    → let w' = set_window w window in
      IsValid w'
      × ((k : ℕ) × (queue w' ≡ drop k (queue w)))
      × (min window w.total_work ≤ w'.total_work)
      × IsTight w'
unfolding set_window
set_window_lem w window v =
    let start : Window = record w {
      window = if window == 0 then 1 else window;
      have_window = true;
    } in
    let valid : IsValid start = record {
      count = v.count;
      head = v.head;
      total = v.total;
      range = v.range;
    } in
    let (t, tight) = trim_lem start valid refl in
    let wide : window ≤ start.window = ground arith in
    (t.valid, t.newest, omega (arith, t.covers, wide), tight)

pub push_row-kept :
    (w : Window) (s : ShareRow) (identity : Text)
    → (push_row w s identity).have_window ≡ w.have_window
      × (push_row w s identity).window ≡ w.window
unfolding push_row drop_oldest
push_row-kept w s identity = ground arith

-- From a valid state with a window set, a share of a difficulty that is not 0 and with which the total
-- fits in a uint64_t is recorded behind the rows, after the oldest when the array is full; what stays
-- are the newest rows, at least one, they cover the window if all did, and the oldest of them is needed
-- to cover it, or is the only one.
pub record_share_lem :
    (w : Window) (now : ℕ) (identity : Text) (difficulty : ℕ) (hash : List ℕ) (tag : Text)
    → IsValid w
    → w.have_window ≡ true
    → difficulty ≢ 0
    → w.total_work + difficulty < 2 ^ 64
    → let (recorded, w') = record_share w now identity difficulty hash tag in
      (recorded ≡ true)
      × IsValid w'
      × ((k : ℕ) × (queue w'
            ≡ drop k (queue (made_room w) ++ (share_row now identity difficulty hash tag ∷ []))))
      × (0 < w'.nshares)
      × (min w.window ((made_room w).total_work + difficulty) ≤ w'.total_work)
      × IsTight w'
unfolding record_share share_row
record_share_lem w now identity difficulty hash tag v have ne fits =
    let s = share_row now identity difficulty hash tag in
    let w' = push_row w s identity in
    let (valid, rows) = push_row_lem w s identity v fits in
    let (count, total) = counts-push_row w s identity v fits in
    let (same, same_window) = push_row-kept w s identity in
    let (t, tight) = trim_lem w' valid (same ∙ have) in
    let (k, suffix) = t.newest in
    let some_work : (difficulty == 0) ≡ false = ground arith in
    rw some_work (
      refl,
      t.valid,
      (k, suffix ∙ ap (λ (q : List ShareRow). drop k q) rows),
      t.some_left (omega (arith, count)),
      omega (arith, t.covers, total, same_window),
      tight,
    )
