-- ===== src/Ledger/Window.antt =====
-- The share window (src/ledger.c: `drop_oldest`, `trim`, `prime_pool_set_window`,
-- `prime_pool_record_share`): the fields of `prime_pool` that these use. An array is the function
-- from its indices. The files that the operations append to are not modelled.
pub mod Ring
pub mod Trim
pub mod Tally
pub mod Runs
pub mod Full
pub mod Since
mod Examples
use c_datum_prime.Common.{ℕ, zero, suc, ◌+◌, ◌-◌, ◌%◌}
use c_datum_prime.Common.{Bool, true, false, ◌&&◌, ◌==◌, ltb, if◌then◌else◌}
use c_datum_prime.Common.{List}
use c_datum_prime.Wire.{u64}
use c_datum_prime.Ledger.Types.{
  Text, ShareRow, IdentWork, copy_text, max_identity, sub_floor, ident_add, ident_sub,
  share_tag_is_sv1,
}

abbrev pub max_shares : ℕ
max_shares = 131072

pub record Window : Type 0 where
  pub window : ℕ
  pub have_window : Bool
  pub total_work : ℕ
  pub cumulative_work : ℕ
  pub nshares : ℕ
  pub share_head : ℕ
  pub shares : ℕ → ShareRow
  pub idents : List IdentWork

-- `shares[at] = s`.
unfoldable pub set_row : (ℕ → ShareRow) → ℕ → ShareRow → ℕ → ShareRow
set_row shares at s i = if i == at then s else shares i

abbrev pub oldest : Window → ShareRow
oldest w = w.shares w.share_head

unfoldable pub drop_oldest : Window → Window
drop_oldest w =
    let s = oldest w in
    if w.nshares == 0 then w else record w {
      total_work = sub_floor w.total_work s.difficulty;
      idents = ident_sub w.idents s.identity s.difficulty (share_tag_is_sv1 s.tag);
      share_head = (w.share_head + 1) % max_shares;
      nshares = w.nshares - 1;
    }

-- The first loop of `trim`, whose rounds are at most the shares; `over` is the work above the window.
unfoldable pub trim_loop : ℕ → Window → Window
trim_loop zero w = w
trim_loop (suc rounds) w =
    let rest = trim_loop rounds (drop_oldest w) in
    let over : ℕ = w.total_work - w.window in
    if ltb 1 w.nshares && ltb w.window w.total_work
    then (if ltb over (oldest w).difficulty then w else rest)
    else w

-- The second loop of `trim`.
unfoldable pub shrink_loop : ℕ → Window → Window
shrink_loop zero w = w
shrink_loop (suc rounds) w =
    let rest = shrink_loop rounds (drop_oldest w) in if ltb max_shares w.nshares then rest else w

unfoldable pub trim : Window → Window
trim w = let w' = if w.have_window then trim_loop w.nshares w else w in shrink_loop w'.nshares w'

unfoldable pub set_window : Window → ℕ → Window
set_window w window =
    trim (record w { window = if window == 0 then 1 else window; have_window = true })

-- The row that `prime_pool_record_share` makes at the time `now`.
unfoldable pub share_row : ℕ → Text → ℕ → List ℕ → Text → ShareRow
share_row now identity difficulty hash tag = record {
  at = now;
  difficulty = difficulty;
  hash = hash;
  identity = copy_text max_identity identity;
  tag = copy_text 32 tag;
}

-- The row goes behind the newest, over the oldest when the array is full.
unfoldable pub push_row : Window → ShareRow → Text → Window
push_row w s identity =
    let w' = if w.nshares == max_shares then drop_oldest w else w in
    record w' {
      shares = set_row w'.shares ((w'.share_head + w'.nshares) % max_shares) s;
      nshares = w'.nshares + 1;
      total_work = u64 (w'.total_work + s.difficulty);
      cumulative_work = u64 (w'.cumulative_work + s.difficulty);
      idents = ident_add w'.idents identity s.difficulty (share_tag_is_sv1 s.tag);
    }

-- The return value 0, or -1 (`false`), and the window.
unfoldable pub record_share : Window → ℕ → Text → ℕ → List ℕ → Text → Bool × Window
record_share w now identity difficulty hash tag =
    if difficulty == 0
    then (false, w)
    else (true, trim (push_row w (share_row now identity difficulty hash tag) identity))
