-- ===== src/Ledger/Pool.antt =====
-- The pool (src/ledger.c: `prime_pool`) and the operations that use several of its books: the split,
-- the fee, a found block, and the credit of a block that the node accepted (src/mining.c:
-- `credit_accepted_split`). The files and what they print are not modelled.
pub mod Credit
mod Examples
use c_datum_prime.Common.{[], ℕ, zero, suc, ◌+◌, ◌%◌}
use c_datum_prime.Common.{not, ◌&&◌, ◌||◌, ◌==◌, ltb, if◌then◌else◌}
use c_datum_prime.Common.{List, ◌∷◌, length, take}
use c_datum_prime.Wire.{u64}
use c_datum_prime.Ledger.Types.{
  Text, ShareRow, copy_text, max_identity, max_idents, share_tag_is_sv1,
}
use c_datum_prime.Ledger.Window.{Window, max_shares}
use c_datum_prime.Ledger.Split.{Payout, split_window, max_split_outputs}
use c_datum_prime.Ledger.Replay.{Replay}
use c_datum_prime.Ledger.Owed.{Owed, record_owed}
use c_datum_prime.Ledger.Empty.{Find, Terms}

pub record Pool : Type 0 where
  pub window : Window
  pub replay : Replay
  pub empty : List Find
  pub owed : List Owed
  pub fee_bps : ℕ
  pub fee_after_first_bps : ℕ
  pub min_payout : ℕ
  pub blocks_found : ℕ
  pub last_height : ℕ
  pub last_block : List ℕ
  pub last_finder : Text

-- What a new row of a book copies from the pool at the time `now`.
unfoldable pub terms_of : Pool → ℕ → Terms
terms_of p now = record {
  now = now;
  total_work = p.window.total_work;
  fee_bps = p.fee_bps;
  min_payout = p.min_payout;
  idents = p.window.idents;
}

-- `prime_pool_split`.
unfoldable pub pool_split : Pool → ℕ → ℕ → List Payout
pool_split p value max_n =
    if max_n == 0 || p.window.total_work == 0
    then []
    else split_window (take max_idents p.window.idents) p.window.total_work value p.fee_bps
        p.min_payout max_n

unfoldable pub apply_fee_after_first : Pool → Pool
apply_fee_after_first p =
    if p.fee_after_first_bps == 0
    then p
    else record p { fee_bps = if p.blocks_found == 0 then 0 else p.fee_after_first_bps }

-- `prime_pool_set_fee_after_first_block`.
unfoldable pub set_fee_after_first_block : Pool → ℕ → Pool
set_fee_after_first_block p after_bps =
    apply_fee_after_first
      (record p { fee_after_first_bps = if ltb 100 after_bps then 100 else after_bps })

-- `prime_pool_record_block`.
unfoldable pub record_block : Pool → ℕ → List ℕ → Text → Pool
record_block p height hash finder =
    let found : ℕ = u64 (p.blocks_found + 1) in
    record p {
      last_height = height;
      last_block = hash;
      last_finder = copy_text max_identity finder;
      blocks_found = found;
      fee_bps =
          if not (p.fee_after_first_bps == 0) && found == 1
          then p.fee_after_first_bps
          else p.fee_bps;
    }

-- for (k = 0; k < n; k++) paid += amounts[k]
unfoldable pub add_paid : ℕ → List Payout → ℕ
add_paid paid [] = paid
add_paid paid (a ∷ payouts) = add_paid (u64 (paid + a.amount)) payouts

-- `credit_accepted_split`, at the time `now`.
unfoldable pub credit_accepted_split : Pool → ℕ → ℕ → List ℕ → Text → ℕ → Pool
credit_accepted_split p now height hash finder value =
    let split = pool_split p value max_split_outputs in
    let booked = record_owed (terms_of p now) p.owed height hash finder (add_paid 0 split) split in
    record_block (if length split == 0 then p else record p { owed = booked.1 }) height hash finder

-- What `prime_pool_work_since` adds up.
pub record Since : Type 0 where
  pub total : ℕ
  pub sv1 : ℕ
  pub oldest_at : ℕ
  pub count : ℕ

-- One round of its loop.
unfoldable pub since_add : ℕ → Since → ShareRow → Since
since_add cutoff r s = if ltb s.at cutoff then r else record {
  total = u64 (r.total + s.difficulty);
  sv1 = if share_tag_is_sv1 s.tag then u64 (r.sv1 + s.difficulty) else r.sv1;
  oldest_at = if r.oldest_at == 0 || ltb s.at r.oldest_at then s.at else r.oldest_at;
  count = u64 (r.count + 1);
}

-- The rounds left, and `si`.
unfoldable pub since_loop : ℕ → ℕ → ℕ → Window → Since → Since
since_loop zero si cutoff w r = r
since_loop (suc rounds) si cutoff w r =
    since_loop rounds (si + 1) cutoff w
      (since_add cutoff r (w.shares ((w.share_head + si) % max_shares)))

-- `prime_pool_work_since`.
unfoldable pub work_since : Window → ℕ → Since
work_since w cutoff =
    since_loop w.nshares 0 cutoff w (record { total = 0; sv1 = 0; oldest_at = 0; count = 0 })
