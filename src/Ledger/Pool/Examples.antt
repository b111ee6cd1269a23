-- ===== src/Ledger/Pool/Examples.antt =====
-- Two miners and a block of 100000 satoshis.
use c_datum_prime.Common.{ℕ, ◌≤◌, ◌≡◌, refl, ◌⊎◌}
use c_datum_prime.Common.{true}
use c_datum_prime.Common.{List, [], ◌∷◌, replicate}
use c_datum_prime.Common.{arith}
use c_datum_prime.Ledger.Window.{Window}
use c_datum_prime.Ledger.Replay.{no_replay}
use c_datum_prime.Ledger.Split.{max_split_outputs}
use c_datum_prime.Ledger.Split.Pay.{sum_paid}
use c_datum_prime.Ledger.Owed.{has_owed, owed_row}
use c_datum_prime.Ledger.Owed.Record.{sum_owed}
use c_datum_prime.Ledger.Pool.{
  Pool, terms_of, pool_split, credit_accepted_split, record_block, set_fee_after_first_block,
  apply_fee_after_first,
}
use c_datum_prime.Ledger.Pool.Credit.{credit_accepted_split_lem}

abbrev two_miners : Window
two_miners = record {
  window = 1000;
  have_window = true;
  total_work = 1000;
  cumulative_work = 1000;
  nshares = 0;
  share_head = 0;
  shares = λ i. record { at = 0; difficulty = 0; hash = []; identity = []; tag = [] };
  idents =
      record { identity = b'a' ∷ []; work = 700; public_work = 0 }
      ∷ record { identity = b'b' ∷ []; work = 300; public_work = 100 }
      ∷ [];
}

abbrev pool : Pool
pool = record {
  window = two_miners;
  replay = no_replay;
  empty = [];
  owed = [];
  fee_bps = 50;
  fee_after_first_bps = 100;
  min_payout = 1000;
  blocks_found = 0;
  last_height = 0;
  last_block = [];
  last_finder = [];
}

abbrev block_hash : List ℕ
block_hash = replicate 32 5

credit_accepted_split_lem_example :
    let split = pool_split pool 100000 max_split_outputs in
    let row = owed_row (terms_of pool 9) 800000 block_hash (b'a' ∷ []) (sum_paid split) split in
    let p' = credit_accepted_split pool 9 800000 block_hash (b'a' ∷ []) 100000 in
    (((split ≡ []) × (p'.owed ≡ pool.owed))
      ⊎ ((p'.owed ≡ row ∷ []) × (sum_owed row.ents ≡ row.total) × (row.total ≤ 100000)))
    × (p'.blocks_found ≡ 1)
unfolding has_owed
credit_accepted_split_lem_example =
    credit_accepted_split_lem pool 100000 (omega arith) (omega arith) (omega arith) 9 800000
      block_hash (b'a' ∷ []) refl (omega arith)

-- The fee starts with the first block.
first_block_fee : (record_block (set_fee_after_first_block pool 80) 1 block_hash []).fee_bps ≡ 80
unfolding record_block set_fee_after_first_block apply_fee_after_first
first_block_fee = refl
