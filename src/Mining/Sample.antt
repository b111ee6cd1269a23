-- ===== src/Mining/Sample.antt =====
-- A concrete connection for the examples: a function in the place of SHA-256 and BLAKE2b, an allocator,
-- a node that takes every block, and a pool of two miners.
use c_datum_prime.Common.{ℕ, ◌+◌, ◌%◌}
use c_datum_prime.Common.{Bool, true, false, ltb, none, some}
use c_datum_prime.Common.{List, [], ◌∷◌, ◌++◌, replicate}
use c_datum_prime.Ledger.Replay.{no_replay}
use c_datum_prime.Ledger.Pool.{Pool}
use c_datum_prime.Abw.{abw_start}
use c_datum_prime.Pow.{zeros}
use c_datum_prime.Mining.{Mining, Opts, SplitRec}
use c_datum_prime.Mining.Block.{Node}

abbrev pub sum_bytes : List ℕ → ℕ
sum_bytes [] = 0
sum_bytes (b ∷ message) = b + sum_bytes message

-- 31 zeros and the sum.
abbrev pub digest : List ℕ → List ℕ
digest message = zeros 31 ++ (sum_bytes message % 256 ∷ [])

abbrev pub gets : ℕ → Bool
gets n = ltb n 70000

abbrev pub node : Node
node = record {
  parent_have = λ hash. true;
  submitblock = λ text. some [];
  writes = λ name text. true;
}

abbrev pub opts : Opts
opts = record {
  has_datadir = true;
  has_block_dir = false;
  payout_script = replicate 22 1;
  prime_id = 7;
  min_difficulty = 16;
  abw_disabled = false;
  require_split = true;
  bulk_framing = true;
  abw_reveal_after_sec = 300;
  coinbase_tag = [];
}

abbrev pub pool : Pool
pool = record {
  window = record {
    window = 1000;
    have_window = true;
    total_work = 1000;
    cumulative_work = 1000;
    nshares = 0;
    share_head = 0;
    shares = λ i. record { at = 0; difficulty = 0; hash = []; identity = []; tag = [] };
    idents =
        record { identity = b'a' ∷ []; work = 700; public_work = 0 }
        ∷ record { identity = b'b' ∷ []; work = 300; public_work = 100 }
        ∷ [];
  };
  replay = no_replay;
  empty = [];
  owed = [];
  fee_bps = 50;
  fee_after_first_bps = 100;
  min_payout = 1000;
  blocks_found = 0;
  last_height = 0;
  last_block = [];
  last_finder = [];
}

-- A split with one script, sent at 1000.
abbrev pub split : SplitRec
split = record {
  id = 3;
  sent_at = 1000;
  outputs = record { value = 5000; script = 1 ∷ 2 ∷ 3 ∷ [] } ∷ [];
}

-- A job with one transaction besides the coinbase.
abbrev pub connection : Mining
connection = record {
  have_job = true;
  prev_hash = zeros 32;
  target_byte_index = 0;
  nbits = 0xff ∷ 0xff ∷ 0 ∷ 0x1d ∷ [];
  job_coinbaser_id = 3;
  height = 800000;
  coinbase_value = 100000;
  txn_count = 1;
  merkle = [];
  have_cb = true;
  cb_id = 0;
  coinb1 = 9 ∷ 9 ∷ [];
  coinb2 = [];
  next_coinbaser_id = 4;
  last_coinbaser_id = 3;
  abw_slot = none;
  abw_on = false;
  abw = abw_start 300 (replicate 16 3) 1000;
  splits = split ∷ [];
  last_hash = zeros 32;
  last_raw_le = none;
  last_accepted = false;
  last_candidate = false;
  public_stratum = false;
  want_parent = false;
  parent_job = 0;
  parent_need = zeros 32;
  pending = none;
}
