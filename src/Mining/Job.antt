-- ===== src/Mining/Job.antt =====
-- The parts of a share message that install a job and a coinbase (src/mining.c: `install_job`,
-- `install_coinbase`). `malloc` is taken to give the two parts of the coinbase.
use c_datum_prime.Common.{ℕ, zero, suc, ◌+◌, ◌*◌}
use c_datum_prime.Common.{true, ◌||◌, ltb, if◌then◌else◌, Option, none, some}
use c_datum_prime.Common.{List, [], ◌∷◌, length, take, drop}
use c_datum_prime.Wire.{byte_at, rd_u16, rd_u32, rd_u64}
use c_datum_prime.Mining.{Mining}

-- `PRIME_MAX_MERKLE`.
abbrev pub max_merkle : ℕ
max_merkle = 24

-- memcpy(st->merkle[k], p + i, 32) for each `k`.
unfoldable pub merkle_branches : ℕ → List ℕ → List (List ℕ)
merkle_branches zero p = []
merkle_branches (suc rounds) p = take 32 p ∷ merkle_branches rounds (drop 32 p)

-- The fields that are set before the branches.
unfoldable pub set_job : Mining → List ℕ → Mining
set_job st p = record st {
  prev_hash = take 32 p;
  target_byte_index = rd_u16 (drop 32 p);
  nbits = take 4 (drop 34 p);
  job_coinbaser_id = byte_at p 38;
  height = rd_u32 (drop 39 p);
  coinbase_value = rd_u64 (drop 43 p);
  txn_count = rd_u32 (drop 51 p);
}

-- `install_job`: the bytes used, or `none` for -1, which may leave the fields set.
unfoldable pub install_job : Mining → List ℕ → Mining × Option ℕ
install_job st p =
    let mc : ℕ = byte_at p 67 in
    let st' = set_job st p in
    if ltb (length p) 68
    then (st, none)
    else if ltb max_merkle mc || ltb (length p) (68 + mc * 32)
    then (st', none)
    else (
      record st' { merkle = merkle_branches mc (drop 68 p); have_job = true },
      some (68 + mc * 32),
    )

-- `install_coinbase`: the same.
unfoldable pub install_coinbase : Mining → List ℕ → Mining × Option ℕ
install_coinbase st p =
    let l1 : ℕ = rd_u16 (drop 1 p) in
    let l2 : ℕ = rd_u16 (drop 3 p) in
    if ltb (length p) 5
    then (st, none)
    else if ltb (length p) (5 + l1 + l2)
    then (record st { cb_id = byte_at p 0 }, none)
    else (
      record st {
        cb_id = byte_at p 0;
        coinb1 = take l1 (drop 5 p);
        coinb2 = take l2 (drop (5 + l1) p);
        have_cb = true;
      },
      some (5 + l1 + l2),
    )
