-- ===== src/Ledger/Replay.antt =====
-- The replay guard (src/ledger.c: `replay_has`, `replay_add`, `prime_pool_replay_new`,
-- `prime_pool_replay_forget`): the hashes of the last 65536 accepted shares, the oldest overwritten
-- first. An array is the function from its indices.
pub mod Recent
mod Examples
use c_datum_prime.Common.{ℕ, zero, suc, ◌+◌, ◌%◌}
use c_datum_prime.Common.{Bool, true, false, ◌==◌, ltb, if◌then◌else◌}
use c_datum_prime.Common.{List, replicate}
use c_datum_prime.Wire.{bytes_eq}

abbrev pub max_replay : ℕ
max_replay = 65536

pub record Replay : Type 0 where
  pub nreplay : ℕ
  pub replay_head : ℕ
  pub replay : ℕ → List ℕ

unfoldable pub set_hash : (ℕ → List ℕ) → ℕ → List ℕ → ℕ → List ℕ
set_hash replay at hash i = if i == at then hash else replay i

-- The rounds left of the scan, and `i`.
unfoldable pub has_loop : ℕ → ℕ → (ℕ → List ℕ) → List ℕ → Bool
has_loop zero i replay hash = false
has_loop (suc rounds) i replay hash =
    let rest = has_loop rounds (i + 1) replay hash in
    if bytes_eq (replay i) hash then true else rest

unfoldable pub replay_has : Replay → List ℕ → Bool
replay_has r hash = has_loop r.nreplay 0 r.replay hash

unfoldable pub replay_add : Replay → List ℕ → Replay
replay_add r hash =
    if ltb r.nreplay max_replay
    then record r { replay = set_hash r.replay r.nreplay hash; nreplay = r.nreplay + 1 }
    else record r {
      replay = set_hash r.replay r.replay_head hash;
      replay_head = (r.replay_head + 1) % max_replay;
    }

-- `prime_pool_replay_new`: 1 and the hash is kept, or 0.
unfoldable pub replay_new : Replay → List ℕ → Bool × Replay
replay_new r hash = if replay_has r hash then (false, r) else (true, replay_add r hash)

-- The first entry with the hash is cleared.
unfoldable pub forget_loop : ℕ → ℕ → (ℕ → List ℕ) → List ℕ → ℕ → List ℕ
forget_loop zero i replay hash = replay
forget_loop (suc rounds) i replay hash =
    let rest = forget_loop rounds (i + 1) replay hash in
    if bytes_eq (replay i) hash then set_hash replay i (replicate 32 0) else rest

unfoldable pub replay_forget : Replay → List ℕ → Replay
replay_forget r hash = record r { replay = forget_loop r.nreplay 0 r.replay hash }

abbrev pub no_replay : Replay
no_replay = record { nreplay = 0; replay_head = 0; replay = λ i. replicate 32 0 }
