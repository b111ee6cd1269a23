-- ===== src/Ledger/Replay/Examples.antt =====
-- A hash that is tried again after two other uses of the guard.
use c_datum_prime.Common.{ℕ, ◌≡◌, ◌≢◌, refl, ap}
use c_datum_prime.Common.{false}
use c_datum_prime.Common.{List, [], ◌∷◌, get_or, replicate}
use c_datum_prime.Common.{arith}
use c_datum_prime.Ledger.Replay.{replay_has, replay_new, has_loop, no_replay}
use c_datum_prime.Ledger.Replay.Recent.{
  no_replay-IsGuard, Use, tried, forgotten, after_uses, replay_new-after_uses,
}

abbrev hash : List ℕ
hash = replicate 32 7

abbrev other : List ℕ
other = replicate 32 8

hash_other : hash ≢ other
hash_other e =
    let clash : get_or hash 0 0 ≡ get_or other 0 0 = ap (λ (l : List ℕ). get_or l 0 0) e in
    ground arith

abbrev uses : List Use
uses = tried other ∷ forgotten other ∷ []

replay_new-after_uses_example :
    replay_new (after_uses uses (replay_new no_replay hash).1) hash
    ≡ (false, after_uses uses (replay_new no_replay hash).1)
unfolding replay_new replay_has has_loop
replay_new-after_uses_example =
    replay_new-after_uses no_replay hash uses no_replay-IsGuard refl (omega arith)
      (tt, (hash_other, tt))
