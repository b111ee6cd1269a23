-- ===== src/Cap/Measure.antt =====
-- What the policy measures: the hashes of the window's rows over a time of at least ten minutes.
use c_datum_prime.Common.{ℕ, ◌-◌, ◌≤◌, ◌≡◌, refl, inl, inr}
use c_datum_prime.Common.{Bool, ◌&&◌, ltb, if◌then◌else◌, Bool-cases, Option, none, some}
use c_datum_prime.Common.{length}
use c_datum_prime.Common.{arith}
use c_datum_prime.Ledger.Window.{Window}
use c_datum_prime.Ledger.Window.Ring.{queue, sum_difficulty, IsValid}
use c_datum_prime.Ledger.Window.Since.{work_since, recent, public, work_since_lem}
use c_datum_prime.Cap.{
  Doubles, Reading, lookback, node_snap, with_work, work_to_hashrate_hs, refresh_snap,
}

lookback_lem :
    (now : ℕ) (asked : Option ℕ)
    → ((lookback now asked).0 ≡ now - (lookback now asked).1) × (600 ≤ (lookback now asked).1)
unfolding lookback
lookback_lem now none = (ground arith, ground arith)
lookback_lem now (some since) = (ground arith, ground arith)

module _ {F : Type 0} (d : Doubles F) where
  -- The time and the work of a snapshot do not depend on the network's hashes.
  refresh_fields :
      (r : Reading F) (admit : Bool) (w : Window)
      → r.pool ≡ some w
      → let s = refresh_snap d r admit in
        let (since, sec) = lookback r.now r.lookback_since in
        let c = work_since w since in
        (s.lookback_sec ≡ sec)
        × (s.pool_hs ≡ work_to_hashrate_hs d c.total sec)
        × (s.sv1_hs ≡ work_to_hashrate_hs d c.sv1 sec)
        × (s.datum_hs
            ≡ work_to_hashrate_hs d (if ltb c.sv1 c.total then c.total - c.sv1 else 0) sec)
        × (s.share_count ≡ c.count)
  unfolding refresh_snap with_work node_snap
  refresh_fields r admit w known =
      let (since, sec) = lookback r.now r.lookback_since in
      let s = with_work d (node_snap d r admit) (work_since w since) in
      elim (Bool-cases (s.have_nethash && d.gt s.network_hs (d.of_u64 0))) [
        | inl found ↦ rw (known, found) (refl, refl, refl, refl, refl)
        | inr missing ↦ rw (known, missing) (refl, refl, refl, refl, refl)
      ]

  -- A snapshot's rates are those of the work of the rows in the last seconds that it looks back, at least
  -- 600: all rows, those of the public gateway, and the others.
  pub refresh_snap_lem :
      (r : Reading F) (admit : Bool) (w : Window)
      → r.pool ≡ some w
      → IsValid w
      → let s = refresh_snap d r admit in
        let rows = recent (r.now - s.lookback_sec) (queue w) in
        (600 ≤ s.lookback_sec)
        × (s.pool_hs ≡ work_to_hashrate_hs d (sum_difficulty rows) s.lookback_sec)
        × (s.sv1_hs ≡ work_to_hashrate_hs d (sum_difficulty (public rows)) s.lookback_sec)
        × (s.datum_hs
            ≡ work_to_hashrate_hs d
                (sum_difficulty rows - sum_difficulty (public rows))
                s.lookback_sec)
        × (s.share_count ≡ length rows)
  refresh_snap_lem r admit w known valid =
      let (since, sec) = lookback r.now r.lookback_since in
      let c = work_since w since in
      let (from, enough) = lookback_lem r.now r.lookback_since in
      let (at, pool, sv1, datum, count) = refresh_fields r admit w known in
      let (total, public_total, n) = work_since_lem w since valid in
      let others : (if ltb c.sv1 c.total then c.total - c.sv1 else 0) ≡ c.total - c.sv1 =
        ground arith in
      rw (pool, sv1, datum, count, at, others, total, public_total, n, from)
        (enough, refl, refl, refl, refl)
