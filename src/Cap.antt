-- ===== src/Cap.antt =====
-- The cap on the pool's share of the network's hashes (src/cap.c): the policy and the measurements. What
-- the node answers and the time are arguments.
pub mod Thread
pub mod Admission
pub mod Kick
pub mod Ticks
pub mod Shed
pub mod Measure
pub mod Command
mod Examples
use c_datum_prime.Common.{ℕ, ◌-◌, ◌*◌}
use c_datum_prime.Common.{
  Bool, true, false, not, ◌&&◌, ◌==◌, ltb, if◌then◌else◌, Option, none, some,
}
use c_datum_prime.Ledger.Window.{Window}
use c_datum_prime.Ledger.Window.Since.{Since, work_since}

-- `double`: the operations that the code uses, and its literals in hundredths.
pub record Doubles (F : Type 0) : Type 0 where
  pub gt : F → F → Bool
  pub le : F → F → Bool
  pub add : F → F → F
  pub sub : F → F → F
  pub mul : F → F → F
  pub div : F → F → F
  pub of_u64 : ℕ → F
  pub hundredths : ℕ → F

-- What `prime_cap_policy` writes through its pointers.
pub record Policy : Type 0 where
  pub admit : Bool
  pub kick_all : Bool
  pub need_shed : Bool

-- `prime_nethash_snap`.
pub record Snap (F : Type 0) : Type 0 where
  pub network_hs : F
  pub pool_hs : F
  pub datum_hs : F
  pub sv1_hs : F
  pub pool_fraction : F
  pub lookback_sec : ℕ
  pub oldest_share_at : ℕ
  pub share_count : ℕ
  pub sv1_admit : Bool
  pub have_nethash : Bool
  pub updated_at : ℕ

-- `cap_client`.
pub record CapClient (F : Type 0) : Type 0 where
  pub tid : ℕ
  pub cid : ℕ
  pub connect_tsms : ℕ
  pub unique_id : ℕ
  pub hs : F

-- What `refresh_snap` finds: the time, what `prime_rpc_networkhashps` and `prime_rpc_lookback_since`
-- answer if they do, and the pool's window.
pub record Reading (F : Type 0) : Type 0 where
  pub now : ℕ
  pub networkhashps : Option F
  pub lookback_since : Option ℕ
  pub pool : Option Window

-- The time `since` from which the work is measured, and the seconds from there on.
unfoldable pub lookback : ℕ → Option ℕ → ℕ × ℕ
lookback now asked =
    let since : ℕ = elim asked [ none ↦ 0 | some s ↦ s ] in
    let sec : ℕ = elim asked [ none ↦ 0 | some s ↦ if ltb s now then now - s else 0 ] in
    let blocks : ℕ = 120 * 600 in
    if ltb sec 600 then (if ltb blocks now then now - blocks else 0, blocks) else (since, sec)

module _ {F : Type 0} (d : Doubles F) where
  abbrev pub cap_fraction : F
  cap_fraction = d.hundredths 25

  abbrev pub cap_kick_to : F
  cap_kick_to = d.hundredths 23

  abbrev pub cap_resume : F
  cap_resume = d.hundredths 22

  -- `prime_cap_policy`.
  unfoldable pub cap_policy : F → F → Bool → Policy
  cap_policy pool_frac datum_frac admit_now =
      if d.gt datum_frac cap_fraction
      then record { admit = false; kick_all = true; need_shed = true }
      else if d.gt pool_frac cap_fraction
      then record { admit = false; kick_all = false; need_shed = true }
      else if not admit_now && d.gt pool_frac cap_resume
      then record { admit = false; kick_all = false; need_shed = d.gt pool_frac cap_kick_to }
      else record { admit = true; kick_all = false; need_shed = false }

  -- `prime_work_to_hashrate_hs`.
  unfoldable pub work_to_hashrate_hs : ℕ → ℕ → F
  work_to_hashrate_hs work seconds =
      d.div (d.mul (d.of_u64 work) (d.of_u64 4294967296))
        (d.of_u64 (if seconds == 0 then 1 else seconds))

  -- The fields of `refresh_snap` that the node and the time give.
  unfoldable pub node_snap : Reading F → Bool → Snap F
  node_snap r admit = record {
    network_hs = elim r.networkhashps [ none ↦ d.of_u64 0 | some hs ↦ hs ];
    pool_hs = d.of_u64 0;
    datum_hs = d.of_u64 0;
    sv1_hs = d.of_u64 0;
    pool_fraction = d.of_u64 0;
    lookback_sec = (lookback r.now r.lookback_since).1;
    oldest_share_at = 0;
    share_count = 0;
    sv1_admit = admit;
    have_nethash = elim r.networkhashps [ none ↦ false | some _ ↦ true ];
    updated_at = r.now;
  }

  -- The fields that the pool gives.
  unfoldable pub with_work : Snap F → Since → Snap F
  with_work s c = record s {
    pool_hs = work_to_hashrate_hs c.total s.lookback_sec;
    sv1_hs = work_to_hashrate_hs c.sv1 s.lookback_sec;
    datum_hs =
        work_to_hashrate_hs (if ltb c.sv1 c.total then c.total - c.sv1 else 0) s.lookback_sec;
    oldest_share_at = c.oldest_at;
    share_count = c.count;
  }

  unfoldable pub refresh_snap : Reading F → Bool → Snap F
  refresh_snap r admit =
      let found = node_snap r admit in
      let since = (lookback r.now r.lookback_since).0 in
      let s : Snap F = elim r.pool [
        | none ↦ found
        | some w ↦ with_work found (work_since w since)
      ] in
      if s.have_nethash && d.gt s.network_hs (d.of_u64 0)
      then record s { pool_fraction = d.div s.pool_hs s.network_hs }
      else s
