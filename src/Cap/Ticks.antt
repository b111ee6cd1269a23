-- ===== src/Cap/Ticks.antt =====
-- What a tick of `cap_thread` sends to the public gateway.
use c_datum_prime.Common.{◌≡◌, refl, sym, inl, inr, ◌∙◌}
use c_datum_prime.Common.{Bool, true, not, ◌||◌, if◌then◌else◌, Bool-cases}
use c_datum_prime.Common.{List, [], append-nil}
use c_datum_prime.Common.{arith}
use c_datum_prime.Cap.{Doubles, CapClient, Reading, cap_policy, refresh_snap, Snap, Policy}
use c_datum_prime.Cap.Thread.{Gateway, CapThread, connected, enforce, tick}

module _ {F : Type 0} (d : Doubles F) (qsort : List (CapClient F) → List (CapClient F))
    (allocates : Bool) (g : Gateway F) (first again : Reading F) where
  pub enforce-admit :
      (has_password : Bool) (t : CapThread F) (s : Snap F) (p : Policy)
      → (enforce d qsort has_password allocates g again t s p).0.admit ≡ p.admit
  unfolding enforce
  enforce-admit has_password t s p = ground arith

  enforce-steady :
      (has_password : Bool) (t : CapThread F) (s : Snap F) (p : Policy)
      → t.accept_synced ≡ true
      → p.admit ≡ t.admit
      → ((enforce d qsort has_password allocates g again t s p).1 ≡ [])
        × ((enforce d qsort has_password allocates g again t s p).0.accept_synced ≡ true)
  unfolding enforce
  enforce-steady has_password t s p synced same = (ground arith, ground arith)

  -- Once a call of `set_accept` has succeeded, a tick that leaves admission as it was sends nothing but the
  -- count of clients to the statistics, whatever is measured: above the cap too no client is killed.
  pub tick-steady :
      (has_password : Bool) (t : CapThread F)
      → t.accept_synced ≡ true
      → (tick d qsort has_password allocates g first again t).0.admit ≡ t.admit
      → ((tick d qsort has_password allocates g first again t).1 ≡ connected has_password g)
        × ((tick d qsort has_password allocates g first again t).0.accept_synced ≡ true)
  unfolding tick enforce
  tick-steady has_password t synced same =
      let s = refresh_snap d first t.admit in
      let t' = record t { snap = s } in
      let zero_hs = d.of_u64 0 in
      let datum_frac =
        if d.gt s.network_hs zero_hs then d.div s.datum_hs s.network_hs else zero_hs in
      let p = cap_policy d s.pool_fraction datum_frac t.admit in
      elim (Bool-cases (not s.have_nethash || d.le s.network_hs zero_hs)) [
        | inl unknown ↦ rw unknown (refl, synced)
        | inr known ↦
            let kept = enforce-admit has_password t' s p in
            let (quiet, still) =
              enforce-steady has_password t' s p synced (sym kept ∙ (rw known at same)) in
            rw (known, quiet) (append-nil (connected has_password g), still)
      ]
