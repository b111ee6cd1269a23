-- ===== src/Cap/Thread.antt =====
-- The tick of `cap_thread` (src/cap.c). What the public gateway answers is an argument; the text of its
-- commands is in Cap/Command, or not modelled.
use Prim.Native.Nat.{Ordering, lt, eq, gt}
use c_datum_prime.Common.{ℕ}
use c_datum_prime.Common.{Bool, not, ◌&&◌, ◌||◌, ltb, if◌then◌else◌, Option, none, some}
use c_datum_prime.Common.{List, [], ◌∷◌, ◌++◌, length, map}
use c_datum_prime.Wire.{u32}
use c_datum_prime.Cap.{
  Doubles, Policy, Snap, CapClient, Reading, cap_kick_to, cap_policy, refresh_snap,
}

-- What the public gateway answers during a tick: the number of clients that `count_client_objects`
-- counts, to `set_accept` and `kill_client` whether they succeed, and what `list_clients` gives.
pub record Gateway (F : Type 0) : Type 0 where
  pub counted : Option ℕ
  pub set_accept : Bool → Bool
  pub clients : Option (List (CapClient F))
  pub kill_client : CapClient F → Bool

-- What a tick asks of the gateway, and what it tells the statistics.
pub data Action (F : Type 0) : Type 0 where
  accept : Bool → Action F
  kill : CapClient F → Action F
  note_connected : ℕ → Action F

-- `g_admit`, `accept_synced` and `g_snap`.
pub record CapThread (F : Type 0) : Type 0 where
  pub admit : Bool
  pub accept_synced : Bool
  pub snap : Snap F

-- `cmp_newest`: `gt` is 1, `lt` is -1.
unfoldable pub cmp_newest : {F : Type 0} → CapClient F → CapClient F → Ordering
cmp_newest x y =
    if ltb x.connect_tsms y.connect_tsms
    then gt
    else if ltb y.connect_tsms x.connect_tsms
    then lt
    else eq

-- `refresh_sv1_connected`.
unfoldable pub connected : {F : Type 0} → Bool → Gateway F → List (Action F)
connected has_password g = elim g.counted [
  | none ↦ []
  | some n ↦ if has_password then note_connected n ∷ [] else []
]

module _ {F : Type 0} (d : Doubles F) where
  -- The hashes of the clients.
  unfoldable pub sum_hs : F → List (CapClient F) → F
  sum_hs live [] = live
  sum_hs live (c ∷ cls) = sum_hs (d.add live c.hs) cls

  -- The clients that the last loop asks to kill.
  unfoldable pub kick_loop :
      (CapClient F → Bool) → Bool → F → F → List (CapClient F) → List (CapClient F)
  kick_loop kills kick_all budget live [] = []
  kick_loop kills kick_all budget live (c ∷ cls) =
      let rest = kick_loop kills kick_all budget (if kills c then d.sub live c.hs else live) cls in
      if kick_all || d.gt live budget then c ∷ rest else []

  unfoldable pub budget_of : Snap F → Bool → F
  budget_of s kick_all =
      let budget = d.sub (d.mul (cap_kick_to d) s.network_hs) s.datum_hs in
      if kick_all || d.gt (d.of_u64 0) budget then d.of_u64 0 else budget

  -- What a tick does once the policy needs it to shed; `allocates` is whether `calloc` does.
  unfoldable pub shed_clients :
      (List (CapClient F) → List (CapClient F)) → Bool → Gateway F → Snap F → Bool → List (Action F)
  shed_clients qsort allocates g s kick_all = elim g.clients [
    | none ↦ []
    | some listed ↦
        let cls = qsort listed in
        let asked =
          kick_loop g.kill_client kick_all (budget_of s kick_all) (sum_hs (d.of_u64 0) cls) cls in
        if allocates then note_connected (u32 (length cls)) ∷ map kill asked else []
  ]

  -- A tick behind the policy, with the measurement that the tick acts on. Where `set_accept` is not
  -- called, the tick ends: either by the branch that misses a password, or as there is nothing to shed.
  unfoldable pub enforce :
      (List (CapClient F) → List (CapClient F))
      → Bool
      → Bool
      → Gateway F
      → Reading F
      → CapThread F
      → Snap F
      → Policy
      → CapThread F × List (Action F)
  enforce qsort has_password allocates g again t s p =
      let admit_changed = if p.admit then not t.admit else t.admit in
      let t' = record t { admit = p.admit; snap = refresh_snap d again p.admit } in
      let shed = if p.need_shed then shed_clients qsort allocates g s p.kick_all else [] in
      if has_password && (admit_changed || not t.accept_synced)
      then (
        record t' { accept_synced = t.accept_synced || g.set_accept p.admit },
        accept p.admit ∷ shed,
      )
      else (t', [])

  -- A tick of `cap_thread`, with the readings of its two calls of `refresh_snap`.
  unfoldable pub tick :
      (List (CapClient F) → List (CapClient F))
      → Bool
      → Bool
      → Gateway F
      → Reading F
      → Reading F
      → CapThread F
      → CapThread F × List (Action F)
  tick qsort has_password allocates g first again t =
      let s = refresh_snap d first t.admit in
      let noted = connected has_password g in
      let t' = record t { snap = s } in
      let none_found = d.of_u64 0 in
      let datum_frac =
        if d.gt s.network_hs none_found then d.div s.datum_hs s.network_hs else none_found in
      let p = cap_policy d s.pool_fraction datum_frac t.admit in
      let (t'', sent) = enforce qsort has_password allocates g again t' s p in
      if not s.have_nethash || d.le s.network_hs none_found
      then (t', noted)
      else (t'', noted ++ sent)
