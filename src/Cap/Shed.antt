-- ===== src/Cap/Shed.antt =====
-- When a tick of `cap_thread` refuses and kills clients.
use c_datum_prime.Common.{◌≡◌, ◌⊎◌, refl, sym, inl, inr, ap, ◌∙◌}
use c_datum_prime.Common.{
  Bool, true, false, not, ◌&&◌, ◌||◌, if◌then◌else◌, Bool-cases, Option-cases, none, some,
}
use c_datum_prime.Common.{List, [], ◌∷◌, ◌++◌, length, map, append-nil}
use c_datum_prime.Common.{arith}
use c_datum_prime.Wire.{u32}
use c_datum_prime.Cap.{Doubles, CapClient, Reading, cap_policy, refresh_snap, Snap, Policy}
use c_datum_prime.Cap.Thread.{
  Gateway, Action, accept, kill, note_connected, CapThread, kick_loop, budget_of, sum_hs,
  shed_clients, connected, enforce, tick,
}
use c_datum_prime.Cap.Kick.{asked_lem}
use c_datum_prime.Cap.Ticks.{enforce-admit}

module _ {F : Type 0} (d : Doubles F) where
  -- The hashes of the network were measured.
  abbrev pub is_known : Snap F → Bool
  is_known s = s.have_nethash && not (d.le s.network_hs (d.of_u64 0))

  -- The fraction of the DATUM gateways.
  abbrev pub datum_fraction : Snap F → F
  datum_fraction s =
      if d.gt s.network_hs (d.of_u64 0) then d.div s.datum_hs s.network_hs else d.of_u64 0

  -- More than 25 % from the DATUM gateways or from the pool; or, where the public gateway is shut already, more
  -- than 22 and 23 % from the pool.
  abbrev pub is_above : Snap F → Bool → Bool
  is_above s admit =
      d.gt (datum_fraction s) (d.hundredths 25)
      || (d.gt s.pool_fraction (d.hundredths 25)
          || (not admit
              && (d.gt s.pool_fraction (d.hundredths 22)
                  && d.gt s.pool_fraction (d.hundredths 23))))

  policy_lem :
      (s : Snap F) (admit : Bool)
      → let p = cap_policy d s.pool_fraction (datum_fraction s) admit in
        (p.need_shed ≡ is_above s admit)
        × ((p.need_shed ≡ false) ⊎ (p.admit ≡ false))
        × ((d.gt (datum_fraction s) (d.hundredths 25) ≡ false) ⊎ (p.kick_all ≡ true))
  unfolding cap_policy
  policy_lem s admit = elim (Bool-cases (d.gt (datum_fraction s) (d.hundredths 25))) [
    | inl datum ↦ rw datum (refl, inr refl, inr refl)
    | inr few ↦ elim (Bool-cases (d.gt s.pool_fraction (d.hundredths 25))) [
      | inl pool ↦ rw (few, pool) (refl, inr refl, inl refl)
      | inr fewer ↦ elim (Bool-cases (not admit && d.gt s.pool_fraction (d.hundredths 22))) [
        | inl held ↦ rw (few, fewer, held) (ground (arith, held), inr refl, inl refl)
        | inr resumed ↦ rw (few, fewer, resumed) (ground (arith, resumed), inl refl, inl refl)
      ]
    ]
  ]

  module _ (qsort : List (CapClient F) → List (CapClient F)) (allocates : Bool)
      (g : Gateway F) where
    -- What shedding sends, for a list that is there.
    record Sheds (s : Snap F) (kick_all : Bool) : Type 0 where
      listed : List (CapClient F)
      lists : g.clients ≡ some listed
      asked : List (CapClient F)
      spared : List (CapClient F)
      split : qsort listed ≡ asked ++ spared
      sent :
          shed_clients d qsort allocates g s kick_all
          ≡ note_connected (u32 (length (qsort listed))) ∷ map kill asked
      whole : (kick_all ≡ false) ⊎ (spared ≡ [])

    shed_cases :
        (s : Snap F) (kick_all : Bool)
        → ((shed_clients d qsort allocates g s kick_all ≡ [])
            × ((allocates ≡ false) ⊎ (g.clients ≡ none)))
          ⊎ Sheds s kick_all
    unfolding shed_clients
    shed_cases s kick_all = elim (Option-cases g.clients) [
      | inl missing ↦ rw missing (inl (refl, inr refl))
      | inr (listed, lists) ↦ elim (Bool-cases allocates) [
        | inr full ↦ rw (lists, full) (inl (refl, inl refl))
        | inl room ↦
            let cls = qsort listed in
            let budget = budget_of d s kick_all in
            let live = sum_hs d (d.of_u64 0) cls in
            let (spared, split, needed, done) =
              asked_lem d g.kill_client kick_all budget live cls in
            let whole : (kick_all ≡ false) ⊎ (spared ≡ []) = elim done [
              | inl none_left ↦ inr none_left
              | inr stops ↦ inl (ground arith)
            ] in
            inr (record {
              listed = listed;
              lists = lists;
              asked = kick_loop d g.kill_client kick_all budget live cls;
              spared = spared;
              split = split;
              sent = rw (lists, room) refl;
              whole = whole;
            })
      ]
    ]

    enforce_cases :
        (again : Reading F) (has_password : Bool) (t : CapThread F) (s : Snap F) (p : Policy)
        → let sent = (enforce d qsort has_password allocates g again t s p).1 in
          ((sent ≡ [])
            × ((has_password ≡ false) ⊎ ((t.accept_synced ≡ true) × (p.admit ≡ t.admit))))
          ⊎ ((has_password ≡ true)
              × (sent
                  ≡ accept p.admit
                    ∷ (if p.need_shed then shed_clients d qsort allocates g s p.kick_all else [])))
    unfolding enforce
    enforce_cases again has_password t s p =
        let changed : Bool = if p.admit then not t.admit else t.admit in
        elim (Bool-cases (has_password && (changed || not t.accept_synced))) [
          | inl due ↦ rw due (inr (ground arith, refl))
          | inr steady ↦ rw steady (inl (refl, ground arith))
        ]

  module _ (qsort : List (CapClient F) → List (CapClient F)) (allocates : Bool) (g : Gateway F)
      (first again : Reading F) (has_password : Bool) (t : CapThread F) where
    abbrev pub ticked : CapThread F × List (Action F)
    ticked = tick d qsort has_password allocates g first again t

    -- Nothing is asked of the gateway: the network's hashes are not known, there is no password, or the
    -- gateway was told already and admission stays as it was.
    abbrev pub IsSilent : Type 0
    IsSilent =
        (ticked.1 ≡ connected has_password g)
        × ((is_known (refresh_snap d first t.admit) ≡ false)
            ⊎ ((has_password ≡ false) ⊎ ((t.accept_synced ≡ true) × (ticked.0.admit ≡ t.admit))))

    -- The gateway is told the admission and no client is killed: the measurement is not above what is allowed,
    -- or the memory or the gateway's list is missing.
    abbrev pub IsTold : Type 0
    IsTold =
        (has_password ≡ true)
        × (ticked.1 ≡ connected has_password g ++ (accept ticked.0.admit ∷ []))
        × ((is_above (refresh_snap d first t.admit) t.admit ≡ false)
            ⊎ ((allocates ≡ false) ⊎ (g.clients ≡ none)))

    -- The gateway is shut and the clients of a first part of its sorted list are killed: the measurement is
    -- above what is allowed. Where the DATUM gateways alone are above the cap, the part is the whole list.
    pub record IsShed : Type 0 where
      pub known : is_known (refresh_snap d first t.admit) ≡ true
      pub above : is_above (refresh_snap d first t.admit) t.admit ≡ true
      pub has_key : has_password ≡ true
      pub shut : ticked.0.admit ≡ false
      pub listed : List (CapClient F)
      pub lists : g.clients ≡ some listed
      pub asked : List (CapClient F)
      pub spared : List (CapClient F)
      pub split : qsort listed ≡ asked ++ spared
      pub sent :
          ticked.1
          ≡ connected has_password g
            ++ (accept false ∷ note_connected (u32 (length (qsort listed))) ∷ map kill asked)
      pub whole :
          (d.gt (datum_fraction (refresh_snap d first t.admit)) (d.hundredths 25) ≡ false)
          ⊎ (spared ≡ [])

    measured : Snap F
    measured = refresh_snap d first t.admit

    policy : Policy
    policy = cap_policy d measured.pool_fraction (datum_fraction measured) t.admit

    unknown_tick :
        (not measured.have_nethash || d.le measured.network_hs (d.of_u64 0)) ≡ true
        → ticked.1 ≡ connected has_password g
    unfolding tick measured
    unknown_tick unknown = rw unknown refl

    known_tick :
        (not measured.have_nethash || d.le measured.network_hs (d.of_u64 0)) ≡ false
        → (ticked.1
            ≡ connected has_password g
              ++ (enforce d qsort has_password allocates g again
                  (record t { snap = measured })
                  measured
                  policy).1)
          × (ticked.0.admit ≡ policy.admit)
    unfolding tick measured policy
    known_tick known =
        let t' = record t { snap = measured } in
        rw known
          (refl, enforce-admit d qsort allocates g first again has_password t' measured policy)

    told_tick :
        has_password ≡ true
        → is_known measured ≡ true
        → ticked.1
          ≡ connected has_password g
            ++ (accept policy.admit
                ∷ (if policy.need_shed
                    then shed_clients d qsort allocates g measured policy.kick_all
                    else []))
        → ticked.0.admit ≡ policy.admit
        → IsTold ⊎ IsShed
    unfolding measured policy
    told_tick has_key known sends admits =
        let (sheds, shut, all) = policy_lem measured t.admit in
        let tell = λ (b : Bool) (l : List (Action F)). connected has_password g ++ (accept b ∷ l) in
        elim (Bool-cases policy.need_shed) [
          | inr low ↦ inl (has_key, rw (low, ← admits) at sends, inl (sym sheds ∙ low))
          | inl high ↦ elim (shed_cases qsort allocates g measured policy.kick_all) [
            | inl (missing, why) ↦ inl (has_key, rw (high, missing, ← admits) at sends, inr why)
            | inr killed ↦
                let is_shut : policy.admit ≡ false = ground (arith, shut, high) in
                inr (record {
                  known = known;
                  above = sym sheds ∙ high;
                  has_key = has_key;
                  shut = admits ∙ is_shut;
                  listed = killed.listed;
                  lists = killed.lists;
                  asked = killed.asked;
                  spared = killed.spared;
                  split = killed.split;
                  sent = rw (high, killed.sent, is_shut) at sends;
                  whole = ground (arith, all, killed.whole);
                })
          ]
        ]

    -- A tick kills clients only where the measurement is above what is allowed; it then shuts the gateway, and
    -- kills a first part of its sorted list, which is the whole list where the DATUM gateways alone are above
    -- the cap. Every other tick is silent or only tells the gateway the admission, and why is one of the
    -- reasons of `IsSilent` or `IsTold`.
    pub tick_lem : IsSilent ⊎ (IsTold ⊎ IsShed)
    unfolding measured policy
    tick_lem =
        let t' = record t { snap = measured } in
        let (sheds, shut, all) = policy_lem measured t.admit in
        elim (Bool-cases (not measured.have_nethash || d.le measured.network_hs (d.of_u64 0))) [
          | inl unknown ↦ inl (unknown_tick unknown, inl (ground (arith, unknown)))
          | inr known ↦
              let (sends, admits) = known_tick known in
              let is_known : is_known measured ≡ true = ground (arith, known) in
              elim (enforce_cases qsort allocates g again has_password t' measured policy) [
                | inl (quiet, why) ↦ inl (
                  sends
                      ∙ ap (λ (l : List (Action F)). connected has_password g ++ l) quiet
                      ∙ append-nil (connected has_password g),
                  inr (elim why [
                    | inl no_key ↦ inl no_key
                    | inr (synced, same) ↦ inr (synced, admits ∙ same)
                  ]),
                )
                | inr (has_key, told) ↦ inr (
                    told_tick has_key is_known
                      (sends ∙ ap (λ (l : List (Action F)). connected has_password g ++ l) told)
                      admits)
              ]
        ]
