-- ===== src/Abw/Rotation.antt =====
-- The active slot always has a key that was never revealed, and a rotation keeps the keys of the others.
use c_datum_prime.Common.{ℕ, ◌+◌, ◌%◌, ◌<◌, ◌≡◌, ◌≢◌, refl, sym, ◌∙◌, ◌⊎◌, inl, inr}
use c_datum_prime.Common.{Bool, true, false, not, ◌&&◌, ◌||◌, ◌==◌, ltb, Bool-cases, some}
use c_datum_prime.Common.{List, [], ◌∷◌}
use c_datum_prime.Common.{arith}
use c_datum_prime.Wire.{u8, u64}
use c_datum_prime.Abw.{
  abw_slots, rotate_shares, Abw, set_slot, seed_slot, abw_start, resumed_slot, abw_resumed, abw_key,
  due_reveals, make_way, rotate, on_share,
}
use c_datum_prime.Abw.Keys.{reveal_slot-Revealed, due_reveals_lem}

-- The active slot exists, has a key, and that key was not revealed.
pub record IsActive (a : Abw) : Type 0 where
  pub inside : a.active < abw_slots
  pub has_key : (a.slots a.active).have_key ≡ true
  pub hidden : (a.slots a.active).have_revealed ≡ false

abw_start-IsActive : (after : ℕ) (random : List ℕ) (now : ℕ) → IsActive (abw_start after random now)
unfolding abw_start seed_slot set_slot
abw_start-IsActive after random now = record { inside = omega arith; has_key = refl; hidden = refl }

abw_resumed-IsActive : (a : Abw) (now : ℕ) → IsActive a → IsActive (abw_resumed a now)
unfolding abw_resumed resumed_slot
abw_resumed-IsActive a now v =
    let (inside, has_key, hidden) : (a.active < abw_slots)
        × ((a.slots a.active).have_key ≡ true)
        × ((a.slots a.active).have_revealed ≡ false) =
      (v.inside, v.has_key, v.hidden) in
    record { inside = inside; has_key = ground arith; hidden = ground arith }

module _ (gets : ℕ → Bool) where
  due_reveals-IsActive : (a : Abw) (now : ℕ) → IsActive a → IsActive (due_reveals gets a now).0
  due_reveals-IsActive a now v =
      let (keys, same, slot, wires) = due_reveals_lem gets a now in
      record {
        inside = omega (arith, v.inside);
        has_key = rw (same, slot) v.has_key;
        hidden = rw (same, slot) v.hidden;
      }

  module _ (key_hash : List ℕ → List ℕ) where
    -- The message aside, the next slot is made free: the keys, and the slots but for the next.
    make_way_lem :
        (a : Abw) (next : ℕ)
        → let a' = (make_way gets key_hash a next).0 in
          (a'.active ≡ a.active) × ((i : ℕ) → i ≢ next → a'.slots i ≡ a.slots i)
    unfolding make_way
    make_way_lem a next =
        let r = reveal_slot-Revealed gets a next in
        let b : Bool =
          (a.slots next).have_key
          || ((a.slots next).have_revealed && not ((a.slots next).retired_at == 0)) in
        elim (Bool-cases b) [
          | inl used ↦ rw (used, make_way) (r.active, r.others)
          | inr free ↦ rw (free, make_way) (refl, λ i ne. refl)
        ]

    on_share-IsActive :
        (a : Abw) (random : List ℕ) (now : ℕ)
        → IsActive a
        → IsActive (on_share gets key_hash a random now).0
    unfolding on_share rotate seed_slot set_slot
    on_share-IsActive a random now v =
        elim (Bool-cases
          (ltb (u64 (a.shares + 1)) rotate_shares && ltb now (a.activated_at + 600))) [
            | inl same ↦
                rw (same, on_share)
                  (record { inside = v.inside; has_key = v.has_key; hidden = v.hidden })
            | inr over ↦
                rw (over, on_share)
                  (record { inside = omega arith; has_key = ground arith; hidden = ground arith })
          ]

    rotate_lem :
        (a : Abw) (random : List ℕ) (now : ℕ)
        → let a' = rotate gets key_hash a random now in
          (a'.active ≡ (a.active + 1) % abw_slots)
          × (abw_key a' ((a.active + 1) % abw_slots) ≡ some random)
          × ((i : ℕ) → i ≢ (a.active + 1) % abw_slots → abw_key a' i ≡ abw_key a i)
    unfolding rotate seed_slot set_slot abw_key
    rotate_lem a random now =
        let next : ℕ = u8 ((a.active + 1) % abw_slots) in
        let same : next ≡ (a.active + 1) % abw_slots = omega arith in
        let others = (make_way_lem a next).1 in
        (
          same,
          ground arith,
          λ i ne.
              (let there = others i (λ e. ne (e ∙ same)) in
                elim (Bool-cases (i == a.active)) [
                  | inl old ↦ ground (arith, there)
                  | inr other ↦ ground (arith, there)
                ]),
        )

    -- A share leaves every key as it is, or the next slot becomes active
    -- with the new random key, and every other slot keeps the key that it had.
    pub on_share_lem :
        (a : Abw) (random : List ℕ) (now : ℕ)
        → let a' = (on_share gets key_hash a random now).0 in
          ((a'.active ≡ a.active) × ((i : ℕ) → abw_key a' i ≡ abw_key a i))
          ⊎ ((a'.active ≡ (a.active + 1) % abw_slots)
              × (abw_key a' a'.active ≡ some random)
              × ((i : ℕ) → i ≢ a'.active → abw_key a' i ≡ abw_key a i))
    unfolding on_share abw_key
    on_share_lem a random now =
        elim (Bool-cases
          (ltb (u64 (a.shares + 1)) rotate_shares && ltb now (a.activated_at + 600))) [
            | inl same ↦ rw (same, on_share) (inl (refl, λ i. refl))
            | inr over ↦
                let counted : Abw = record a { shares = u64 (a.shares + 1) } in
                let (next, key, others) = rotate_lem counted random now in
                rw (over, on_share)
                  (inr (next, rw next key, λ i ne. others i (λ e. ne (e ∙ sym next))))
          ]

    -- What happens to the slots of a connection.
    pub data Event : Type 0 where
      share : List ℕ → ℕ → Event
      due : ℕ → Event
      resume : ℕ → Event

    unfoldable pub after_events : List Event → Abw → Abw
    after_events [] a = a
    after_events (share random now ∷ es) a = after_events es (on_share gets key_hash a random now).0
    after_events (due now ∷ es) a = after_events es (due_reveals gets a now).0
    after_events (resume now ∷ es) a = after_events es (abw_resumed a now)

    after_events-IsActive : (es : List Event) (a : Abw) → IsActive a → IsActive (after_events es a)
    unfolding after_events
    after_events-IsActive [] a v = v
    after_events-IsActive (share random now ∷ es) a v =
        after_events-IsActive es (on_share gets key_hash a random now).0
          (on_share-IsActive a random now v)
    after_events-IsActive (due now ∷ es) a v =
        after_events-IsActive es (due_reveals gets a now).0 (due_reveals-IsActive a now v)
    after_events-IsActive (resume now ∷ es) a v =
        after_events-IsActive es (abw_resumed a now) (abw_resumed-IsActive a now v)

    -- From the start of a connection, after any shares, reveals and resumptions, at any times and whatever
    -- `malloc` answers, the active slot exists and has a key that was not revealed.
    pub abw_start-after_events :
        (after : ℕ) (random : List ℕ) (now : ℕ) (es : List Event)
        → IsActive (after_events es (abw_start after random now))
    abw_start-after_events after random now es =
        after_events-IsActive es (abw_start after random now) (abw_start-IsActive after random now)
