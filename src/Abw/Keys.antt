-- ===== src/Abw/Keys.antt =====
-- Revealing a slot does not change the key that its shares are checked with.
use c_datum_prime.Common.{ℕ, zero, suc, ◌+◌, ◌-◌, ◌*◌, ◌^◌, ◌≡◌, ◌≢◌, refl, sym, ◌∙◌, inl, inr}
use c_datum_prime.Common.{
  Bool, true, false, ◌||◌, ◌==◌, ltb, if◌then◌else◌, Bool-cases, Option-cases, Option, none, some,
}
use c_datum_prime.Common.{List, [], ◌∷◌, length, All}
use c_datum_prime.Common.{arith}
use c_datum_prime.Wire.{u32, byte_at}
use c_datum_prime.Abw.{
  abw_slots, Abw, set_slot, abw_key, encode_reveal, reveal_slot, due_loop, due_reveals,
}

-- A message that names a slot at its third byte.
abbrev pub slot_of : List ℕ → ℕ
slot_of wire = byte_at wire 2

abbrev pub IsOf : ℕ → Option (List ℕ) → Type 0
IsOf slot none = Unit
IsOf slot (some wire) = slot_of wire ≡ slot

module _ (gets : ℕ → Bool) where
  -- What `reveal_slot` leaves: the other slots as they are, this one's key, and its number in the message.
  pub record Revealed (a a' : Abw) (slot : ℕ) (wire : Option (List ℕ)) : Type 0 where
    pub keys : (i : ℕ) → abw_key a' i ≡ abw_key a i
    pub others : (i : ℕ) → i ≢ slot → a'.slots i ≡ a.slots i
    pub active : a'.active ≡ a.active
    pub names : IsOf slot wire

  pub reveal_slot-Revealed :
      (a : Abw) (slot : ℕ) → Revealed a (reveal_slot gets a slot).0 slot (reveal_slot gets a slot).1
  unfolding reveal_slot encode_reveal set_slot abw_key
  reveal_slot-Revealed a slot = record {
    keys = λ i. ground arith;
    others = λ i ne. ground arith;
    active = ground arith;
    names = ground arith;
  }

  -- What the loop leaves.
  record Checked (a a' : Abw) (wires : List (List ℕ)) : Type 0 where
    all_keys : (i : ℕ) → abw_key a' i ≡ abw_key a i
    same_active : a'.active ≡ a.active
    active_slot : a'.slots a.active ≡ a.slots a.active
    none_active : All (λ (w : List ℕ). slot_of w ≢ a.active) wires

  Checked-step :
      (a a' b : Abw) (slot : ℕ) (wire : Option (List ℕ)) (wires : List (List ℕ))
      → slot ≢ a.active
      → Revealed a a' slot wire
      → Checked a' b wires
      → Checked a b (elim wire [ none ↦ wires | some w ↦ w ∷ wires ])
  Checked-step a a' b slot wire wires ne r c = record {
    all_keys = λ i. c.all_keys i ∙ r.keys i;
    same_active = c.same_active ∙ r.active;
    active_slot = rw r.active at c.active_slot ∙ r.others a.active (λ e. ne (sym e));
    none_active = sent wire r.names (rw r.active at c.none_active);
  }
    where
      sent :
          (o : Option (List ℕ))
          → IsOf slot o
          → All (λ (w : List ℕ). slot_of w ≢ a.active) wires
          → All
              (λ (w : List ℕ). slot_of w ≢ a.active)
              (elim o [ none ↦ wires | some w ↦ w ∷ wires ])
      sent none n h = h
      sent (some w) n h = (λ e. ne (sym n ∙ e), h)

  due_loop-Checked :
      (rounds slot : ℕ) (a : Abw) (now : ℕ)
      → Checked a (due_loop gets rounds slot a now).0 (due_loop gets rounds slot a now).1
  unfolding due_loop
  due_loop-Checked zero slot a now = record {
    all_keys = λ i. refl;
    same_active = refl;
    active_slot = refl;
    none_active = tt;
  }
  due_loop-Checked (suc rounds) slot a now =
      let r = reveal_slot-Revealed a slot in
      let a' = (reveal_slot gets a slot).0 in
      let rest = due_loop-Checked rounds (slot + 1) a' now in
      let skipped = due_loop-Checked rounds (slot + 1) a now in
      elim (Bool-cases (
        slot == a.active
        || (a.slots slot).retired_at == 0
        || ltb (u32 (now + 2 ^ 64 - (a.slots slot).retired_at)) a.reveal_after_sec)) [
          | inl skip ↦ rw (skip, due_loop) skipped
          | inr due ↦
              let ne : slot ≢ a.active = ground arith in
              let step =
                Checked-step a a' (due_loop gets rounds (slot + 1) a' now).0 slot
                  (reveal_slot gets a slot).1 (due_loop gets rounds (slot + 1) a' now).1 ne r
                  rest in
              elim (Option-cases (reveal_slot gets a slot).1) [
                | inl unsent ↦ rw (due, unsent, due_loop) (rw unsent at step)
                | inr (w, e) ↦ rw (due, e, due_loop) (rw e at step)
              ]
        ]

  -- Whatever slots are due, revealing them sends no message about the active slot and leaves it as it is,
  -- and every slot still has the key that it had: a share that comes late is checked with the same key.
  pub due_reveals_lem :
      (a : Abw) (now : ℕ)
      → let (a', wires) = due_reveals gets a now in
        ((i : ℕ) → abw_key a' i ≡ abw_key a i)
        × (a'.active ≡ a.active)
        × (a'.slots a.active ≡ a.slots a.active)
        × All (λ (w : List ℕ). slot_of w ≢ a.active) (elim wires [ none ↦ [] | some ws ↦ ws ])
  unfolding due_reveals
  due_reveals_lem a now =
      let c = due_loop-Checked abw_slots 0 a now in
      let wires = (due_loop gets abw_slots 0 a now).1 in
      (
        c.all_keys,
        c.same_active,
        c.active_slot,
        kept (length wires == 0 || gets (length wires * 8)) wires c.none_active,
      )
    where
      kept :
          (b : Bool) (wires : List (List ℕ))
          → All (λ (w : List ℕ). slot_of w ≢ a.active) wires
          → All
              (λ (w : List ℕ). slot_of w ≢ a.active)
              (elim (if b then some wires else none) [ none ↦ [] | some ws ↦ ws ])
      kept true wires h = h
      kept false wires h = tt
