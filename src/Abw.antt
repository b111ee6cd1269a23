-- ===== src/Abw.antt =====
-- src/abw.c: the slots of keys that mask the work of a connection. One slot is active; a slot that was
-- replaced has its key revealed later. Times are seconds as natural numbers; the time and the random
-- key are arguments, and so is what `malloc` answers for a size.
pub mod Keys
pub mod Rotation
pub mod Mask
pub mod Notices
mod Examples
use c_datum_prime.Common.{
  ℕ, zero, suc, ◌+◌, ◌-◌, ◌*◌, ◌/◌, ◌%◌, ◌^◌, ◌≤◌, ◌<◌, min, ◌≡◌, ◌≢◌, refl, sym, ap, ◌∙◌, ◌↔◌, ◌⊎◌,
  inl, inr,
}
use c_datum_prime.Common.{
  Bool, true, false, not, ◌&&◌, ◌||◌, ◌==◌, ltb, leb, if◌then◌else◌, Bool-cases, Option-cases,
  Option, none, some,
}
use c_datum_prime.Common.{
  List, [], ◌∷◌, ◌++◌, map, reverse, length, get_elem?, get_or, set, take, drop, replicate, All,
  All-append, append_assoc, append-nil,
}
use c_datum_prime.Common.{
  length-append, length-take, length-drop, take-append-drop, take-length-append, drop-length-append,
  arith, bit_and, bit_or, bit_xor, ==_iff, zero-add, suc-add, add-zero, add_assoc, add_comm,
  mod-eq_of_lt,
}
use c_datum_prime.Wire.{u8, u32, u64}

abbrev pub abw_slots : ℕ
abw_slots = 16

abbrev pub rotate_shares : ℕ
rotate_shares = 16384

abbrev pub abw_reveal : ℕ
abw_reveal = 0xA9

abbrev pub abw_notice : ℕ
abw_notice = 0xA8

abbrev pub abw_receipt : ℕ
abw_receipt = 0xA5

abbrev pub struct_end : ℕ
struct_end = 0xFE

-- One index of the arrays of `prime_abw`.
pub record Slot : Type 0 where
  pub have_key : Bool
  pub key : List ℕ
  pub have_revealed : Bool
  pub revealed : List ℕ
  pub retired_at : ℕ
  pub retired_sent : Bool

-- `prime_abw`.
pub record Abw : Type 0 where
  pub slots : ℕ → Slot
  pub active : ℕ
  pub shares : ℕ
  pub activated_at : ℕ
  pub reveal_after_sec : ℕ

abbrev pub no_key : List ℕ
no_key = replicate 16 0

unfoldable pub set_slot : (ℕ → Slot) → ℕ → Slot → ℕ → Slot
set_slot slots at s i = if i == at then s else slots i

unfoldable pub seed_slot : Abw → ℕ → List ℕ → ℕ → Abw
seed_slot a slot random now = record a {
  slots = set_slot a.slots slot (record {
    have_key = true;
    key = random;
    have_revealed = false;
    revealed = no_key;
    retired_at = 0;
    retired_sent = false;
  });
  active = slot;
  shares = 0;
  activated_at = now;
}

abbrev pub empty_slot : Slot
empty_slot = record {
  have_key = false;
  key = no_key;
  have_revealed = false;
  revealed = no_key;
  retired_at = 0;
  retired_sent = false;
}

-- `prime_abw_start`.
unfoldable pub abw_start : ℕ → List ℕ → ℕ → Abw
abw_start reveal_after_sec random now =
    seed_slot
      (record {
        slots = λ i. empty_slot;
        active = 0;
        shares = 0;
        activated_at = 0;
        reveal_after_sec = if reveal_after_sec == 0 then 300 else reveal_after_sec;
      })
      0 random now

-- One round of the loop of `prime_abw_resumed`: the second test reads what the first left.
unfoldable pub resumed_slot : Slot → Bool → ℕ → Slot
resumed_slot s is_active now =
    let s' : Slot = if s.have_key && not is_active then record s { retired_at = now } else s in
    if s'.have_revealed && not s'.have_key
    then record s' { retired_at = now; retired_sent = true }
    else s'

-- `prime_abw_resumed`. Slots from 16 on do not exist.
unfoldable pub abw_resumed : Abw → ℕ → Abw
abw_resumed a now = record a {
  slots = λ i. if ltb i abw_slots then resumed_slot (a.slots i) (i == a.active) now else a.slots i;
  activated_at = now;
}

-- `prime_abw_key`; `none` is its -1.
unfoldable pub abw_key : Abw → ℕ → Option (List ℕ)
abw_key a slot =
    if ltb slot abw_slots
    then (if (a.slots slot).have_key
        then some (a.slots slot).key
        else if (a.slots slot).have_revealed
        then some (a.slots slot).revealed
        else none)
    else none

module _ (gets : ℕ → Bool) where
  -- `prime_abw_encode_reveal`.
  unfoldable pub encode_reveal : ℕ → List ℕ → Option (List ℕ)
  encode_reveal slot key =
      if gets 20 then some (abw_reveal ∷ 0 ∷ slot ∷ (key ++ (struct_end ∷ []))) else none

  -- `prime_abw_encode_receipt`.
  unfoldable pub encode_receipt : ℕ → List ℕ → Option (List ℕ)
  encode_receipt slot raw_le =
      if gets 36 then some (abw_receipt ∷ 0 ∷ slot ∷ (raw_le ++ (struct_end ∷ []))) else none

  -- `reveal_slot`: the slots as left, and the message; `none` is its -1.
  unfoldable pub reveal_slot : Abw → ℕ → Abw × Option (List ℕ)
  reveal_slot a slot =
      let s = a.slots slot in
      if s.retired_sent && s.have_revealed
      then (
        record a {
          slots = set_slot a.slots slot (record s { retired_at = 0; retired_sent = false });
        },
        encode_reveal slot s.revealed,
      )
      else if s.have_key
      then (
        record a {
          slots = set_slot a.slots slot (record s {
            revealed = s.key;
            have_revealed = true;
            have_key = false;
            key = no_key;
            retired_at = 0;
            retired_sent = false;
          });
        },
        encode_reveal slot s.key,
      )
      else (a, none)

  -- The rounds left of the loop of `prime_abw_due_reveals`, and the slot.
  unfoldable pub due_loop : ℕ → ℕ → Abw → ℕ → Abw × List (List ℕ)
  due_loop zero slot a now = (a, [])
  due_loop (suc rounds) slot a now =
      let s = a.slots slot in
      let (a', wire) = reveal_slot a slot in
      let skipped = due_loop rounds (slot + 1) a now in
      let rest = due_loop rounds (slot + 1) a' now in
      if slot == a.active
        || s.retired_at == 0
        || ltb (u32 (now + 2 ^ 64 - s.retired_at)) a.reveal_after_sec
      then skipped
      else elim wire [ none ↦ rest | some w ↦ (rest.0, w ∷ rest.1) ]

  -- `prime_abw_due_reveals`: the slots as left, and the messages; `none` is its -1, when the messages
  -- are lost.
  unfoldable pub due_reveals : Abw → ℕ → Abw × Option (List (List ℕ))
  due_reveals a now =
      let (a', wires) = due_loop abw_slots 0 a now in
      (a', if length wires == 0 || gets (length wires * 8) then some wires else none)

  -- `key_hash` is `prime_xor_key_hash`.
  module _ (key_hash : List ℕ → List ℕ) where
    -- `prime_abw_encode_notice`; `none` is its -1.
    unfoldable pub encode_notice : Abw → ℕ → Bool → Option (List ℕ)
    encode_notice a slot is_active =
        if ltb slot abw_slots && (a.slots slot).have_key && gets 37
        then some (
            abw_notice
            ∷ 0
            ∷ (if is_active then 1 else 0)
            ∷ slot
            ∷ (key_hash (a.slots slot).key ++ (struct_end ∷ [])))
        else none

    -- The rotation in `prime_abw_on_share`: the message that the next slot's old key may need.
    unfoldable pub make_way : Abw → ℕ → Abw × List ℕ
    make_way a next =
        let s = a.slots next in
        let (a', wire) = reveal_slot a next in
        if s.have_key || (s.have_revealed && not (s.retired_at == 0))
        then (a', elim wire [ none ↦ [] | some w ↦ w ])
        else (a, [])

    -- The slots after a rotation.
    unfoldable pub rotate : Abw → List ℕ → ℕ → Abw
    rotate a random now =
        let next : ℕ = u8 ((a.active + 1) % abw_slots) in
        let a' = (make_way a next).0 in
        seed_slot
          (record a' {
            slots =
                set_slot a'.slots a.active
                  (record (a'.slots a.active) { retired_at = now; retired_sent = false });
          })
          next random now

    -- `prime_abw_on_share`: the slots as left, and the message to send: `some []` when there is none,
    -- `none` for -1.
    unfoldable pub on_share : Abw → List ℕ → ℕ → Abw × Option (List ℕ)
    on_share a random now =
        let counted = record a { shares = u64 (a.shares + 1) } in
        let next : ℕ = u8 ((a.active + 1) % abw_slots) in
        let reveal = (make_way counted next).1 in
        let a' = rotate counted random now in
        if ltb counted.shares rotate_shares && ltb now (a.activated_at + 600)
        then (counted, some [])
        else (
          a',
          elim (encode_notice a' next true) [
            | none ↦ none
            | some notice ↦
                if gets (length reveal + length notice) then some (reveal ++ notice) else none
          ],
        )
