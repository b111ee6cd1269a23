-- ===== src/Mining/Handle.antt =====
-- A mining message of a connection, and the frames that answer it (src/mining.c: `prime_handle_mining`,
-- `append_mining`, `send_parent_fetch`). `encrypt` is `prime_session_encrypt` of src/handshake.c for a
-- mining payload: the session behind it, and the frame or `none` for -1. `random` is the key that
-- libsodium gives for a rotation, and `address_script` is `prime_address_script` of src/address.c.
pub mod Kept
use c_datum_prime.Common.{ℕ, ◌+◌}
use c_datum_prime.Common.{Bool, true, false, ◌&&◌, ◌||◌, ◌==◌, if◌then◌else◌, Option, none, some}
use c_datum_prime.Common.{List, [], ◌∷◌, ◌++◌, length}
use c_datum_prime.Wire.{byte_at}
use c_datum_prime.Ledger.Types.{Text}
use c_datum_prime.Abw.{Abw, due_reveals, encode_receipt}
use c_datum_prime.Abw
use c_datum_prime.Abw.Mask.{xor_key_hash}
use c_datum_prime.Mining.{Mining, Opts}
use c_datum_prime.Mining.Coinbaser.{coinbaser_req, on_coinbaser}
use c_datum_prime.Mining.Block.{Node, World}
use c_datum_prime.Mining.Share.{submit_pow}
use c_datum_prime.Mining.Share.Judge.{slot_of, Done, on_share}
use c_datum_prime.Mining.Validation.{validation, on_validation}

-- `PRIME_VAL_REQ_BLOCK_TXNS` and `PRIME_VAL_REQ_PARENT`.
abbrev pub val_req_block_txns : ℕ
val_req_block_txns = 0x12

abbrev pub val_req_parent : ℕ
val_req_parent = 0x14

module _ {ℓ} (Session : Type ℓ) (encrypt : Session → List ℕ → Session × Option (List ℕ))
    (gets : ℕ → Bool) where
  -- One more frame, unless it cannot be encrypted or has no room.
  unfoldable pub append_mining : Session × List ℕ → List ℕ → Session × List ℕ
  append_mining (s, wire) payload =
      let (s', frame) = encrypt s payload in
      if length payload == 0 then (s, wire) else elim frame [
        | none ↦ (s', wire)
        | some f ↦
            if length wire == 0 || gets (length wire + length f)
            then (s', wire ++ f)
            else (s', wire)
      ]

  unfoldable pub append_all : Session × List ℕ → List (List ℕ) → Session × List ℕ
  append_all out [] = out
  append_all out (m ∷ messages) = append_all (append_mining out m) messages

  -- `send_parent_fetch`.
  unfoldable pub send_parent_fetch : Session × List ℕ → Mining → (Session × List ℕ) × Mining
  send_parent_fetch out st =
      if st.want_parent
      then (
        append_mining out (validation ∷ val_req_parent ∷ st.parent_job ∷ st.parent_need),
        record st { want_parent = false },
      )
      else (out, st)

-- What the handler leaves, and whether it returns 0.
pub record Handled {ℓ} (Session : Type ℓ) : Type ℓ where
  pub world : World
  pub st : Mining
  pub session : Session
  pub wire : List ℕ
  pub ok : Bool

module _ (sha256 : List ℕ → List ℕ) (gets : ℕ → Bool) where
  -- The messages behind an accepted share's response, and the slots as left.
  unfoldable pub slot_messages : Mining → List ℕ → ℕ → Abw × List (List ℕ)
  slot_messages st random now =
      let receipt : List (List ℕ) =
        if st.last_candidate
        then elim st.last_raw_le [
          | none ↦ []
          | some raw_le ↦ elim (encode_receipt gets (slot_of st) raw_le) [
            | none ↦ []
            | some m ↦ m ∷ []
          ]
        ]
        else [] in
      let (rotated, rotation) = Abw.on_share gets (xor_key_hash sha256 gets) st.abw random now in
      let (revealed, reveals) = due_reveals gets rotated now in
      (
        revealed,
        receipt
            ++ (elim rotation [ none ↦ [] | some m ↦ m ∷ [] ]
                ++ elim reveals [ none ↦ [] | some ms ↦ ms ]),
      )

module _ {ℓ} (Session : Type ℓ) (encrypt : Session → List ℕ → Session × Option (List ℕ))
    (sha256 blake2b : List ℕ → List ℕ) (gets : ℕ → Bool) (node : Node)
    (address_script : Text → Option (List ℕ)) where
  -- The answer to a request for a coinbaser.
  unfoldable pub answer_coinbaser :
      Session → World → Mining → Opts → ℕ → List ℕ → List ℕ → Handled Session
  answer_coinbaser s w st opt now stale plain =
      let (st', payload) =
        on_coinbaser gets address_script node.parent_have st opt w.pool now stale plain in
      elim payload [
        | none ↦ record { world = w; st = st'; session = s; wire = []; ok = false }
        | some m ↦
            let (s', frame) = encrypt s m in
            elim frame [
              | none ↦ record { world = w; st = st'; session = s'; wire = []; ok = false }
              | some f ↦
                  let (out, st'') = send_parent_fetch Session encrypt gets (s', f) st' in
                  record { world = w; st = st''; session = out.0; wire = out.1; ok = true }
            ]
      ]

  -- The frames behind the response to a share.
  unfoldable pub after_share : Session × List ℕ → Done → List ℕ → ℕ → (Session × List ℕ) × Mining
  after_share out d random now =
      let is_masked : Bool = d.st.last_accepted && d.st.abw_on in
      let (slots, messages) = slot_messages sha256 gets d.st random now in
      let st' = if is_masked then record d.st { abw = slots } else d.st in
      let told = if is_masked then append_all Session encrypt gets out messages else out in
      let asked : Session × List ℕ = elim d.want_txns [
        | none ↦ told
        | some job ↦
            append_mining Session encrypt gets told (validation ∷ val_req_block_txns ∷ job ∷ [])
      ] in
      send_parent_fetch Session encrypt gets asked st'

  -- The answer to a share.
  unfoldable pub answer_share :
      Session → World → Mining → Opts → ℕ → List ℕ → List ℕ → Handled Session
  answer_share s w st opt now random plain =
      let d = on_share sha256 blake2b gets node w st opt now plain in
      elim d.payload [
        | none ↦ record { world = d.world; st = d.st; session = s; wire = []; ok = false }
        | some m ↦
            let (s', frame) = encrypt s m in
            elim frame [
              | none ↦ record { world = d.world; st = d.st; session = s'; wire = []; ok = false }
              | some f ↦
                  let (out, st') = after_share (s', f) d random now in
                  record { world = d.world; st = st'; session = out.0; wire = out.1; ok = true }
            ]
      ]

  -- `prime_handle_mining` at the time `now`.
  unfoldable pub handle_mining :
      Session → World → Mining → Opts → ℕ → List ℕ → List ℕ → List ℕ → Handled Session
  handle_mining s w st opt now random stale plain =
      let quiet : Handled Session = record {
        world = w;
        st = st;
        session = s;
        wire = [];
        ok = true;
      } in
      let (w', st', ok) = on_validation sha256 gets node w st opt now plain in
      let coinbaser = answer_coinbaser s w st opt now stale plain in
      let share = answer_share s w st opt now random plain in
      if length plain == 0
      then quiet
      else if byte_at plain 0 == coinbaser_req
      then coinbaser
      else if byte_at plain 0 == submit_pow
      then share
      else if byte_at plain 0 == validation
      then record { world = w'; st = st'; session = s; wire = []; ok = ok }
      else quiet
