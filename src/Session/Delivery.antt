-- ===== src/Session/Delivery.antt =====
-- A run of messages through a channel.
use c_datum_prime.Common.{ℕ, ◌+◌, ◌≤◌, ◌<◌, ◌≡◌, refl, ap, ◌∙◌}
use c_datum_prime.Common.{Bool, true, false, ltb, Option, none, some}
use c_datum_prime.Common.{List, [], ◌∷◌, ◌++◌, map, take, drop, All}
use c_datum_prime.Common.{arith}
use c_datum_prime.Framing.{max_cmd_len, ratchet_mask, increment_nonce}
use c_datum_prime.Session.{
  Sodium, Session, mac_bytes, room, plain_len, channel_header, signed, frame, encrypt, Frame,
  opened, read_frame,
}
use c_datum_prime.Session.Channel.{IsSodium, IsPeer, room_le, read_frame-encrypt}

-- A message: its command, its payload, and whether it is signed.
abbrev pub Message : Type 0
Message = ℕ × List ℕ × Bool

-- The command has five bits, and the frame fits its length field.
abbrev pub IsMessage : Message → Type 0
IsMessage (cmd, payload, sign) = (cmd < 32) × (plain_len payload sign + mac_bytes ≤ max_cmd_len)

-- libsodium does not fail, and no buffer up to a whole frame is refused.
pub record Works (sodium : Sodium) (gets : ℕ → Bool) : Type 0 where
  pub is_sodium : IsSodium sodium
  pub signs : (m sk : List ℕ) → (sig : List ℕ) × (sodium.sign_detached m sk ≡ some sig)
  pub seals :
      (m nonce key : List ℕ) → (ct : List ℕ) × (sodium.box_easy_afternm m nonce key ≡ some ct)
  pub has : (n : ℕ) → n ≤ max_cmd_len + 4 → gets n ≡ true

module _ (sodium : Sodium) (gets : ℕ → Bool) where
  -- What one end sends, in order; `none` where a message cannot be encrypted.
  unfoldable pub send_all : Session → List Message → Option (Session × List (List ℕ))
  send_all s [] = some (s, [])
  send_all s ((cmd, payload, sign) ∷ messages) =
      let (s', wire) = encrypt sodium gets s cmd payload sign in
      elim wire [
        | none ↦ none
        | some w ↦ elim (send_all s' messages) [
          | none ↦ none
          | some (s'', wires) ↦ some (s'', w ∷ wires)
        ]
      ]

  -- What the other end reads of it.
  unfoldable pub read_all : Session → List (List ℕ) → List Frame
  read_all r [] = []
  read_all r (wire ∷ wires) =
      let (r', f) = read_frame sodium gets r (take 4 wire) (λ n. some (take n (drop 4 wire))) in
      f ∷ read_all r' wires

  signed_total :
      (s : Session) (payload : List ℕ) (sign : Bool)
      → Works sodium gets
      → (plain : List ℕ) × (signed sodium gets s payload sign ≡ some plain)
  unfolding signed
  signed_total s payload false works = (payload, refl)
  signed_total s payload true works =
      let (sig, e) = works.signs payload s.session_sign_sk in (payload ++ sig, rw e refl)

  pub encrypt_total :
      (s : Session) (cmd : ℕ) (payload : List ℕ) (sign : Bool)
      → Works sodium gets
      → s.ready ≡ true
      → plain_len payload sign + mac_bytes ≤ max_cmd_len
      → (s' : Session) × (wire : List ℕ) × (encrypt sodium gets s cmd payload sign
          ≡ (s', some wire))
  unfolding encrypt frame
  encrypt_total s cmd payload sign works ready small =
      let ct_len : ℕ = plain_len payload sign + mac_bytes in
      let (plain, plain_is) = signed_total s payload sign works in
      let (ct, ct_is) = works.seals plain s.tx_nonce s.precomp in
      let fits : ltb max_cmd_len ct_len ≡ false = ground arith in
      let has1 =
        works.has (room (plain_len payload sign))
          (room_le (plain_len payload sign) (max_cmd_len + 4) (omega arith) (omega arith)) in
      let has2 = works.has ct_len (omega arith) in
      let has3 = works.has (4 + ct_len) (omega arith) in
      let h = channel_header ct_len sign cmd in
      (
        record s {
          tx_nonce = increment_nonce s.tx_nonce;
          tx_headers = (ratchet_mask s.tx_headers h).1;
        },
        (ratchet_mask s.tx_headers h).0 ++ ct,
        simp (ready, has1, plain_is, fits, has2, ct_is, has3),
      )

  send_all_cons :
      (s s' s'' : Session) (cmd : ℕ) (payload : List ℕ) (sign : Bool) (messages : List Message)
      (wire : List ℕ) (wires : List (List ℕ))
      → encrypt sodium gets s cmd payload sign ≡ (s', some wire)
      → send_all s' messages ≡ some (s'', wires)
      → send_all s ((cmd, payload, sign) ∷ messages) ≡ some (s'', wire ∷ wires)
  unfolding send_all
  send_all_cons s s' s'' cmd payload sign messages wire wires sent later =
      rw (send_all, sent, sent, later) refl

  read_all_cons :
      (r r' : Session) (f : Frame) (wire : List ℕ) (wires : List (List ℕ))
      → read_frame sodium gets r (take 4 wire) (λ n. some (take n (drop 4 wire))) ≡ (r', f)
      → read_all r (wire ∷ wires) ≡ f ∷ read_all r' wires
  unfolding read_all
  read_all_cons r r' f wire wires read = simp (read)

  -- Where libsodium works and no buffer is refused, every run of messages whose frames fit is encrypted,
  -- and the other end reads the frames, in order, as the commands and the payloads that were sent,
  -- signed or not.
  pub read_all-send_all :
      (s r : Session) (messages : List Message)
      → Works sodium gets
      → IsPeer sodium s r
      → All IsMessage messages
      → (s' : Session) × (wires : List (List ℕ)) × (send_all s messages ≡ some (s', wires))
        × (read_all r wires ≡ map (λ (m : Message). opened m.0 m.1) messages)
  unfolding send_all read_all
  read_all-send_all s r [] works peer small = (s, [], refl, refl)
  read_all-send_all s r ((cmd, payload, sign) ∷ messages) works peer small =
      let (s', wire, sent) = encrypt_total s cmd payload sign works peer.writes small.0.1 in
      let (read, peer') =
        read_frame-encrypt sodium gets s r cmd payload sign s' wire works.is_sodium
          (λ n le. works.has n (omega arith)) peer small.0.0 sent in
      let (s'', wires, later, delivered) =
        read_all-send_all s' (record r { rx_nonce = s'.tx_nonce; rx_headers = s'.tx_headers })
          messages works peer' small.1 in
      (
        s'',
        wire ∷ wires,
        send_all_cons s s' s'' cmd payload sign messages wire wires sent later,
        read_all_cons r _ (opened cmd payload) wire wires read
            ∙ ap (λ (fs : List Frame). opened cmd payload ∷ fs) delivered,
      )
