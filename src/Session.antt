-- ===== src/Session.antt =====
-- The encrypted channel behind a handshake (src/handshake.c: `prime_session_encrypt`,
-- `prime_session_decrypt`) and the part of `handle_client` in src/main.c that reads a frame. The
-- functions of libsodium are the record `Sodium`, and `gets` is what `malloc` answers for a size.
pub mod Channel
pub mod Delivery
pub mod Refused
pub mod Resent
pub mod Sample
mod Examples
use c_datum_prime.Common.{[], ℕ, ◌+◌, ◌-◌}
use c_datum_prime.Common.{
  Bool, true, false, not, ◌||◌, ◌==◌, ltb, if◌then◌else◌, Option, none, some,
}
use c_datum_prime.Common.{List, ◌++◌, length, take, drop}
use c_datum_prime.Framing.{Header, max_cmd_len, ratchet_mask, ratchet_unmask, increment_nonce}

-- What the code calls of libsodium; `none` is a result other than 0. A secret key stands behind what
-- it signs or opens, a public key behind what it checks or seals.
pub record Sodium : Type 0 where
  pub sign_detached : List ℕ → List ℕ → Option (List ℕ)
  pub verify_detached : List ℕ → List ℕ → List ℕ → Bool
  pub box_easy_afternm : List ℕ → List ℕ → List ℕ → Option (List ℕ)
  pub box_open_easy_afternm : List ℕ → List ℕ → List ℕ → Option (List ℕ)
  pub box_seal : List ℕ → List ℕ → Option (List ℕ)
  pub box_seal_open : List ℕ → List ℕ → List ℕ → Option (List ℕ)
  pub box_beforenm : List ℕ → List ℕ → Option (List ℕ)

-- `prime_session`.
pub record Session : Type 0 where
  pub precomp : List ℕ
  pub tx_nonce : List ℕ
  pub rx_nonce : List ℕ
  pub tx_headers : ℕ
  pub rx_headers : ℕ
  pub session_sign_sk : List ℕ
  pub session_sign_pk : List ℕ
  pub peer_session_sign_pk : List ℕ
  pub ready : Bool

-- `crypto_sign_BYTES` and `crypto_box_MACBYTES`.
abbrev pub sign_bytes : ℕ
sign_bytes = 64

abbrev pub mac_bytes : ℕ
mac_bytes = 16

-- The size of a buffer that may be empty.
abbrev pub room : ℕ → ℕ
room n = if n == 0 then 1 else n

-- `plain_len` of `prime_session_encrypt`.
abbrev pub plain_len : List ℕ → Bool → ℕ
plain_len payload sign = if sign then length payload + sign_bytes else length payload

-- The header of a frame of the channel.
abbrev pub channel_header : ℕ → Bool → ℕ → Header
channel_header ct_len sign proto_cmd = record {
  cmd_len = ct_len;
  reserved = 0;
  is_signed = sign;
  is_encrypted_pubkey = false;
  is_encrypted_channel = true;
  proto_cmd = proto_cmd;
}

module _ (sodium : Sodium) (gets : ℕ → Bool) where
  -- The payload, with its signature.
  unfoldable pub signed : Session → List ℕ → Bool → Option (List ℕ)
  signed s payload sign =
      if sign
      then (elim (sodium.sign_detached payload s.session_sign_sk) [
        | none ↦ none
        | some sig ↦ some (payload ++ sig)
      ])
      else some payload

  -- The frame around a ciphertext; the nonce has gone on already.
  unfoldable pub frame : Session → ℕ → ℕ → Bool → List ℕ → Session × Option (List ℕ)
  frame s proto_cmd ct_len sign ct =
      let (bytes, key) = ratchet_mask s.tx_headers (channel_header ct_len sign proto_cmd) in
      if gets (4 + ct_len) then (record s { tx_headers = key }, some (bytes ++ ct)) else (s, none)

  -- `prime_session_encrypt`: the session as left, and the frame, or `none` for -1.
  unfoldable pub encrypt : Session → ℕ → List ℕ → Bool → Session × Option (List ℕ)
  encrypt s proto_cmd payload sign =
      let ct_len : ℕ = plain_len payload sign + mac_bytes in
      if not s.ready || not (gets (room (plain_len payload sign)))
      then (s, none)
      else elim (signed s payload sign) [
        | none ↦ (s, none)
        | some plain ↦
            if ltb max_cmd_len ct_len || not (gets ct_len)
            then (s, none)
            else elim (sodium.box_easy_afternm plain s.tx_nonce s.precomp) [
              | none ↦ (s, none)
              | some ct ↦
                  frame (record s { tx_nonce = increment_nonce s.tx_nonce }) proto_cmd ct_len sign
                    ct
            ]
      ]

  -- The signature behind a message is checked and taken off.
  unfoldable pub checked : Session → Bool → ℕ → List ℕ → Option (List ℕ)
  checked s is_signed buf_len buf =
      let n : ℕ = buf_len - sign_bytes in
      if not is_signed
      then some buf
      else if ltb buf_len sign_bytes
          || not (sodium.verify_detached (drop n buf) (take n buf) s.peer_session_sign_pk)
      then none
      else some (take n buf)

  -- `prime_session_decrypt`: the session as left, and the message, or `none` for -1.
  unfoldable pub decrypt : Session → Header → List ℕ → Session × Option (List ℕ)
  decrypt s header ciphertext =
      let buf_len : ℕ = length ciphertext - mac_bytes in
      if not s.ready
        || (not header.is_encrypted_channel || header.is_encrypted_pubkey)
        || ltb (length ciphertext) mac_bytes
        || not (gets (room buf_len))
      then (s, none)
      else elim (sodium.box_open_easy_afternm ciphertext s.rx_nonce s.precomp) [
        | none ↦ (s, none)
        | some buf ↦ (
          record s { rx_nonce = increment_nonce s.rx_nonce },
          checked s header.is_signed buf_len buf,
        )
      ]

-- A frame that is read: the loop ends, or passes over it, or has a message for a command.
pub data Frame : Type 0 where
  broken : Frame
  skipped : Frame
  opened : ℕ → List ℕ → Frame

module _ (sodium : Sodium) (gets : ℕ → Bool) where
  -- The frame behind the header's four bytes; `body` is what `read_exact` gives for a size.
  unfoldable pub read_frame : Session → List ℕ → (ℕ → Option (List ℕ)) → Session × Frame
  read_frame s hdr_bytes body =
      let (header, key) = ratchet_unmask s.rx_headers hdr_bytes in
      let s' = record s { rx_headers = key } in
      let payload : Option (List ℕ) =
        if header.cmd_len == 0 then some [] else body header.cmd_len in
      if ltb max_cmd_len header.cmd_len || not (gets (room header.cmd_len))
      then (s', broken)
      else elim payload [
        | none ↦ (s', broken)
        | some ciphertext ↦
            let (s'', plain) = decrypt sodium gets s' header ciphertext in
            if header.is_encrypted_channel
            then (s'', elim plain [ none ↦ broken | some m ↦ opened header.proto_cmd m ])
            else (s', skipped)
      ]
