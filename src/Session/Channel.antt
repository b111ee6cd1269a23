-- ===== src/Session/Channel.antt =====
-- What one end of a channel encrypts, the other reads: the nonces and the ratchets stay in step.
use c_datum_prime.Common.{take_whole, ℕ, ◌+◌, ◌-◌, ◌≤◌, ◌<◌, ◌≡◌, refl, sym, ap, ◌∙◌, inl, inr}
use c_datum_prime.Common.{
  Bool, true, false, not, ◌||◌, ◌==◌, ltb, Bool-cases, Option-cases, Option, some,
}
use c_datum_prime.Common.{List, [], ◌++◌, length, take, drop, append-nil}
use c_datum_prime.Common.{length-append, take-length-append, drop-length-append, arith}
use mathlib.Core.Path.{subst}
use c_datum_prime.Framing.{Header, max_cmd_len, ratchet_mask, ratchet_unmask, increment_nonce}
use c_datum_prime.Framing.Codec.{Fits}
use c_datum_prime.Framing.Ratchet.{IsKey, ratchet_unmask-ratchet_mask, take_masked, drop_masked}
use c_datum_prime.Session.{
  Sodium, Session, sign_bytes, mac_bytes, room, plain_len, channel_header, signed, frame, encrypt,
  checked, decrypt, opened, read_frame,
}

-- libsodium opens what it sealed under the same key and nonce, with 16 bytes more.
abbrev pub IsSodium : Sodium → Type 0
IsSodium sodium =
    (m nonce key ct : List ℕ)
    → sodium.box_easy_afternm m nonce key ≡ some ct
    → (sodium.box_open_easy_afternm ct nonce key ≡ some m) × (length ct ≡ length m + mac_bytes)

-- The public key checks the 64 bytes that the secret key signs.
abbrev pub IsSigner : Sodium → List ℕ → List ℕ → Type 0
IsSigner sodium pk sk =
    (m sig : List ℕ)
    → sodium.sign_detached m sk ≡ some sig
    → (sodium.verify_detached sig m pk ≡ true) × (length sig ≡ sign_bytes)

-- `r` reads what `s` writes.
pub record IsPeer (sodium : Sodium) (s r : Session) : Type 0 where
  pub writes : s.ready ≡ true
  pub reads : r.ready ≡ true
  pub same_key : r.precomp ≡ s.precomp
  pub same_nonce : r.rx_nonce ≡ s.tx_nonce
  pub same_headers : r.rx_headers ≡ s.tx_headers
  pub is_key : IsKey s.tx_headers
  pub signs : IsSigner sodium r.peer_session_sign_pk s.session_sign_sk

pub room_le : (n m : ℕ) → n ≤ m → 1 ≤ m → room n ≤ m
room_le n m le some_there = ground arith

module _ (sodium : Sodium) (gets : ℕ → Bool) where
  -- What a frame that was encrypted is made of.
  pub record Sent (s : Session) (cmd : ℕ) (payload : List ℕ) (sign : Bool) (s' : Session)
      (wire : List ℕ) : Type 0 where
    pub plain : List ℕ
    pub ct : List ℕ
    pub plain_is : signed sodium gets s payload sign ≡ some plain
    pub small : plain_len payload sign + mac_bytes ≤ max_cmd_len
    pub ct_is : sodium.box_easy_afternm plain s.tx_nonce s.precomp ≡ some ct
    pub wire_is :
        wire
        ≡ (ratchet_mask s.tx_headers
            (channel_header (plain_len payload sign + mac_bytes) sign cmd)).0
          ++ ct
    pub next : s' ≡ record s {
      tx_nonce = increment_nonce s.tx_nonce;
      tx_headers =
          (ratchet_mask s.tx_headers
            (channel_header (plain_len payload sign + mac_bytes) sign cmd)).1;
    }

  pub encrypt-Sent :
      (s : Session) (cmd : ℕ) (payload : List ℕ) (sign : Bool) (s' : Session) (wire : List ℕ)
      → encrypt sodium gets s cmd payload sign ≡ (s', some wire)
      → Sent s cmd payload sign s' wire
  unfolding encrypt frame
  encrypt-Sent s cmd payload sign s' wire e =
      let ct_len : ℕ = plain_len payload sign + mac_bytes in
      elim (Bool-cases (not s.ready || not (gets (room (plain_len payload sign))))) [
        | inl bad ↦ absurd (ground arith)
        | inr good ↦ elim (Option-cases (signed sodium gets s payload sign)) [
          | inl bad ↦ absurd (ground arith)
          | inr (plain, plain_is) ↦
              elim (Bool-cases (ltb max_cmd_len ct_len || not (gets ct_len))) [
                | inl bad ↦ absurd (ground arith)
                | inr fits ↦
                    elim (Option-cases (sodium.box_easy_afternm plain s.tx_nonce s.precomp)) [
                      | inl bad ↦ absurd (ground arith)
                      | inr (ct, ct_is) ↦ elim (Bool-cases (gets (4 + ct_len))) [
                        | inl has ↦
                            let out : (s', some wire) ≡ (
                              record s {
                                tx_nonce = increment_nonce s.tx_nonce;
                                tx_headers =
                                    (ratchet_mask s.tx_headers (channel_header ct_len sign cmd)).1;
                              },
                              some (
                                  (ratchet_mask s.tx_headers (channel_header ct_len sign cmd)).0
                                  ++ ct),
                            ) =
                              sym (rw (good, plain_is, fits, ct_is, has) at e) in
                            record {
                              plain = plain;
                              ct = ct;
                              plain_is = plain_is;
                              small = ground arith;
                              ct_is = ct_is;
                              wire_is = cc;
                              next = ap (λ (t : Session × Option (List ℕ)). t.0) out;
                            }
                        | inr bad ↦ absurd (ground arith)
                      ]
                    ]
              ]
        ]
      ]

  -- A signature is checked and taken off again.
  checked-signed :
      (s r : Session) (payload : List ℕ) (sign : Bool) (plain : List ℕ)
      → IsSigner sodium r.peer_session_sign_pk s.session_sign_sk
      → signed sodium gets s payload sign ≡ some plain
      → (length plain ≡ plain_len payload sign)
        × (checked sodium gets r sign (plain_len payload sign) plain ≡ some payload)
  unfolding signed checked
  checked-signed s r payload false plain signs e = (ground arith, ground arith)
  checked-signed s r payload true plain signs e =
      elim (Option-cases (sodium.sign_detached payload s.session_sign_sk)) [
        | inl bad ↦ absurd (ground arith)
        | inr (sig, sig_is) ↦
            let (good, size) = signs payload sig sig_is in
            let plain_is : payload ++ sig ≡ plain = ground arith in
            let n : length payload + sign_bytes - sign_bytes ≡ length payload = omega arith in
            rw (← plain_is) (
              omega (arith, length-append payload sig, size),
              rw (n, drop-length-append payload sig, take-length-append payload sig, good)
                  (ground arith),
            )
      ]

  decrypt_lem :
      (r : Session) (h : Header) (ct plain payload : List ℕ)
      → r.ready ≡ true
      → h.is_encrypted_channel ≡ true
      → h.is_encrypted_pubkey ≡ false
      → mac_bytes ≤ length ct
      → gets (room (length ct - mac_bytes)) ≡ true
      → sodium.box_open_easy_afternm ct r.rx_nonce r.precomp ≡ some plain
      → checked sodium gets r h.is_signed (length ct - mac_bytes) plain ≡ some payload
      → decrypt sodium gets r h ct
        ≡ (record r { rx_nonce = increment_nonce r.rx_nonce }, some payload)
  unfolding decrypt
  decrypt_lem r h ct plain payload ready channel pubkey size has is_open is_checked =
      let long : ltb (length ct) mac_bytes ≡ false = ground arith in
      simp (ready, channel, pubkey, long, has, is_open, is_checked)

  read_frame_lem :
      (r r' : Session) (hdr : List ℕ) (body : ℕ → Option (List ℕ)) (h : Header) (key : ℕ)
      (ct payload : List ℕ)
      → ratchet_unmask r.rx_headers hdr ≡ (h, key)
      → 0 < h.cmd_len
      → h.cmd_len ≤ max_cmd_len
      → gets h.cmd_len ≡ true
      → body h.cmd_len ≡ some ct
      → h.is_encrypted_channel ≡ true
      → decrypt sodium gets (record r { rx_headers = key }) h ct ≡ (r', some payload)
      → read_frame sodium gets r hdr body ≡ (r', opened h.proto_cmd payload)
  unfolding read_frame
  read_frame_lem r r' hdr body h key ct payload step some_there small has there channel plain =
      let not_empty : (h.cmd_len == 0) ≡ false = ground arith in
      let short : ltb max_cmd_len h.cmd_len ≡ false = ground arith in
      simp (step, not_empty, short, has, there, plain, channel)

  Sent-IsPeer :
      (s r : Session) (cmd : ℕ) (payload : List ℕ) (sign : Bool) (s' : Session) (wire : List ℕ)
      → IsPeer sodium s r
      → Sent s cmd payload sign s' wire
      → IsKey s'.tx_headers
      → IsPeer sodium s' (record r { rx_nonce = s'.tx_nonce; rx_headers = s'.tx_headers })
  Sent-IsPeer s r cmd payload sign s' wire peer sent key = record {
    writes = ap (λ (t : Session). t.ready) sent.next ∙ peer.writes;
    reads = peer.reads;
    same_key = peer.same_key ∙ sym (ap (λ (t : Session). t.precomp) sent.next);
    same_nonce = refl;
    same_headers = refl;
    is_key = key;
    signs =
        subst (λ (sk : List ℕ). IsSigner sodium r.peer_session_sign_pk sk)
          (sym (ap (λ (t : Session). t.session_sign_sk) sent.next)) peer.signs;
  }

  -- A frame that is encrypted is read by the other end, as the command and the payload that it was made
  -- for, and the two ends go on in step.
  pub read_frame-encrypt :
      (s r : Session) (cmd : ℕ) (payload : List ℕ) (sign : Bool) (s' : Session) (wire : List ℕ)
      → IsSodium sodium
      → ((n : ℕ) → n ≤ max_cmd_len → gets n ≡ true)
      → IsPeer sodium s r
      → cmd < 32
      → encrypt sodium gets s cmd payload sign ≡ (s', some wire)
      → let r' = record r { rx_nonce = s'.tx_nonce; rx_headers = s'.tx_headers } in
        (read_frame sodium gets r (take 4 wire) (λ n. some (take n (drop 4 wire)))
          ≡ (r', opened cmd payload))
        × IsPeer sodium s' r'
  read_frame-encrypt s r cmd payload sign s' wire lib has peer small e =
      let sent = encrypt-Sent s cmd payload sign s' wire e in
      let ct_len : ℕ = plain_len payload sign + mac_bytes in
      let h = channel_header ct_len sign cmd in
      let fits : Fits h = record {
        cmd_len = sent.small;
        reserved = omega arith;
        proto_cmd = small;
      } in
      let (mask, key) = ratchet_mask s.tx_headers h in
      let step = ratchet_unmask-ratchet_mask s.tx_headers h [] peer.is_key fits in
      let r1 = record r { rx_headers = key } in
      let (is_open, ct_size) = lib sent.plain s.tx_nonce s.precomp sent.ct sent.ct_is in
      let (plain_size, is_checked) =
        checked-signed s r1 payload sign sent.plain peer.signs sent.plain_is in
      let size : length sent.ct ≡ ct_len = omega (arith, ct_size, plain_size) in
      let hdr : ratchet_unmask r.rx_headers (take 4 wire) ≡ (h, key) =
        rw (peer.same_headers, sent.wire_is, take_masked s.tx_headers h sent.ct)
          (rw (append-nil mask) at step.0) in
      let body : take ct_len (drop 4 wire) ≡ sent.ct =
        rw (sent.wire_is, drop_masked s.tx_headers h sent.ct) (take_whole ct_len sent.ct size) in
      let less : length sent.ct - mac_bytes ≡ plain_len payload sign = omega (arith, size) in
      let plain =
        decrypt_lem r1 h sent.ct sent.plain payload peer.reads refl refl (omega arith)
          (has (room (length sent.ct - mac_bytes)) (
            room_le (length sent.ct - mac_bytes) max_cmd_len (omega (arith, size, sent.small))
              (omega arith)))
          (rw (peer.same_nonce, peer.same_key) is_open) (rw less is_checked) in
      let read =
        read_frame_lem r (record r1 { rx_nonce = increment_nonce r.rx_nonce }) (take 4 wire)
          (λ n. some (take n (drop 4 wire))) h key sent.ct payload hdr (omega arith) sent.small
          (has ct_len sent.small) (ap some body) refl plain in
      let nonce : s'.tx_nonce ≡ increment_nonce s.tx_nonce =
        ap (λ (t : Session). t.tx_nonce) sent.next in
      let headers : s'.tx_headers ≡ key = ap (λ (t : Session). t.tx_headers) sent.next in
      let next_nonce : increment_nonce r.rx_nonce ≡ s'.tx_nonce =
        ap increment_nonce peer.same_nonce ∙ sym nonce in
      (
        read ∙ (λ i.
            (record r { rx_nonce = next_nonce i; rx_headers = sym headers i }, opened cmd payload)),
        Sent-IsPeer s r cmd payload sign s' wire peer sent (rw headers step.1),
      )
