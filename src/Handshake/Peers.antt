-- ===== src/Handshake/Peers.antt =====
-- The response to a hello opens a channel between the pool and the gateway.
use c_datum_prime.Common.{ℕ, ◌+◌, ◌≡◌, refl, sym}
use c_datum_prime.Common.{Bool, true, false, some}
use c_datum_prime.Common.{List, [], ◌∷◌, ◌++◌, length, take, drop, All, append-nil}
use c_datum_prime.Common.{length-append, arith}
use c_datum_prime.Framing.{
  complement, ratchet_mask, ratchet_unmask, header_keys_from_nk, derive_nonces,
}
use c_datum_prime.Framing.Codec.{Fits}
use c_datum_prime.Framing.Ratchet.{
  IsKey, feedback-IsKey, ratchet_unmask-ratchet_mask, take_masked, drop_masked,
}
use c_datum_prime.Ledger.Types.{Text}
use c_datum_prime.Session.{Sodium, Session}
use c_datum_prime.Session.Channel.{IsSigner, IsPeer}
use c_datum_prime.Handshake.Answer.{accept-IsAnswer, length-response_body, body_parts}
use c_datum_prime.Handshake.{
  Keypairs, Hello, seal_bytes, response_body, response_header, accepted, accept,
}

-- The secret keys of the gateway's session.
pub record Gateway : Type 0 where
  pub sign_sk : List ℕ
  pub box_sk : List ℕ

-- The session that a gateway has on its side, once the response's header left `rx_headers`, with the
-- session's signing key that it reads from the response and the key that it computes from the other one.
abbrev pub gateway_session : Hello → Gateway → List ℕ → List ℕ → ℕ → Session
gateway_session hello gateway sign_pk precomp rx_headers = record {
  precomp = precomp;
  tx_nonce = (derive_nonces hello.nk hello.session_sign_pk).1;
  rx_nonce = (derive_nonces hello.nk hello.session_sign_pk).0;
  tx_headers = (header_keys_from_nk hello.nk).0;
  rx_headers = rx_headers;
  session_sign_sk = gateway.sign_sk;
  session_sign_pk = hello.session_sign_pk;
  peer_session_sign_pk = sign_pk;
  ready = true;
}

header_keys-IsKey : (nk : ℕ) → IsKey (header_keys_from_nk nk).0 × IsKey (header_keys_from_nk nk).1
unfolding header_keys_from_nk
header_keys-IsKey nk = (feedback-IsKey nk, feedback-IsKey (complement nk))

module _ (sodium : Sodium) (gets : ℕ → Bool) where
  accepted-IsPeer :
      (hello : Hello) (gateway : Gateway) (sign_pair : List ℕ × List ℕ) (k precomp : List ℕ)
      (key : ℕ)
      → IsSigner sodium sign_pair.0 sign_pair.1
      → IsSigner sodium hello.session_sign_pk gateway.sign_sk
      → k ≡ precomp
      → IsKey key
      → IsPeer sodium
          (accepted sodium gets hello sign_pair k key)
          (gateway_session hello gateway sign_pair.0 precomp key)
        × IsPeer sodium
            (gateway_session hello gateway sign_pair.0 precomp key)
            (accepted sodium gets hello sign_pair k key)
  unfolding accepted
  accepted-IsPeer hello gateway sign_pair k precomp key session_signs gateway_signs agrees is_key =
      (
        record {
          writes = refl;
          reads = refl;
          same_key = sym agrees;
          same_nonce = refl;
          same_headers = refl;
          is_key = is_key;
          signs = session_signs;
        },
        record {
          writes = refl;
          reads = refl;
          same_key = agrees;
          same_nonce = refl;
          same_headers = refl;
          is_key = (header_keys-IsKey hello.nk).0;
          signs = gateway_signs;
        },
      )

  -- What libsodium promises of the keys of the pool, of its new session, and of the gateway.
  pub record IsKeyed (hello : Hello) (pool : Keypairs) (gateway : Gateway)
      (sign_pair box_pair : List ℕ × List ℕ) : Type 0 where
    pub sizes :
        All
          (λ (k : List ℕ). length k ≡ 32)
          (hello.client_sign_pk ∷ hello.client_box_pk ∷ hello.session_sign_pk ∷ hello.session_box_pk
            ∷ sign_pair.0 ∷ box_pair.0 ∷ [])
    pub pool_signs : IsSigner sodium pool.sign_pk pool.sign_sk
    pub session_signs : IsSigner sodium sign_pair.0 sign_pair.1
    pub gateway_signs : IsSigner sodium hello.session_sign_pk gateway.sign_sk
    pub opens :
        (m ct : List ℕ)
        → sodium.box_seal m hello.session_box_pk ≡ some ct
        → (sodium.box_seal_open ct hello.session_box_pk gateway.box_sk ≡ some m)
          × (length ct ≡ length m + seal_bytes)
    pub agrees :
        (k : List ℕ)
        → sodium.box_beforenm hello.session_box_pk box_pair.1 ≡ some k
        → sodium.box_beforenm box_pair.0 gateway.box_sk ≡ some k

  -- What a gateway that sent `hello` reads from an answer, with nothing but its own keys and the pool's public
  -- key: the header of a signed and sealed message of kind 2, a body that the pool signed, in it its own four
  -- keys, the two keys of the session, and the text; and with these two keys each end's session is the peer of
  -- the other's.
  pub record IsRead (hello : Hello) (pool : Keypairs) (gateway : Gateway) (motd : Text)
      (wire : List ℕ) (s : Session) : Type 0 where
    pub header : (ratchet_unmask (header_keys_from_nk hello.nk).1 (take 4 wire)).0 ≡ record {
      cmd_len = length (drop 4 wire);
      reserved = 0;
      is_signed = true;
      is_encrypted_pubkey = true;
      is_encrypted_channel = false;
      proto_cmd = 2;
    }
    pub body : List ℕ
    pub sig : List ℕ
    pub is_open :
        sodium.box_seal_open (drop 4 wire) hello.session_box_pk gateway.box_sk ≡ some (body ++ sig)
    pub sig_size : length sig ≡ 64
    pub verified : sodium.verify_detached sig body pool.sign_pk ≡ true
    pub client_sign_pk : take 32 body ≡ hello.client_sign_pk
    pub client_box_pk : take 32 (drop 32 body) ≡ hello.client_box_pk
    pub session_sign_pk : take 32 (drop 64 body) ≡ hello.session_sign_pk
    pub session_box_pk : take 32 (drop 96 body) ≡ hello.session_box_pk
    pub text : drop 192 body ≡ take 511 motd ++ (0 ∷ [])
    pub precomp : List ℕ
    pub computed : sodium.box_beforenm (take 32 (drop 160 body)) gateway.box_sk ≡ some precomp
    pub peers :
        let key = (ratchet_unmask (header_keys_from_nk hello.nk).1 (take 4 wire)).1 in
        let peer = gateway_session hello gateway (take 32 (drop 128 body)) precomp key in
        IsPeer sodium s peer × IsPeer sodium peer s

  -- Where libsodium's keys are what it promises of them, the gateway reads an answer that is sent with its own
  -- keys and the pool's public key: the header of a signed and sealed message of kind 2, and a body that the
  -- pool signed, with the gateway's four keys, two keys of the session, and the text; and the session that the
  -- gateway builds with these two keys is the peer of the pool's, and the other way.
  pub accept_lem :
      (hello : Hello) (pool : Keypairs) (gateway : Gateway) (sign_pair box_pair : List ℕ × List ℕ)
      (motd : Text) (wire : List ℕ) (s : Session)
      → IsKeyed hello pool gateway sign_pair box_pair
      → accept sodium gets (some sign_pair) (some box_pair) hello pool motd ≡ some (wire, s)
      → IsRead hello pool gateway motd wire s
  accept_lem hello pool gateway sign_pair box_pair motd wire s keyed e =
      let a = accept-IsAnswer sodium gets hello pool sign_pair box_pair motd wire s e in
      let body = response_body hello sign_pair.0 box_pair.0 motd in
      let stc = (header_keys_from_nk hello.nk).1 in
      let h = response_header a.sealed_len in
      let (mask, key) = ratchet_mask stc h in
      let (verified, sig_size) = keyed.pool_signs body a.sig a.sig_is in
      let (is_open, sealed_size) = keyed.opens (body ++ a.sig) a.sealed a.sealed_is in
      let size : length a.sealed ≡ a.sealed_len = omega (
        arith,
        sealed_size,
        length-append body a.sig,
        sig_size,
        a.sealed_len_is,
        length-response_body hello sign_pair.0 box_pair.0 motd keyed.sizes,
      ) in
      let fits : Fits h = record {
        cmd_len = a.small;
        reserved = omega arith;
        proto_cmd = omega arith;
      } in
      let step = ratchet_unmask-ratchet_mask stc h [] (header_keys-IsKey hello.nk).1 fits in
      let read : ratchet_unmask stc (take 4 wire) ≡ (h, key) =
        rw (a.wire_is, take_masked stc h a.sealed) (rw (append-nil mask) at step.0) in
      let rest : drop 4 wire ≡ a.sealed = rw (a.wire_is, drop_masked stc h a.sealed) refl in
      let (k1, k2, k3, k4, signs_with, boxes_with, text) =
        body_parts hello sign_pair.0 box_pair.0 motd keyed.sizes in
      let peers = rw (← a.session_is) at (
        accepted-IsPeer hello gateway sign_pair a.precomp a.precomp key keyed.session_signs
          keyed.gateway_signs refl step.1) in
      record {
        header = rw (read, rest, size) refl;
        body = body;
        sig = a.sig;
        is_open = rw rest is_open;
        sig_size = sig_size;
        verified = verified;
        client_sign_pk = k1;
        client_box_pk = k2;
        session_sign_pk = k3;
        session_box_pk = k4;
        text = text;
        precomp = a.precomp;
        computed = rw boxes_with (keyed.agrees a.precomp a.precomp_is);
        peers = rw (read, signs_with) peers;
      }
