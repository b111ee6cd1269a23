-- ===== src/Handshake.antt =====
-- The handshake (src/handshake.c: `prime_open_hello`, `prime_accept`, `prime_new_resume_token`): a
-- gateway's sealed and signed hello, and the response that opens a session. `Sodium` is libsodium, and
-- `gets` is what `malloc` answers for a size.
pub mod Opened
pub mod Answer
pub mod Peers
mod Examples
use c_datum_prime.Common.{ℕ, ◌+◌, ◌-◌}
use c_datum_prime.Common.{
  Bool, true, false, not, ◌&&◌, ◌||◌, ◌==◌, ltb, leb, if◌then◌else◌, Option, none, some,
}
use c_datum_prime.Common.{List, [], ◌∷◌, ◌++◌, length, take, drop, replicate}
use c_datum_prime.Wire.{byte_at, bytes_eq, rd_u32, wr_u64}
use c_datum_prime.Framing.{Header, max_cmd_len, ratchet_mask, header_keys_from_nk, derive_nonces}
use c_datum_prime.Abw.{struct_end}
use c_datum_prime.Ledger.Types.{Text}
use c_datum_prime.Session.{Sodium, Session, sign_bytes}

-- `prime_keypairs`.
pub record Keypairs : Type 0 where
  pub sign_pk : List ℕ
  pub sign_sk : List ℕ
  pub box_pk : List ℕ
  pub box_sk : List ℕ

-- `prime_generation`.
pub data Generation : Type 0 where
  v1 : Generation
  v3 : Generation

-- `prime_hello`.
pub record Hello : Type 0 where
  pub client_sign_pk : List ℕ
  pub client_box_pk : List ℕ
  pub session_sign_pk : List ℕ
  pub session_box_pk : List ℕ
  pub user_agent : Text
  pub nk : ℕ
  pub generation : Generation
  pub resume_present : Bool
  pub resume_token : List ℕ

abbrev pub seal_bytes : ℕ
seal_bytes = 48

abbrev pub keys_len : ℕ
keys_len = 128

abbrev pub max_ua : ℕ
max_ua = 256

abbrev pub max_motd : ℕ
max_motd = 511

abbrev pub token_len : ℕ
token_len = 40

-- `DRS_MARKER`.
abbrev pub drs_marker : List ℕ
drs_marker = b'D' ∷ b'R' ∷ b'S' ∷ 1 ∷ []

-- memchr(rest, 0, n): the bytes before the first 0, and those behind it.
unfoldable pub split_nul : List ℕ → Option (List ℕ × List ℕ)
split_nul [] = none
split_nul (c ∷ rest) =
    let found = split_nul rest in
    if c == 0
    then some ([], rest)
    else elim found [ none ↦ none | some (text, after) ↦ some (c ∷ text, after) ]

-- The generation, whether a token is there, and the token, from the bytes behind `nk`.
unfoldable pub read_tail : List ℕ → Option (Generation × Bool × List ℕ)
read_tail tail =
    if leb 5 (length tail) && bytes_eq (take 4 tail) drs_marker
    then (if byte_at tail 4 == 0
        then some (v3, false, replicate token_len 0)
        else if ltb (length tail) (5 + token_len)
        then none
        else some (v3, true, take token_len (drop 5 tail)))
    else some (v1, false, replicate token_len 0)

-- The signed bytes of a hello.
unfoldable pub read_hello : List ℕ → Option Hello
read_hello body = elim (split_nul (drop keys_len body)) [
  | none ↦ none
  | some (ua, after) ↦
      if ltb (length after) 5 || not (byte_at after 0 == struct_end)
      then none
      else elim (read_tail (drop 5 after)) [
        | none ↦ none
        | some (generation, resume_present, resume_token) ↦ some (record {
          client_sign_pk = take 32 body;
          client_box_pk = take 32 (drop 32 body);
          session_sign_pk = take 32 (drop 64 body);
          session_box_pk = take 32 (drop 96 body);
          user_agent = take max_ua ua;
          nk = rd_u32 (drop 1 after);
          generation = generation;
          resume_present = resume_present;
          resume_token = resume_token;
        })
      ]
]

-- `PRIME_CMD_HELLO_OR_PING` and `PRIME_CMD_HANDSHAKE_RESPONSE`.
abbrev pub cmd_hello : ℕ
cmd_hello = 1

abbrev pub cmd_handshake_response : ℕ
cmd_handshake_response = 2

-- The body of the response; its parts are arrays of 32 bytes, so that `i` ends at `body_len`.
unfoldable pub response_body : Hello → List ℕ → List ℕ → Text → List ℕ
response_body hello sign_pk box_pk motd =
    hello.client_sign_pk
    ++ (hello.client_box_pk
        ++ (hello.session_sign_pk
            ++ (hello.session_box_pk ++ (sign_pk ++ (box_pk ++ (take max_motd motd ++ (0 ∷ [])))))))

abbrev pub response_header : ℕ → Header
response_header sealed_len = record {
  cmd_len = sealed_len;
  reserved = 0;
  is_signed = true;
  is_encrypted_pubkey = true;
  is_encrypted_channel = false;
  proto_cmd = cmd_handshake_response;
}

-- `prime_new_resume_token`, with the bytes of libsodium's generator.
unfoldable pub new_resume_token : ℕ → List ℕ → List ℕ
new_resume_token prime_id random = wr_u64 prime_id ++ take (token_len - 8) random

module _ (sodium : Sodium) (gets : ℕ → Bool) where
  -- `prime_open_hello`; `none` is its -1.
  unfoldable pub open_hello : Header → List ℕ → Keypairs → Option Hello
  open_hello header payload pool =
      let plain_len : ℕ = length payload - seal_bytes in
      let signed_len : ℕ = plain_len - sign_bytes in
      if (not (header.proto_cmd == cmd_hello)
          || not header.is_signed
          || not header.is_encrypted_pubkey
          || header.is_encrypted_channel)
        || ltb (length payload) seal_bytes
        || not (gets plain_len)
      then none
      else elim (sodium.box_seal_open payload pool.box_pk pool.box_sk) [
        | none ↦ none
        | some plain ↦
            if ltb plain_len (keys_len + sign_bytes)
              || not (
                  sodium.verify_detached (drop signed_len plain) (take signed_len plain)
                    (take 32 plain))
            then none
            else read_hello (take signed_len plain)
      ]

  -- The session that `prime_accept` fills in, with its own fresh keys.
  unfoldable pub accepted : Hello → List ℕ × List ℕ → List ℕ → ℕ → Session
  accepted hello sign_pair precomp tx_headers =
      let (receiver, sender) = derive_nonces hello.nk hello.session_sign_pk in
      record {
        precomp = precomp;
        tx_nonce = receiver;
        rx_nonce = sender;
        tx_headers = tx_headers;
        rx_headers = (header_keys_from_nk hello.nk).0;
        session_sign_sk = sign_pair.1;
        session_sign_pk = sign_pair.0;
        peer_session_sign_pk = hello.session_sign_pk;
        ready = true;
      }

  -- The response and the session, once the body is sealed.
  unfoldable pub answer :
      Hello → List ℕ × List ℕ → List ℕ × List ℕ → ℕ → List ℕ → Option (List ℕ × Session)
  answer hello sign_pair box_pair sealed_len sealed =
      let (bytes, key) =
        ratchet_mask (header_keys_from_nk hello.nk).1 (response_header sealed_len) in
      if gets (4 + sealed_len)
      then (elim (sodium.box_beforenm hello.session_box_pk box_pair.1) [
        | none ↦ none
        | some precomp ↦ some (bytes ++ sealed, accepted hello sign_pair precomp key)
      ])
      else none

  -- `prime_accept`: the response and the session, or `none` for -1. `sign_keys` and `box_keys` are what
  -- libsodium gives for new pairs of a public and a secret key.
  unfoldable pub accept :
      Option (List ℕ × List ℕ)
      → Option (List ℕ × List ℕ)
      → Hello
      → Keypairs
      → Text
      → Option (List ℕ × Session)
  accept sign_keys box_keys hello pool motd = elim sign_keys [
    | none ↦ none
    | some sign_pair ↦ elim box_keys [
      | none ↦ none
      | some box_pair ↦
          let body = response_body hello sign_pair.0 box_pair.0 motd in
          let body_len : ℕ = keys_len + 64 + length (take max_motd motd) + 1 in
          let sealed_len : ℕ = body_len + sign_bytes + seal_bytes in
          if not (gets (body_len + sign_bytes))
          then none
          else elim (sodium.sign_detached body pool.sign_sk) [
            | none ↦ none
            | some sig ↦
                if ltb max_cmd_len sealed_len || not (gets sealed_len)
                then none
                else elim (sodium.box_seal (body ++ sig) hello.session_box_pk) [
                  | none ↦ none
                  | some sealed ↦ answer hello sign_pair box_pair sealed_len sealed
                ]
          ]
    ]
  ]
