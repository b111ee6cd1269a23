-- ===== src/Handshake/Examples.antt =====
-- A gateway's hello of version 3 with a token, and the response to it.
use c_datum_prime.Common.{ℕ, ◌+◌, ◌≡◌, refl}
use c_datum_prime.Common.{true, false, some}
use c_datum_prime.Common.{List, [], ◌∷◌, ◌++◌, length, replicate}
use c_datum_prime.Common.{arith}
use c_datum_prime.Wire.{wr_u32}
use c_datum_prime.Framing.{Header, ratchet_mask, header_keys_from_nk}
use c_datum_prime.Ledger.Types.{Text}
use c_datum_prime.Session.{Session}
use c_datum_prime.Session.Sample.{sodium, gets, sodium-IsSigner}
use c_datum_prime.Handshake.{
  Keypairs, v3, Hello, seal_bytes, response_body, response_header, accepted, answer, accept,
  open_hello,
}
use c_datum_prime.Handshake.Opened.{hello_bytes, IsHello, IsSealed, open_hello_lem}
use c_datum_prime.Handshake.Peers.{Gateway, IsKeyed, IsRead, accept_lem}

abbrev hello : Hello
hello = record {
  client_sign_pk = replicate 32 1;
  client_box_pk = replicate 32 2;
  session_sign_pk = replicate 32 3;
  session_box_pk = replicate 32 4;
  user_agent = b'r' ∷ b'a' ∷ [];
  nk = 77;
  generation = v3;
  resume_present = true;
  resume_token = replicate 40 9;
}

abbrev pool : Keypairs
pool = record {
  sign_pk = replicate 32 5;
  sign_sk = replicate 64 5;
  box_pk = replicate 32 6;
  box_sk = replicate 32 6;
}

abbrev header : Header
header = record {
  cmd_len = 400;
  reserved = 0;
  is_signed = true;
  is_encrypted_pubkey = true;
  is_encrypted_channel = false;
  proto_cmd = 1;
}

abbrev payload : List ℕ
payload = replicate 48 0 ++ (hello_bytes hello ++ replicate 64 1)

hello-IsHello : IsHello hello
unfolding wr_u32
hello-IsHello = omega arith

payload-IsSealed : IsSealed sodium pool hello payload
unfolding wr_u32
payload-IsSealed = record {
  sk = replicate 64 7;
  sig = replicate 64 1;
  is_signer = sodium-IsSigner (replicate 32 1) (replicate 64 7);
  is_signed = refl;
  is_open = refl;
  size = refl;
}

open_hello_lem_example : open_hello sodium gets header payload pool ≡ some hello
unfolding wr_u32
open_hello_lem_example =
    open_hello_lem sodium gets header payload pool hello (refl, refl, refl, refl) hello-IsHello
      payload-IsSealed refl

abbrev gateway : Gateway
gateway = record { sign_sk = replicate 64 3; box_sk = replicate 32 4 }

abbrev fresh : List ℕ × List ℕ
fresh = (replicate 32 8, replicate 64 8)

abbrev motd : Text
motd = b'h' ∷ b'i' ∷ []

abbrev session : Session
session =
    accepted sodium gets hello fresh (replicate 32 5)
      (ratchet_mask (header_keys_from_nk 77).1 (response_header 307)).1

abbrev wire : List ℕ
wire =
    (ratchet_mask (header_keys_from_nk 77).1 (response_header 307)).0
    ++ (replicate 48 0
        ++ (response_body hello (replicate 32 8) (replicate 32 8) motd ++ replicate 64 1))

opens_sealed :
    (m ct : List ℕ)
    → sodium.box_seal m (replicate 32 4) ≡ some ct
    → (sodium.box_seal_open ct (replicate 32 4) (replicate 32 4) ≡ some m)
      × (length ct ≡ length m + seal_bytes)
opens_sealed m ct e =
    let whole : replicate 48 0 ++ m ≡ ct = ground arith in rw (← whole) (refl, omega arith)

keyed : IsKeyed sodium gets hello pool gateway fresh fresh
keyed = record {
  sizes = omega arith;
  pool_signs = sodium-IsSigner (replicate 32 5) (replicate 64 5);
  session_signs = sodium-IsSigner (replicate 32 8) (replicate 64 8);
  gateway_signs = sodium-IsSigner (replicate 32 3) (replicate 64 3);
  opens = opens_sealed;
  agrees = λ k e. ground arith;
}

accept_lem_example : IsRead sodium gets hello pool gateway motd wire session
unfolding accept answer
accept_lem_example =
    accept_lem sodium gets hello pool gateway fresh fresh motd wire session keyed refl
