-- ===== src/Framing/Examples.antt =====
-- The framing of messages on concrete headers, nonces and bytes.
use c_datum_prime.Common.{ℕ, ◌≢◌}
use c_datum_prime.Common.{true, false}
use c_datum_prime.Common.{List, [], ◌∷◌}
use c_datum_prime.Common.{arith}
use c_datum_prime.Framing.{Header, max_cmd_len}
use c_datum_prime.Framing.Codec.{Fits}
use c_datum_prime.Framing.Nonce.{IsNonce, nonce_after, nonce_after_ne}

abbrev hello : Header
hello = record {
  cmd_len = 300;
  reserved = 0;
  is_signed = true;
  is_encrypted_pubkey = true;
  is_encrypted_channel = false;
  proto_cmd = 1;
}

abbrev command : Header
command = record {
  cmd_len = max_cmd_len;
  reserved = 3;
  is_signed = false;
  is_encrypted_pubkey = false;
  is_encrypted_channel = true;
  proto_cmd = 5;
}

hello-Fits : Fits hello
hello-Fits = record { cmd_len = omega arith; reserved = omega arith; proto_cmd = omega arith }

command-Fits : Fits command
command-Fits = record { cmd_len = omega arith; reserved = omega arith; proto_cmd = omega arith }

-- The two low words of this nonce are about to wrap.
abbrev nonce : List ℕ
nonce =
    255 ∷ 255 ∷ 255 ∷ 255 ∷ 255 ∷ 255 ∷ 255 ∷ 255 ∷ 7 ∷ 0 ∷ 0 ∷ 0 ∷ 0 ∷ 0 ∷ 0 ∷ 0 ∷ 0 ∷ 0 ∷ 0 ∷ 0
    ∷ 0 ∷ 0 ∷ 0 ∷ 1 ∷ []

nonce-IsNonce : IsNonce nonce
nonce-IsNonce = ground arith

nonce_after_ne_example : nonce_after 1 nonce ≢ nonce_after 3 nonce
nonce_after_ne_example = nonce_after_ne nonce 1 3 nonce-IsNonce (omega arith) (omega arith)
