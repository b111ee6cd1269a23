-- ===== src/Session/Sample.antt =====
-- Functions in the place of libsodium's, and the two ends of a channel, for the examples.
use c_datum_prime.Common.{ℕ, ◌+◌, ◌≡◌, refl}
use c_datum_prime.Common.{Bool, true, ◌==◌, leb, some}
use c_datum_prime.Common.{List, ◌++◌, length, drop, replicate}
use c_datum_prime.Common.{arith}
use c_datum_prime.Framing.{max_cmd_len}
use c_datum_prime.Session.{Sodium, Session}
use c_datum_prime.Session.Channel.{IsSodium, IsSigner, IsPeer}
use c_datum_prime.Session.Delivery.{Works}

-- A tag of zeros is put before a message, and 64 ones are its signature.
abbrev pub sodium : Sodium
sodium = record {
  sign_detached = λ m sk. some (replicate 64 1);
  verify_detached = λ sig m pk. length sig == 64;
  box_easy_afternm = λ m nonce key. some (replicate 16 0 ++ m);
  box_open_easy_afternm = λ ct nonce key. some (drop 16 ct);
  box_seal = λ m pk. some (replicate 48 0 ++ m);
  box_seal_open = λ ct pk sk. some (drop 48 ct);
  box_beforenm = λ pk sk. some (replicate 32 5);
}

abbrev pub gets : ℕ → Bool
gets n = leb n (max_cmd_len + 4)

pub sodium-IsSodium : IsSodium sodium
sodium-IsSodium m nonce key ct e =
    let whole : replicate 16 0 ++ m ≡ ct = ground arith in rw (← whole) (refl, omega arith)

pub sodium-IsSigner : (pk sk : List ℕ) → IsSigner sodium pk sk
sodium-IsSigner pk sk m sig e =
    let whole : replicate 64 1 ≡ sig = ground arith in rw (← whole) (refl, refl)

pub sodium-Works : Works sodium gets
sodium-Works = record {
  is_sodium = sodium-IsSodium;
  signs = λ m sk. (replicate 64 1, refl);
  seals = λ m nonce key. (replicate 16 0 ++ m, refl);
  has = λ n le. ground arith;
}

abbrev pub server : Session
server = record {
  precomp = replicate 32 5;
  tx_nonce = replicate 24 1;
  rx_nonce = replicate 24 2;
  tx_headers = 1000;
  rx_headers = 2000;
  session_sign_sk = replicate 64 3;
  session_sign_pk = replicate 32 3;
  peer_session_sign_pk = replicate 32 4;
  ready = true;
}

abbrev pub client : Session
client = record {
  precomp = replicate 32 5;
  tx_nonce = replicate 24 2;
  rx_nonce = replicate 24 1;
  tx_headers = 2000;
  rx_headers = 1000;
  session_sign_sk = replicate 64 4;
  session_sign_pk = replicate 32 4;
  peer_session_sign_pk = replicate 32 3;
  ready = true;
}

pub server-IsPeer : IsPeer sodium server client
server-IsPeer = record {
  writes = refl;
  reads = refl;
  same_key = refl;
  same_nonce = refl;
  same_headers = refl;
  is_key = omega arith;
  signs = sodium-IsSigner (replicate 32 3) (replicate 64 3);
}
