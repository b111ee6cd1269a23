-- ===== src/Keys/Examples.antt =====
-- A pool's keys.
use c_datum_prime.Common.{ℕ, ◌≡◌, refl}
use c_datum_prime.Common.{true, false, Option, none, some}
use c_datum_prime.Common.{List, [], ◌∷◌, ◌++◌, take, replicate}
use c_datum_prime.Common.{arith}
use c_datum_prime.Ledger.Types.{Text}
use c_datum_prime.Handshake.{Keypairs}
use c_datum_prime.Keys.{newline, lines_of, line_len, keys_load_or_create}
use c_datum_prime.Keys.Stored.{keys_load_or_create_again}

-- The half of the secret key in the place of the base point's multiple.
abbrev base : List ℕ → Option (List ℕ)
base sk = some (take 32 sk)

abbrev keys : Keypairs
keys = record {
  sign_pk = replicate 32 7;
  sign_sk = replicate 32 6 ++ replicate 32 7;
  box_pk = replicate 32 200;
  box_sk = replicate 32 200;
}

keys_load_or_create_again_example :
    (text : Text) × (keys_load_or_create base none
        (some (replicate 32 7, replicate 32 6 ++ replicate 32 7))
        (some (replicate 32 200, replicate 32 200))
        true
        true
      ≡ (some keys, some text))
    × (keys_load_or_create base (some text) none none false false ≡ (some keys, none))
keys_load_or_create_again_example =
    keys_load_or_create_again base keys none none false false (record {
      sign_bytes = omega arith;
      sign_size = refl;
      box_bytes = omega arith;
      box_size = refl;
      sign_half = refl;
      box_half = refl;
    })

-- A line without its newline is the last one.
two_lines :
    lines_of line_len (b'a' ∷ newline ∷ b'b' ∷ []) ≡ (b'a' ∷ newline ∷ []) ∷ (b'b' ∷ []) ∷ []
unfolding lines_of
two_lines = refl
