-- ===== src/Pow/Examples.antt =====
-- Compact sizes, targets and transactions on concrete bytes.
use c_datum_prime.Common.{ℕ, ◌+◌, ◌%◌, ◌≡◌, refl}
use c_datum_prime.Common.{Bool, ltb, some}
use c_datum_prime.Common.{List, [], ◌∷◌, ◌++◌, length, replicate}
use c_datum_prime.Common.{arith}
use c_datum_prime.Wire.{rd_u64, rd_u16, rd_u64_loop}
use c_datum_prime.Pow.{
  HeaderV2, zeros, encode_compact_size, rd_compact, skip_field, skip_fields, skip_witnesses,
  tx_layout,
}
use c_datum_prime.Pow.Compact.{rd_compact-encode_compact_size}

rd_compact-encode_compact_size_example :
    rd_compact (7 ∷ 7 ∷ (encode_compact_size 70000 ++ (9 ∷ []))) 2
    ≡ some (70000, 2 + length (encode_compact_size 70000))
rd_compact-encode_compact_size_example =
    rd_compact-encode_compact_size (7 ∷ 7 ∷ []) 70000 (9 ∷ []) (omega arith)

-- Functions with results of 32 bytes, in the place of SHA-256 and BLAKE2b.
abbrev digest : List ℕ → List ℕ
digest message = zeros 31 ++ (length message % 256 ∷ [])

digest-length : (message : List ℕ) → length (digest message) ≡ 32
digest-length message = refl

abbrev gets : ℕ → Bool
gets n = ltb n 1000

-- One input and one output with empty scripts.
abbrev transaction : List ℕ
transaction =
    replicate 4 1
    ++ ((1 ∷ replicate 36 0)
        ++ ((0 ∷ replicate 4 255) ++ ((1 ∷ replicate 8 0) ++ (0 ∷ replicate 4 0))))

transaction_layout :
    tx_layout transaction ≡ some (record { body_start = 4; body_end = 56; lock_start = 56 })
unfolding tx_layout rd_compact skip_fields skip_field
transaction_layout = refl

-- An output script of 2 ^ 64 - 66 bytes wraps the offset to 0: the parse accepts a body that ends before
-- it starts.
abbrev wrapping : List ℕ
wrapping =
    (1 ∷ 0xfd ∷ 62 ∷ 0 ∷ 0 ∷ 1 ∷ 1 ∷ replicate 36 0)
    ++ ((0 ∷ replicate 4 255)
        ++ ((1 ∷ replicate 8 0) ++ ((0xff ∷ 190 ∷ replicate 7 255) ++ replicate 4 0)))

wrapping_layout :
    tx_layout wrapping ≡ some (record { body_start = 6; body_end = 0; lock_start = 66 })
unfolding tx_layout rd_compact skip_fields skip_field skip_witnesses rd_u64 rd_u64_loop rd_u16
wrapping_layout = refl

abbrev header : HeaderV2
header = record {
  version = 2;
  prev_block = zeros 32;
  merkle = zeros 32;
  time_on_wire = 1700000000;
  bits = 0x1d00ffff;
  nonce = 1;
  nonce2 = 2;
  nonce3 = 3;
  extranonce = zeros 16;
  time_offset = 0;
  txcount = 1;
  flags = 0;
  xor_clear = 52;
  xor_key = replicate 16 5;
  height = 800000;
  mm_rhs = zeros 32;
}
