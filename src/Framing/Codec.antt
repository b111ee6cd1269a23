-- ===== src/Framing/Codec.antt =====
-- `prime_header_to_bytes` and `prime_header_from_bytes` are inverse.
use c_datum_prime.Common.{ℕ, ◌+◌, ◌*◌, ◌/◌, ◌%◌, ◌^◌, ◌≤◌, ◌<◌, ◌≡◌, refl, ◌∙◌, arith}
use c_datum_prime.Common.{Bool, true, false, not, ◌==◌, List, [], ◌∷◌, ◌++◌, bit_and, ◌⊎◌}
use c_datum_prime.Common.Bits.{bit_and_mask, bit_and_fits, bit_and_single, or_next}
use native.Mathlib.Nat.{one-le-pow}
use c_datum_prime.Wire.{IsByte}
use c_datum_prime.Wire.Fields.{rd_u32-wr_u32, wr_u32-rd_u32, rd_u32-lt}
use c_datum_prime.Framing.{
  Header, bit, header_word, word_header, header_to_bytes, header_from_bytes,
}
use c_datum_prime.Framing.{max_cmd_len}

-- The fields that a header has room for: 22, 2 and 5 bits.
pub record Fits (h : Header) : Type 0 where
  pub cmd_len : h.cmd_len ≤ max_cmd_len
  pub reserved : h.reserved < 4
  pub proto_cmd : h.proto_cmd < 32

bit-lt : (b : Bool) → bit b < 2
bit-lt true = omega arith
bit-lt false = omega arith

-- The word as a sum of its fields.
word_sum : Header → ℕ
word_sum h =
    h.cmd_len
    + h.reserved * 2 ^ 22
    + bit h.is_signed * 2 ^ 24
    + bit h.is_encrypted_pubkey * 2 ^ 25
    + bit h.is_encrypted_channel * 2 ^ 26
    + h.proto_cmd * 2 ^ 27

header_word-eq-word_sum : (h : Header) → Fits h → header_word h ≡ word_sum h
unfolding header_word word_sum
header_word-eq-word_sum h f =
    rw
      (
        bit_and_fits 22 h.cmd_len (omega arith),
        bit_and_fits 2 h.reserved (omega arith),
        bit_and_fits 5 h.proto_cmd (omega arith),
      )
      (or_next 27 h.proto_cmd
        (or_next 26 (bit h.is_encrypted_channel)
          (or_next 25 (bit h.is_encrypted_pubkey)
            (or_next 24 (bit h.is_signed) (or_next 22 h.reserved refl (omega arith)) (omega arith))
            (omega (arith, bit-lt h.is_signed)))
          (omega (arith, bit-lt h.is_signed, bit-lt h.is_encrypted_pubkey)))
        (omega
          (arith, bit-lt h.is_signed, bit-lt h.is_encrypted_pubkey, bit-lt h.is_encrypted_channel)))

-- `(v & (1 << k)) != 0` reads the digit at place `k`.
flag_of_digit : (k v : ℕ) (b : Bool) → v / 2 ^ k % 2 ≡ bit b → not (bit_and v (2 ^ k) == 0) ≡ b
flag_of_digit k v true e = rw (bit_and_single k v, e) (ground (arith, one-le-pow k 2 (omega arith)))
flag_of_digit k v false e = rw (bit_and_single k v, e) (ground arith)

module _ (h : Header) (f : Fits h) where
  bits : (bit h.is_signed < 2) × (bit h.is_encrypted_pubkey < 2) × (bit h.is_encrypted_channel < 2)
  bits = (bit-lt h.is_signed, bit-lt h.is_encrypted_pubkey, bit-lt h.is_encrypted_channel)

  word_sum-lt : word_sum h < 2 ^ 32
  unfolding word_sum
  word_sum-lt = omega (arith, bits)

  word_header-word_sum : word_header (word_sum h) ≡ h
  unfolding word_header word_sum
  word_header-word_sum = ground (
    arith,
    bits,
    bit_and_mask 22 (word_sum h),
    bit_and_mask 2 (word_sum h / 2 ^ 22),
    bit_and_mask 5 (word_sum h / 2 ^ 27),
    flag_of_digit 24 (word_sum h) h.is_signed (omega (arith, bits)),
    flag_of_digit 25 (word_sum h) h.is_encrypted_pubkey (omega (arith, bits)),
    flag_of_digit 26 (word_sum h) h.is_encrypted_channel (omega (arith, bits)),
  )

  -- What `header_to_bytes` writes is the header's word, and the word gives the header back.
  word_header-header_word : word_header (header_word h) ≡ h
  word_header-header_word = rw (header_word-eq-word_sum h f) word_header-word_sum

  pub header_word-lt : header_word h < 2 ^ 32
  header_word-lt = rw (header_word-eq-word_sum h f) word_sum-lt

-- A header whose fields fit is read back from the bytes that it is written as, whatever follows.
pub header_from_bytes-header_to_bytes :
    (h : Header) (rest : List ℕ) → Fits h → header_from_bytes (header_to_bytes h ++ rest) ≡ h
unfolding header_from_bytes header_to_bytes
header_from_bytes-header_to_bytes h rest f =
    rw (rd_u32-wr_u32 (header_word h) rest (header_word-lt h f)) (word_header-header_word h f)

-- The fields of any word fit.
word_header-Fits : (v : ℕ) → Fits (word_header v)
unfolding word_header
word_header-Fits v =
    omega (arith, bit_and_mask 22 v, bit_and_mask 2 (v / 2 ^ 22), bit_and_mask 5 (v / 2 ^ 27))

bit_of_flag : (k v : ℕ) → bit (not (bit_and v (2 ^ k) == 0)) ≡ v / 2 ^ k % 2
bit_of_flag k v = rw (bit_and_single k v) (ground (arith, one-le-pow k 2 (omega arith), digit))
  where
    digit : (v / 2 ^ k % 2 ≡ 0) ⊎ (v / 2 ^ k % 2 ≡ 1)
    digit = omega arith

header_word-word_header : (v : ℕ) → v < 2 ^ 32 → header_word (word_header v) ≡ v
header_word-word_header v h =
    header_word-eq-word_sum (word_header v) (word_header-Fits v)
    ∙ unfold word_sum word_header in
      omega (
        arith,
        bit_and_mask 22 v,
        bit_and_mask 2 (v / 2 ^ 22),
        bit_and_mask 5 (v / 2 ^ 27),
        bit_of_flag 24 v,
        bit_of_flag 25 v,
        bit_of_flag 26 v,
      )

-- Any four bytes are written back from the header that they are read as: no bit of a frame header
-- is lost.
pub header_to_bytes-header_from_bytes :
    (a b c d : ℕ)
    → IsByte a
    → IsByte b
    → IsByte c
    → IsByte d
    → let bytes = a ∷ b ∷ c ∷ d ∷ [] in
      (header_to_bytes (header_from_bytes bytes) ≡ bytes) × Fits (header_from_bytes bytes)
unfolding header_to_bytes header_from_bytes
header_to_bytes-header_from_bytes a b c d ha hb hc hd = (
  rw (header_word-word_header _ (rd_u32-lt a b c d [] ha hb hc hd))
      (wr_u32-rd_u32 a b c d [] ha hb hc hd),
  word_header-Fits _,
)
