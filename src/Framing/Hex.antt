-- ===== src/Framing/Hex.antt =====
-- `prime_hex_encode` and `prime_hex_decode`.
use c_datum_prime.Common.{ℕ, ◌+◌, ◌*◌, ◌/◌, ◌^◌, ◌≤◌, ◌≡◌, refl, ap}
use c_datum_prime.Common.{List, [], ◌∷◌, length, get_or, arith, bit_and, Bool, true, ◌==◌}
use c_datum_prime.Common.{
  Option, none, some, ==_iff, false, All, Bool-cases, ltb, not, ◌&&◌, inl, inr,
}
use c_datum_prime.Common.Tables.{is_table, is_table-at}
use c_datum_prime.Wire.{IsByte, IsBytes}
use c_datum_prime.Framing.{hex_digits, hex_pair, hex_loop, unhex_loop, hex_encode, hex_decode}

-- The digits of a byte, and the byte that they are read as.
abbrev reads_back : ℕ → Bool
reads_back b =
    elim (hex_pair (get_or hex_digits (b / 2 ^ 4) 0) (get_or hex_digits (bit_and b 0xf) 0)) [
      | none ↦ false
      | some v ↦ v == b
    ]

byte_table : is_table (λ b. reads_back b) 256 ≡ true
unfolding is_table hex_pair
byte_table = refl

some_of_reads :
    (o : Option ℕ) (b : ℕ) → (elim o [ none ↦ false | some v ↦ v == b ]) ≡ true → o ≡ some b
some_of_reads none b h = cc
some_of_reads (some v) b h = ap some ((==_iff v b).0 h)

hex_pair_byte :
    (b : ℕ)
    → IsByte b
    → hex_pair (get_or hex_digits (b / 2 ^ 4) 0) (get_or hex_digits (bit_and b 0xf) 0) ≡ some b
hex_pair_byte b h = some_of_reads _ b (is_table-at (λ x. reads_back x) 256 byte_table b h)

unhex_loop-hex_loop : (bs : List ℕ) → IsBytes bs → unhex_loop (hex_loop bs) ≡ some bs
unfolding hex_loop unhex_loop
unhex_loop-hex_loop [] h = refl
unhex_loop-hex_loop (b ∷ bs) h = ground (arith, hex_pair_byte b h.0, unhex_loop-hex_loop bs h.1)

length-hex_loop : (bs : List ℕ) → length (hex_loop bs) ≡ length bs * 2
unfolding hex_loop
length-hex_loop [] = refl
length-hex_loop (b ∷ bs) = omega (arith, length-hex_loop bs)

-- With room for the digits and the NUL, bytes are encoded to two digits each, and decoding them
-- into an array of that length gives the bytes back.
pub hex_decode-hex_encode :
    (bs : List ℕ) (out_len : ℕ)
    → IsBytes bs
    → length bs * 2 + 1 ≤ out_len
    → (text : List ℕ) × (hex_encode bs out_len ≡ some text)
      × (length text ≡ length bs * 2)
      × (hex_decode text (length bs) ≡ some bs)
unfolding hex_encode hex_decode
hex_decode-hex_encode bs out_len h room = (
  hex_loop bs,
  ground arith,
  length-hex_loop bs,
  ground (arith, length-hex_loop bs, unhex_loop-hex_loop bs h),
)

-- No digit is the character 10.
abbrev is_plain : ℕ → Bool
is_plain b =
    not (get_or hex_digits (b / 2 ^ 4) 0 == 10) && not (get_or hex_digits (bit_and b 0xf) 0 == 10)

plain_table : is_table (λ b. is_plain b) 256 ≡ true
unfolding is_table
plain_table = refl

hex_loop_plain : (bs : List ℕ) → IsBytes bs → All (λ (c : ℕ). (c == 10) ≡ false) (hex_loop bs)
unfolding hex_loop
hex_loop_plain [] h = tt
hex_loop_plain (b ∷ bs) h =
    let plain = is_table-at (λ x. is_plain x) 256 plain_table b h.0 in
    (ground (arith, plain), (ground (arith, plain), hex_loop_plain bs h.1))

-- A text of digits has no newline.
pub hex_encode_plain :
    (bs : List ℕ) (out_len : ℕ) (text : List ℕ)
    → IsBytes bs
    → hex_encode bs out_len ≡ some text
    → All (λ (c : ℕ). (c == 10) ≡ false) text
unfolding hex_encode
hex_encode_plain bs out_len text h e = elim (Bool-cases (ltb out_len (length bs * 2 + 1))) [
  | inl short ↦ absurd (ground arith)
  | inr room ↦ let same : hex_loop bs ≡ text = ground arith in rw same at (hex_loop_plain bs h)
]
