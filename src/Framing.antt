-- ===== src/Framing.antt =====
-- src/framing.c: the four-byte frame header, the ratchet that masks it, the nonces of the channel,
-- and hexadecimal text.
pub mod Codec
pub mod Ratchet
pub mod Nonce
pub mod Hex
mod Examples
use c_datum_prime.Common.{ℕ, zero, suc, ◌+◌, ◌-◌, ◌*◌, ◌/◌, ◌%◌, ◌^◌, bit_and, bit_or, bit_xor}
use c_datum_prime.Common.{Bool, true, false, not, ◌&&◌, ◌||◌, ◌==◌, ltb, leb, if◌then◌else◌}
use c_datum_prime.Common.{List, [], ◌∷◌, ◌++◌, length, get_or, Option, none, some}
use c_datum_prime.Wire.{u8, u32, byte_at, rd_u32, wr_u32}

abbrev pub max_cmd_len : ℕ
max_cmd_len = 2 ^ 22 - 1

abbrev pub initial_hello_key : ℕ
initial_hello_key = 0xDC871829

-- x ^ y, x << k and x >> k on a uint32_t.
abbrev shl : ℕ → ℕ → ℕ
shl x k = u32 (x * 2 ^ k)

abbrev shr : ℕ → ℕ → ℕ
shr x k = x / 2 ^ k

-- The murmur3 finaliser of one word, under a fixed seed.
unfoldable pub feedback : ℕ → ℕ
feedback i =
    let k1 : ℕ = u32 (i * 0xcc9e2d51) in
    let k2 : ℕ = bit_or (shl k1 15) (shr k1 17) in
    let k3 : ℕ = u32 (k2 * 0x1b873593) in
    let h1 : ℕ = bit_xor 0xb10cfeed k3 in
    let h2 : ℕ = bit_or (shl h1 13) (shr h1 19) in
    let h3 : ℕ = u32 (h2 * 5 + 0xe6546b64) in
    let h4 : ℕ = bit_xor h3 4 in
    let h5 : ℕ = bit_xor h4 (shr h4 16) in
    let h6 : ℕ = u32 (h5 * 0x85ebca6b) in
    let h7 : ℕ = bit_xor h6 (shr h6 13) in
    let h8 : ℕ = u32 (h7 * 0xc2b2ae35) in bit_xor h8 (shr h8 16)

-- `prime_header`.
pub record Header : Type 0 where
  pub cmd_len : ℕ
  pub reserved : ℕ
  pub is_signed : Bool
  pub is_encrypted_pubkey : Bool
  pub is_encrypted_channel : Bool
  pub proto_cmd : ℕ

abbrev pub bit : Bool → ℕ
bit true = 1
bit false = 0

-- The word that `prime_header_to_bytes` builds.
pub header_word : Header → ℕ
header_word h =
    bit_or
      (bit_or
        (bit_or
          (bit_or (bit_or (bit_and h.cmd_len max_cmd_len) (bit_and h.reserved 0x3 * 2 ^ 22))
            (bit h.is_signed * 2 ^ 24))
          (bit h.is_encrypted_pubkey * 2 ^ 25))
        (bit h.is_encrypted_channel * 2 ^ 26))
      (bit_and h.proto_cmd 0x1f * 2 ^ 27)

unfoldable pub header_to_bytes : Header → List ℕ
unfolding header_word
header_to_bytes h = wr_u32 (header_word h)

-- The header that `prime_header_from_bytes` takes from a word.
pub word_header : ℕ → Header
word_header v = record {
  cmd_len = bit_and v max_cmd_len;
  reserved = u8 (bit_and (v / 2 ^ 22) 0x3);
  is_signed = not (bit_and v (2 ^ 24) == 0);
  is_encrypted_pubkey = not (bit_and v (2 ^ 25) == 0);
  is_encrypted_channel = not (bit_and v (2 ^ 26) == 0);
  proto_cmd = u8 (bit_and (v / 2 ^ 27) 0x1f);
}

unfoldable pub header_from_bytes : List ℕ → Header
unfolding word_header
header_from_bytes bytes = word_header (rd_u32 bytes)

-- `prime_ratchet_mask`: the masked bytes, and the next key.
unfoldable pub ratchet_mask : ℕ → Header → List ℕ × ℕ
ratchet_mask key h =
    let v : ℕ = bit_xor (rd_u32 (header_to_bytes h)) key in (wr_u32 v, feedback key)

-- `prime_ratchet_unmask`: the header, and the next key.
unfoldable pub ratchet_unmask : ℕ → List ℕ → Header × ℕ
ratchet_unmask key bytes =
    let v : ℕ = bit_xor (rd_u32 bytes) key in (header_from_bytes (wr_u32 v), feedback key)

-- ~x on a uint32_t.
abbrev pub complement : ℕ → ℕ
complement x = 2 ^ 32 - 1 - x

-- The client's key to the server, and the server's to the client.
unfoldable pub header_keys_from_nk : ℕ → ℕ × ℕ
header_keys_from_nk nk = (feedback nk, feedback (complement nk))

-- The rounds left of `for (j = 0; j < PRIME_NONCE_LEN; j += 4)`, and `n`: both nonces.
derive_loop : ℕ → ℕ → List ℕ × List ℕ
derive_loop zero n = ([], [])
derive_loop (suc rounds) n =
    let r : ℕ = feedback (u32 (n + 2 ^ 32 - 42)) in
    let (receiver, sender) = derive_loop rounds (complement r) in
    (wr_u32 r ++ receiver, wr_u32 (bit_xor r 0x57575757) ++ sender)

-- `prime_derive_nonces`: the client's receiver nonce and sender nonce, 24 bytes each.
unfoldable pub derive_nonces : ℕ → List ℕ → List ℕ × List ℕ
unfolding derive_loop
derive_nonces nk session_pk =
    let word : ℕ =
      bit_or
        (bit_or (bit_or (byte_at session_pk 7) (byte_at session_pk 8 * 2 ^ 8))
          (byte_at session_pk 9 * 2 ^ 16))
        (byte_at session_pk 10 * 2 ^ 24) in
    derive_loop 6 (bit_xor (u32 (nk + 2 ^ 32 - 42)) word)

-- One word a round; the loop returns at the first word that does not wrap to 0.
unfoldable pub increment_nonce : List ℕ → List ℕ
increment_nonce (a ∷ b ∷ c ∷ d ∷ rest) =
    let w : ℕ = u32 (rd_u32 (a ∷ b ∷ c ∷ d ∷ rest) + 1) in
    let carried = increment_nonce rest in wr_u32 w ++ (if w == 0 then carried else rest)
increment_nonce nonce = nonce

-- `hex_nibble`; `none` is its -1.
hex_nibble : ℕ → Option ℕ
hex_nibble c =
    if leb b'0' c && leb c b'9'
    then some (c - b'0')
    else if leb b'a' c && leb c b'f'
    then some (c - b'a' + 10)
    else if leb b'A' c && leb c b'F'
    then some (c - b'A' + 10)
    else none

-- The characters of the table "0123456789abcdef".
abbrev hex_digits : List ℕ
hex_digits =
    b'0' ∷ b'1' ∷ b'2' ∷ b'3' ∷ b'4' ∷ b'5' ∷ b'6' ∷ b'7' ∷ b'8' ∷ b'9' ∷ b'a' ∷ b'b' ∷ b'c' ∷ b'd'
    ∷ b'e' ∷ b'f' ∷ []

hex_loop : List ℕ → List ℕ
hex_loop [] = []
hex_loop (b ∷ bin) =
    get_or hex_digits (b / 2 ^ 4) 0 ∷ get_or hex_digits (bit_and b 0xf) 0 ∷ hex_loop bin

-- `prime_hex_encode` into `out_len` characters: the text before its NUL, or `none` for -1.
unfoldable pub hex_encode : List ℕ → ℕ → Option (List ℕ)
unfolding hex_loop
hex_encode bin out_len = if ltb out_len (length bin * 2 + 1) then none else some (hex_loop bin)

-- The two digits at `hex[i * 2]`; `none` where one is no digit.
hex_pair : ℕ → ℕ → Option ℕ
unfolding hex_nibble
hex_pair hi lo = elim (hex_nibble hi) [
  | none ↦ none
  | some h ↦ elim (hex_nibble lo) [ none ↦ none | some l ↦ some (u8 (bit_or (h * 2 ^ 4) l)) ]
]

unhex_loop : List ℕ → Option (List ℕ)
unhex_loop (hi ∷ lo ∷ hex) =
    let rest = unhex_loop hex in
    elim (hex_pair hi lo) [
      | none ↦ none
      | some b ↦ elim rest [ none ↦ none | some bs ↦ some (b ∷ bs) ]
    ]
unhex_loop hex = some []

-- `prime_hex_decode` of a text into exactly `out_len` bytes; `none` is its -1.
unfoldable pub hex_decode : List ℕ → ℕ → Option (List ℕ)
unfolding unhex_loop hex_pair
hex_decode hex out_len = if length hex == out_len * 2 then unhex_loop hex else none
