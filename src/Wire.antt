-- ===== src/Wire.antt =====
-- Little-endian fields of messages: `rd_u16`, `rd_u32`, `rd_u64`, `wr_u16`, `wr_u32` and `wr_u64`
-- of src/mining.c, which src/pow.c (`wr32`) and src/handshake.c (`put_u32le`, `put_u64le`) repeat,
-- and the byte-wise tests of memcmp and strcmp. A buffer is the list of its bytes, and a pointer
-- `p + i` into one is `drop i p`.
pub mod Fields
pub mod Compare
use c_datum_prime.Common.{ℕ, zero, suc, ◌+◌, ◌*◌, ◌/◌, ◌%◌, ◌^◌, ◌<◌, bit_or, Bool, true, false}
use c_datum_prime.Common.{List, [], ◌∷◌, ◌&&◌, ◌==◌, get_or, All, ltb, if◌then◌else◌}

abbrev pub IsByte : ℕ → Type 0
IsByte b = b < 256

abbrev pub IsBytes : List ℕ → Type 0
IsBytes bs = All IsByte bs

-- The casts of C.
abbrev pub u8 : ℕ → ℕ
u8 n = n % 2 ^ 8

abbrev pub u16 : ℕ → ℕ
u16 n = n % 2 ^ 16

abbrev pub u32 : ℕ → ℕ
u32 n = n % 2 ^ 32

abbrev pub u64 : ℕ → ℕ
u64 n = n % 2 ^ 64

-- `p[i]`. The callers test the length first.
abbrev pub byte_at : List ℕ → ℕ → ℕ
byte_at p i = get_or p i 0

unfoldable pub rd_u16 : List ℕ → ℕ
rd_u16 p = bit_or (byte_at p 0) (byte_at p 1 * 2 ^ 8)

unfoldable pub rd_u32 : List ℕ → ℕ
rd_u32 p =
    bit_or (bit_or (bit_or (byte_at p 0) (byte_at p 1 * 2 ^ 8)) (byte_at p 2 * 2 ^ 16))
      (byte_at p 3 * 2 ^ 24)

-- for (i = 0; i < 8; i++) v |= (uint64_t)p[i] << (8 * i): the rounds left, `i`, and `v`.
unfoldable pub rd_u64_loop : ℕ → ℕ → ℕ → List ℕ → ℕ
rd_u64_loop zero i v p = v
rd_u64_loop (suc n) i v p = rd_u64_loop n (i + 1) (bit_or v (byte_at p i * 2 ^ (8 * i))) p

unfoldable pub rd_u64 : List ℕ → ℕ
unfolding rd_u64_loop
rd_u64 p = rd_u64_loop 8 0 0 p

unfoldable pub wr_u16 : ℕ → List ℕ
wr_u16 v = u8 v ∷ u8 (v / 2 ^ 8) ∷ []

unfoldable pub wr_u32 : ℕ → List ℕ
wr_u32 v = u8 v ∷ u8 (v / 2 ^ 8) ∷ u8 (v / 2 ^ 16) ∷ u8 (v / 2 ^ 24) ∷ []

-- for (i = 0; i < 8; i++) p[i] = (unsigned char)(v >> (8 * i)): the rounds left, and `i`.
wr_u64_loop : ℕ → ℕ → ℕ → List ℕ
wr_u64_loop zero i v = []
wr_u64_loop (suc n) i v = u8 (v / 2 ^ (8 * i)) ∷ wr_u64_loop n (i + 1) v

unfoldable pub wr_u64 : ℕ → List ℕ
unfolding wr_u64_loop
wr_u64 v = wr_u64_loop 8 0 v

-- memcmp(a, b, n) == 0 on arrays of one length, and strcmp(a, b) == 0 on the texts before the NUL.
unfoldable pub bytes_eq : List ℕ → List ℕ → Bool
bytes_eq [] [] = true
bytes_eq [] (b ∷ bs) = false
bytes_eq (a ∷ as') [] = false
bytes_eq (a ∷ as') (b ∷ bs) = a == b && bytes_eq as' bs

-- strcmp(a, b) <= 0, and memcmp(a, b, n) <= 0 on arrays of one length.
unfoldable pub bytes_le : List ℕ → List ℕ → Bool
bytes_le [] bs = true
bytes_le (a ∷ as') [] = false
bytes_le (a ∷ as') (b ∷ bs) = if ltb a b then true else if a == b then bytes_le as' bs else false
