-- ===== src/Wire/Fields.antt =====
-- What the readers and writers of little-endian fields have to do with each other.
use c_datum_prime.Common.{ℕ, ◌+◌, ◌*◌, ◌^◌, ◌<◌, ◌≡◌, refl, ◌∙◌, bit_or, arith}
use c_datum_prime.Common.{List, [], ◌∷◌, ◌++◌}
use c_datum_prime.Common.Bits.{bit_or_fields, or_next}
use c_datum_prime.Wire.{IsByte, IsBytes, rd_u16, rd_u32, rd_u64, wr_u16, wr_u32, wr_u64}

pub rd_u16_sum :
    (a b : ℕ) (rest : List ℕ) → IsByte a → IsByte b → rd_u16 (a ∷ b ∷ rest) ≡ a + b * 2 ^ 8
unfolding rd_u16
rd_u16_sum a b rest ha hb = or_next 8 b refl ha

pub rd_u32_sum :
    (a b c d : ℕ) (rest : List ℕ)
    → IsByte a
    → IsByte b
    → IsByte c
    → IsByte d
    → rd_u32 (a ∷ b ∷ c ∷ d ∷ rest) ≡ a + b * 2 ^ 8 + c * 2 ^ 16 + d * 2 ^ 24
unfolding rd_u32
rd_u32_sum a b c d rest ha hb hc hd =
    or_next 24 d (or_next 16 c (or_next 8 b refl ha) (omega arith)) (omega arith)

pub rd_u64_sum :
    (a b c d e f g h : ℕ) (rest : List ℕ)
    → IsBytes (a ∷ b ∷ c ∷ d ∷ e ∷ f ∷ g ∷ h ∷ [])
    → rd_u64 (a ∷ b ∷ c ∷ d ∷ e ∷ f ∷ g ∷ h ∷ rest)
      ≡ a + b * 2 ^ 8 + c * 2 ^ 16 + d * 2 ^ 24 + e * 2 ^ 32 + f * 2 ^ 40 + g * 2 ^ 48 + h * 2 ^ 56
unfolding rd_u64
rd_u64_sum a b c d e f g h rest p =
    or_next 56 h
      (or_next 48 g (or_next 40 f (or_next 32 e low (omega arith)) (omega arith)) (omega arith))
      (omega arith)
  where
    first : bit_or 0 (a * 2 ^ 0) ≡ a
    first = bit_or_fields 0 0 a (omega arith) ∙ omega arith

    low :
        bit_or (bit_or (bit_or (bit_or 0 (a * 2 ^ 0)) (b * 2 ^ 8)) (c * 2 ^ 16)) (d * 2 ^ 24)
        ≡ a + b * 2 ^ 8 + c * 2 ^ 16 + d * 2 ^ 24
    low = or_next 24 d (or_next 16 c (or_next 8 b first (omega arith)) (omega arith)) (omega arith)

-- A 16-bit field that is written is read back, whatever follows it.
pub rd_u16-wr_u16 : (v : ℕ) (rest : List ℕ) → v < 2 ^ 16 → rd_u16 (wr_u16 v ++ rest) ≡ v
unfolding wr_u16
rd_u16-wr_u16 v rest h = rd_u16_sum _ _ rest (omega arith) (omega arith) ∙ omega arith

-- A 32-bit field that is written is read back, whatever follows it.
pub rd_u32-wr_u32 : (v : ℕ) (rest : List ℕ) → v < 2 ^ 32 → rd_u32 (wr_u32 v ++ rest) ≡ v
unfolding wr_u32
rd_u32-wr_u32 v rest h =
    rd_u32_sum _ _ _ _ rest (omega arith) (omega arith) (omega arith) (omega arith) ∙ omega arith

-- A 64-bit field that is written is read back, whatever follows it.
pub rd_u64-wr_u64 : (v : ℕ) (rest : List ℕ) → v < 2 ^ 64 → rd_u64 (wr_u64 v ++ rest) ≡ v
unfolding wr_u64
rd_u64-wr_u64 v rest h = rd_u64_sum _ _ _ _ _ _ _ _ rest (omega arith) ∙ omega arith

-- Four bytes that are read are written back.
pub wr_u32-rd_u32 :
    (a b c d : ℕ) (rest : List ℕ)
    → IsByte a
    → IsByte b
    → IsByte c
    → IsByte d
    → wr_u32 (rd_u32 (a ∷ b ∷ c ∷ d ∷ rest)) ≡ a ∷ b ∷ c ∷ d ∷ []
unfolding wr_u32
wr_u32-rd_u32 a b c d rest ha hb hc hd = rw (rd_u32_sum a b c d rest ha hb hc hd) (ground arith)

pub wr_u32-IsBytes : (v : ℕ) → IsBytes (wr_u32 v)
unfolding wr_u32
wr_u32-IsBytes v = omega arith

pub rd_u32-lt :
    (a b c d : ℕ) (rest : List ℕ)
    → IsByte a
    → IsByte b
    → IsByte c
    → IsByte d
    → rd_u32 (a ∷ b ∷ c ∷ d ∷ rest) < 2 ^ 32
rd_u32-lt a b c d rest ha hb hc hd = omega (arith, rd_u32_sum a b c d rest ha hb hc hd)
