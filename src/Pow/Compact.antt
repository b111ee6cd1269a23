-- ===== src/Pow/Compact.antt =====
-- Compact sizes are read as they were written, anywhere in a message.
use c_datum_prime.Common.{ℕ, suc, ◌+◌, ◌^◌, ◌≤◌, ◌<◌, ◌≡◌, refl, ap, inl, inr}
use c_datum_prime.Common.{ltb, leb, Bool-cases, some}
use c_datum_prime.Common.{List, [], ◌∷◌, ◌++◌, length, drop}
use c_datum_prime.Common.{length-append, arith}
use c_datum_prime.Wire.{byte_at, rd_u16, rd_u32, rd_u64, wr_u16, wr_u32, wr_u64}
use c_datum_prime.Wire.Fields.{rd_u16-wr_u16, rd_u32-wr_u32, rd_u64-wr_u64}
use c_datum_prime.Pow.{encode_compact_size, rd_compact}

byte_at-append : (pre : List ℕ) (b : ℕ) (xs : List ℕ) → byte_at (pre ++ (b ∷ xs)) (length pre) ≡ b
byte_at-append [] b xs = refl
byte_at-append (p ∷ pre) b xs = byte_at-append pre b xs

drop_behind : (pre : List ℕ) (b : ℕ) (xs : List ℕ) → drop (length pre + 1) (pre ++ (b ∷ xs)) ≡ xs
drop_behind [] b xs = refl
drop_behind (p ∷ pre) b xs =
    let next : suc (length pre) + 1 ≡ suc (length pre + 1) = omega arith in
    rw next (drop_behind pre b xs)

rd_one :
    (pre : List ℕ) (b : ℕ) (xs : List ℕ)
    → b < 0xfd
    → rd_compact (pre ++ (b ∷ xs)) (length pre) ≡ some (b, length pre + 1)
unfolding rd_compact
rd_one pre b xs h = rw (byte_at-append pre b xs) (ground (arith, length-append pre (b ∷ xs)))

rd_two :
    (pre xs : List ℕ)
    → 2 ≤ length xs
    → rd_compact (pre ++ (0xfd ∷ xs)) (length pre) ≡ some (rd_u16 xs, length pre + 1 + 2)
unfolding rd_compact
rd_two pre xs room =
    rw (byte_at-append pre 0xfd xs, drop_behind pre 0xfd xs)
      (ground (arith, length-append pre (0xfd ∷ xs)))

rd_four :
    (pre xs : List ℕ)
    → 4 ≤ length xs
    → rd_compact (pre ++ (0xfe ∷ xs)) (length pre) ≡ some (rd_u32 xs, length pre + 1 + 4)
unfolding rd_compact
rd_four pre xs room =
    rw (byte_at-append pre 0xfe xs, drop_behind pre 0xfe xs)
      (ground (arith, length-append pre (0xfe ∷ xs)))

rd_eight :
    (pre xs : List ℕ)
    → 8 ≤ length xs
    → rd_compact (pre ++ (0xff ∷ xs)) (length pre) ≡ some (rd_u64 xs, length pre + 1 + 8)
unfolding rd_compact
rd_eight pre xs room =
    rw (byte_at-append pre 0xff xs, drop_behind pre 0xff xs)
      (ground (arith, length-append pre (0xff ∷ xs)))

wr_lengths : (n : ℕ) → (length (wr_u16 n) ≡ 2) × (length (wr_u32 n) ≡ 4) × (length (wr_u64 n) ≡ 8)
unfolding wr_u16 wr_u32 wr_u64
wr_lengths n = (refl, refl, refl)

-- A size of at most 64 bits is read as it was written, whatever stands before and after it, and the
-- offset moves behind it.
pub rd_compact-encode_compact_size :
    (pre : List ℕ) (n : ℕ) (rest : List ℕ)
    → n < 2 ^ 64
    → rd_compact (pre ++ (encode_compact_size n ++ rest)) (length pre)
      ≡ some (n, length pre + length (encode_compact_size n))
unfolding encode_compact_size
rd_compact-encode_compact_size pre n rest h =
    let (two, four, eight) = wr_lengths n in
    elim (Bool-cases (ltb n 0xfd)) [
      | inl small ↦ rw small (rd_one pre n rest (ground arith))
      | inr more ↦ elim (Bool-cases (leb n 0xffff)) [
        | inl short ↦
            rw
              (
                more,
                short,
                two,
                rd_two pre (wr_u16 n ++ rest) (omega (arith, length-append (wr_u16 n) rest)),
                rd_u16-wr_u16 n rest (ground arith),
              )
              (ap (λ (t : ℕ). some (n, t)) (omega arith))
        | inr wide ↦ elim (Bool-cases (leb n 0xffffffff)) [
          | inl word ↦
              rw
                (
                  more,
                  wide,
                  word,
                  four,
                  rd_four pre (wr_u32 n ++ rest) (omega (arith, length-append (wr_u32 n) rest)),
                  rd_u32-wr_u32 n rest (ground arith),
                )
                (ap (λ (t : ℕ). some (n, t)) (omega arith))
          | inr long ↦
              rw
                (
                  more,
                  wide,
                  long,
                  eight,
                  rd_eight pre (wr_u64 n ++ rest) (omega (arith, length-append (wr_u64 n) rest)),
                  rd_u64-wr_u64 n rest h,
                )
                (ap (λ (t : ℕ). some (n, t)) (omega arith))
        ]
      ]
    ]
