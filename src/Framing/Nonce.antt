-- ===== src/Framing/Nonce.antt =====
-- `prime_increment_nonce` counts: a nonce is a little-endian number that goes up by one.
use c_datum_prime.Common.{ℕ, zero, suc, ◌+◌, ◌*◌, ◌%◌, ◌^◌, ◌<◌, ◌≡◌, ◌≢◌, refl, ap, ◌∙◌}
use c_datum_prime.Common.{
  List, [], ◌∷◌, ◌++◌, length, arith, Bool, true, false, inr, ◌⊎◌, ◌==◌, if◌then◌else◌,
}
use c_datum_prime.Wire.{IsBytes, u32, rd_u32, wr_u32}
use c_datum_prime.Wire.Fields.{rd_u32_sum}
use c_datum_prime.Framing.{increment_nonce}
use native.Mathlib.Nat.{pow-suc}

-- The number that a nonce stands for.
abbrev pub le_value : List ℕ → ℕ
le_value [] = 0
le_value (b ∷ bs) = b + 256 * le_value bs

-- Arrays of `k` words.
abbrev pub IsWords : ℕ → List ℕ → Type 0
IsWords k n = IsBytes n × (length n ≡ 4 * k)

word_value :
    (v : ℕ) (rest : List ℕ) → v < 2 ^ 32 → le_value (wr_u32 v ++ rest) ≡ v + 2 ^ 32 * le_value rest
unfolding wr_u32
word_value v rest h = omega arith

words_pow : (k : ℕ) → 256 ^ (4 * suc k) ≡ 2 ^ 32 * 256 ^ (4 * k)
words_pow k = ap (λ (t : ℕ). 256 ^ t) four ∙ simp pow-suc (omega arith)
  where
    four : 4 * suc k ≡ suc (suc (suc (suc (4 * k))))
    four = omega arith

-- What `n` and the nonce after it stand for: the next number, or every bit was set and is clear.
abbrev Counts : ℕ → ℕ → ℕ → Type 0
Counts k v v' = (v' ≡ v + 1) ⊎ ((v + 1 ≡ 256 ^ (4 * k)) × (v' ≡ 0))

-- One word carries into the next exactly when it wraps.
module _ (k r v : ℕ) (rest : List ℕ) (range : r < 2 ^ 32) where
  word-Counts :
      Counts k (le_value rest) v
      → Counts
          (suc k)
          (r + 2 ^ 32 * le_value rest)
          (u32 (r + 1) + 2 ^ 32 * (if u32 (r + 1) == 0 then v else le_value rest))
  word-Counts h = ground (arith, words_pow k)

le_value_if :
    (c : Bool) (xs ys : List ℕ)
    → le_value (if c then xs else ys) ≡ (if c then le_value xs else le_value ys)
le_value_if true xs ys = refl
le_value_if false xs ys = refl

increment_nonce-Counts :
    (k : ℕ) (n : List ℕ) → IsWords k n → Counts k (le_value n) (le_value (increment_nonce n))
unfolding increment_nonce
increment_nonce-Counts zero [] (b, e) = inr (refl, refl)
increment_nonce-Counts zero (x ∷ n) (b, e) = absurd (omega arith)
increment_nonce-Counts (suc k) [] (b, e) = absurd (omega arith)
increment_nonce-Counts (suc k) (a ∷ []) (b, e) = absurd (omega arith)
increment_nonce-Counts (suc k) (a ∷ b ∷ []) (bs, e) = absurd (omega arith)
increment_nonce-Counts (suc k) (a ∷ b ∷ c ∷ []) (bs, e) = absurd (omega arith)
increment_nonce-Counts (suc k) (a ∷ b ∷ c ∷ d ∷ rest) (bs, e) =
    let r = rd_u32 (a ∷ b ∷ c ∷ d ∷ rest) in
    let sum = rd_u32_sum a b c d rest bs.0 bs.1.0 bs.1.1.0 bs.1.1.1.0 in
    let split : le_value (a ∷ b ∷ c ∷ d ∷ rest) ≡ r + 2 ^ 32 * le_value rest = omega (arith, sum) in
    rw
      (
        split,
        word_value (u32 (r + 1)) (if u32 (r + 1) == 0 then increment_nonce rest else rest)
            (omega arith),
        le_value_if (u32 (r + 1) == 0) (increment_nonce rest) rest,
      )
      (word-Counts k r (le_value (increment_nonce rest)) rest (omega (arith, sum))
        (increment_nonce-Counts k rest (bs.1.1.1.1, omega arith)))

IsWords-if :
    (k : ℕ) (c : Bool) (xs ys : List ℕ)
    → IsWords k xs
    → IsWords k ys
    → IsWords k (if c then xs else ys)
IsWords-if k true xs ys hx hy = hx
IsWords-if k false xs ys hx hy = hy

word-IsWords : (k w : ℕ) (rest : List ℕ) → IsWords k rest → IsWords (suc k) (wr_u32 w ++ rest)
unfolding wr_u32
word-IsWords k w rest (b, e) =
    ((omega arith, (omega arith, (omega arith, (omega arith, b)))), omega arith)

increment_nonce-IsWords : (k : ℕ) (n : List ℕ) → IsWords k n → IsWords k (increment_nonce n)
unfolding increment_nonce
increment_nonce-IsWords zero [] h = h
increment_nonce-IsWords zero (x ∷ n) h = absurd (omega arith)
increment_nonce-IsWords (suc k) [] h = absurd (omega arith)
increment_nonce-IsWords (suc k) (a ∷ []) h = absurd (omega arith)
increment_nonce-IsWords (suc k) (a ∷ b ∷ []) h = absurd (omega arith)
increment_nonce-IsWords (suc k) (a ∷ b ∷ c ∷ []) h = absurd (omega arith)
increment_nonce-IsWords (suc k) (a ∷ b ∷ c ∷ d ∷ rest) (bs, e) =
    let w = u32 (rd_u32 (a ∷ b ∷ c ∷ d ∷ rest) + 1) in
    let tail : IsWords k rest = (bs.1.1.1.1, omega arith) in
    word-IsWords k w _ (IsWords-if k (w == 0) _ rest (increment_nonce-IsWords k rest tail) tail)

le_value-lt : (n : List ℕ) → IsBytes n → le_value n < 256 ^ length n
le_value-lt [] h = omega arith
le_value-lt (b ∷ bs) h = omega (arith, le_value-lt bs h.1, pow-suc 256 (length bs))

-- A 24-byte nonce: `PRIME_NONCE_LEN`.
abbrev pub IsNonce : List ℕ → Type 0
IsNonce = IsWords 6

nonce-lt : (n : List ℕ) → IsNonce n → le_value n < 2 ^ 192
nonce-lt n h = omega (arith, le_value-lt n h.0, ap (λ (t : ℕ). 256 ^ t) h.1)

-- `prime_increment_nonce` adds one to the little-endian number of 24 bytes, modulo 2 ^ 192, and
-- leaves 24 bytes.
pub increment_nonce_lem :
    (n : List ℕ)
    → IsNonce n
    → (le_value (increment_nonce n) ≡ (le_value n + 1) % 2 ^ 192) × IsNonce (increment_nonce n)
increment_nonce_lem n h =
    let valid = increment_nonce-IsWords 6 n h in
    (omega (arith, increment_nonce-Counts 6 n h, nonce-lt n h, nonce-lt _ valid), valid)

-- The nonce of the `i`-th message that a channel seals.
unfoldable pub nonce_after : ℕ → List ℕ → List ℕ
nonce_after zero n = n
nonce_after (suc i) n = nonce_after i (increment_nonce n)

nonce_after_value :
    (i : ℕ) (n : List ℕ) → IsNonce n → le_value (nonce_after i n) ≡ (le_value n + i) % 2 ^ 192
unfolding nonce_after
nonce_after_value zero n h = omega (arith, nonce-lt n h)
nonce_after_value (suc i) n h =
    let (value, valid) = increment_nonce_lem n h in
    omega (arith, value, nonce_after_value i (increment_nonce n) valid)

-- No nonce is used twice: fewer than 2 ^ 192 messages of one channel have different nonces.
pub nonce_after_ne :
    (n : List ℕ) (i j : ℕ) → IsNonce n → i < j → j < 2 ^ 192 → nonce_after i n ≢ nonce_after j n
nonce_after_ne n i j h lt bound e =
    omega (arith, nonce_after_value i n h, nonce_after_value j n h, ap le_value e)
