-- ===== src/Address/Number.antt =====
-- The number that `base58_script` reads.
use c_datum_prime.Common.{ℕ, zero, suc, ◌+◌, ◌*◌, ◌/◌, ◌^◌, ◌≤◌, ◌<◌, ◌≡◌, refl, ap, inl, inr}
use c_datum_prime.Common.{false, ◌==◌, Bool-cases, Option-cases, Option, none, some}
use c_datum_prime.Common.{List, [], ◌∷◌, length, replicate}
use c_datum_prime.Common.{arith}
use c_datum_prime.Wire.{IsBytes, u32}
use c_datum_prime.Ledger.Types.{Text}
use native.Mathlib.Nat.{pow-suc}
use c_datum_prime.Framing.Nonce.{le_value}
use c_datum_prime.Address.{base58_digits, base58_val, digit_at, mul_add, number_loop}

-- The digits in base 58, over what stands before them.
abbrev pub base58_value : ℕ → Text → Option ℕ
base58_value acc [] = some acc
base58_value acc (c ∷ addr) = elim (base58_val c) [
  | none ↦ none
  | some v ↦ base58_value (acc * 58 + v) addr
]

digit_at-lt :
    (i : ℕ) (digits : Text) (c v : ℕ) → digit_at i digits c ≡ some v → v < i + length digits
unfolding digit_at
digit_at-lt i [] c v e = absurd (ground arith)
digit_at-lt i (d ∷ digits) c v e = elim (Bool-cases (d == c)) [
  | inl here ↦ let e' : some i ≡ some v = rw here at e in ground arith
  | inr later ↦
      let e' : digit_at (i + 1) digits c ≡ some v = rw later at e in
      omega (arith, digit_at-lt (i + 1) digits c v e')
]

-- One digit more.
record IsNext (num next : List ℕ) (carry out : ℕ) : Type 0 where
  bytes : IsBytes next
  same : length next ≡ length num
  small : out < 58
  value : le_value next + 256 ^ length num * out ≡ le_value num * 58 + carry

mul_add-IsNext :
    (num : List ℕ) (carry : ℕ)
    → IsBytes num
    → carry < 58
    → IsNext num (mul_add num carry).0 carry (mul_add num carry).1
unfolding mul_add
mul_add-IsNext [] carry bytes small = record {
  bytes = tt;
  same = refl;
  small = small;
  value = omega arith;
}
mul_add-IsNext (b ∷ num) carry bytes small =
    let byte : b < 2 ^ 8 = bytes.0 in
    let t : ℕ = carry + 58 * b in
    let fits : u32 t ≡ t = omega (arith, byte, small) in
    let rest = mul_add-IsNext num (t / 2 ^ 8) bytes.1 (omega (arith, byte, small)) in
    rw fits (record {
      bytes = (omega arith, rest.bytes);
      same = omega (arith, rest.same);
      small = rest.small;
      value =
          let shift : 256 ^ suc (length num) ≡ 256 ^ length num * 256 = pow-suc 256 (length num) in
          omega (arith, ap (λ (p : ℕ). p * (mul_add num (t / 2 ^ 8)).1) shift, rest.value, byte);
    })

-- What the loop makes of `k` bytes is the number, or the number is too large for them.
abbrev pub IsNumber : ℕ → Option ℕ → Option (List ℕ) → Type 0
IsNumber k none out = out ≡ none
IsNumber k (some n) none = 256 ^ k ≤ n
IsNumber k (some n) (some num) = IsBytes num × length num ≡ k × le_value num ≡ n

base58_value-le : (acc : ℕ) (addr : Text) (n : ℕ) → base58_value acc addr ≡ some n → acc ≤ n
base58_value-le acc [] n e = ground arith
base58_value-le acc (c ∷ addr) n e = elim (Option-cases (base58_val c)) [
  | inl bad ↦ absurd (let e' : none ≡ some n = rw (base58_value, bad) at e in ground arith)
  | inr good ↦
      let e' : base58_value (acc * 58 + good.0) addr ≡ some n = rw (base58_value, good.1) at e in
      omega (arith, base58_value-le (acc * 58 + good.0) addr n e')
]

overflow_IsNumber :
    (k acc : ℕ) (addr : Text) → 256 ^ k ≤ acc → IsNumber k (base58_value acc addr) none
overflow_IsNumber k acc addr h = elim (Option-cases (base58_value acc addr)) [
  | inl bad ↦ rw bad refl
  | inr good ↦ rw good.1 (omega (arith, base58_value-le acc addr good.0 good.1))
]

zeros-IsBytes : (k : ℕ) → IsBytes (replicate k 0)
zeros-IsBytes zero = tt
zeros-IsBytes (suc k) = (omega arith, zeros-IsBytes k)

le_mul_of_ne : (p q : ℕ) → (q == 0) ≡ false → p ≤ p * q
le_mul_of_ne p zero e = absurd (ground (arith, e))
le_mul_of_ne p (suc q) e = omega arith

base58_val-lt : (c v : ℕ) → base58_val c ≡ some v → v < 58
unfolding base58_val
base58_val-lt c v e = digit_at-lt 0 base58_digits c v e

number_loop-IsNumber :
    (num : List ℕ) (addr : Text)
    → IsBytes num
    → IsNumber (length num) (base58_value (le_value num) addr) (number_loop num addr)
unfolding number_loop
number_loop-IsNumber num [] bytes = (bytes, refl, refl)
number_loop-IsNumber num (c ∷ addr) bytes = elim (Option-cases (base58_val c)) [
  | inl bad ↦ rw (base58_value, number_loop, bad) refl
  | inr good ↦
      let v = good.0 in
      let step = mul_add-IsNext num v bytes (base58_val-lt c v good.1) in
      rw (base58_value, number_loop, good.1)
        (elim (Bool-cases ((mul_add num v).1 == 0)) [
          | inl fits ↦
              let none_out : (mul_add num v).1 ≡ 0 = ground (arith, fits) in
              let value : le_value (mul_add num v).0 ≡ le_value num * 58 + v =
                omega (arith, step.value, ap (λ (o : ℕ). 256 ^ length num * o) none_out) in
              let later = number_loop-IsNumber (mul_add num v).0 addr step.bytes in
              rw (fits) (rw (step.same, value) at later)
          | inr over ↦ rw (over) (
              overflow_IsNumber (length num) (le_value num * 58 + v) addr omega
                (arith, step.value, le_mul_of_ne (256 ^ length num) (mul_add num v).1 over))
        ])
]

-- In 32 bytes that begin as 0, `base58_script` reads the number whose digits in base 58 the
-- characters are: it gives up on a character that is no digit and, for a number of 2^256 or more,
-- on the carry; else the 32 bytes hold the number.
pub number_loop-base58_value :
    (addr : Text) → IsNumber 32 (base58_value 0 addr) (number_loop (replicate 32 0) addr)
number_loop-base58_value addr = number_loop-IsNumber (replicate 32 0) addr (zeros-IsBytes 32)
