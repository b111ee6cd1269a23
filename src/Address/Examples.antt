-- ===== src/Address/Examples.antt =====
-- Addresses at concrete characters.
use c_datum_prime.Common.{ℕ, ◌≡◌, refl}
use c_datum_prime.Common.{true, some}
use c_datum_prime.Common.{List, [], ◌∷◌, replicate}
use c_datum_prime.Wire.{bytes_eq}
use c_datum_prime.Ledger.Types.{Text}
use c_datum_prime.Address.{
  mul_add, number_loop, regroup, polymod_step, polymod, bech32_val, digit_at, segwit_script,
  witness_script, address_script, hrp_expand, bech32_values, last_one, base58_val,
}
use c_datum_prime.Address.Fits.{Fits, address_script-Fits}
use c_datum_prime.Address.Number.{IsNumber, base58_value, number_loop-base58_value}

abbrev two_digits : Text
two_digits = b'2' ∷ b'1' ∷ []

-- 58
reads_two : number_loop (replicate 32 0) two_digits ≡ some (58 ∷ replicate 31 0)
unfolding number_loop base58_val digit_at mul_add
reads_two = refl

number_loop-base58_value_example :
    IsNumber 32 (base58_value 0 two_digits) (number_loop (replicate 32 0) two_digits)
number_loop-base58_value_example = number_loop-base58_value two_digits

abbrev native_address : Text
native_address =
    b'b' ∷ b'c' ∷ b'1' ∷ b'q' ∷ b'w' ∷ b'5' ∷ b'0' ∷ b'8' ∷ b'd' ∷ b'6' ∷ b'q' ∷ b'e' ∷ b'j' ∷ b'x'
    ∷ b't' ∷ b'd' ∷ b'g' ∷ b'4' ∷ b'y' ∷ b'5' ∷ b'r' ∷ b'3' ∷ b'z' ∷ b'a' ∷ b'r' ∷ b'v' ∷ b'a'
    ∷ b'r' ∷ b'y' ∷ b'0' ∷ b'c' ∷ b'5' ∷ b'x' ∷ b'w' ∷ b'7' ∷ b'k' ∷ b'v' ∷ b'8' ∷ b'f' ∷ b'3'
    ∷ b't' ∷ b'4' ∷ []

-- The first address of BIP 173.
reads_native :
    address_script (λ (m : List ℕ). replicate 32 0) (λ (n : ℕ). true) native_address 34
    ≡ some (
        0 ∷ 0x14 ∷ 117 ∷ 30 ∷ 118 ∷ 232 ∷ 25 ∷ 145 ∷ 150 ∷ 212 ∷ 84 ∷ 148 ∷ 28 ∷ 69 ∷ 209 ∷ 179
        ∷ 163 ∷ 35 ∷ 241 ∷ 67 ∷ 59 ∷ 214 ∷ [])
unfolding address_script segwit_script witness_script regroup bech32_values bech32_val digit_at
    polymod polymod_step hrp_expand last_one bytes_eq
reads_native = refl

address_script-Fits_example :
    Fits 34 (address_script (λ (m : List ℕ). replicate 32 0) (λ (n : ℕ). true) native_address 34)
address_script-Fits_example =
    address_script-Fits (λ (m : List ℕ). replicate 32 0) (λ (n : ℕ). true) native_address 34
