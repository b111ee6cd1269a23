-- ===== src/Address.antt =====
-- An address as the script that pays it (src/address.c). SHA-256 is a parameter, and `gets` what
-- `malloc` answers for a size, of which the double hash takes none. A C string is the characters
-- before its NUL.
pub mod Fits
pub mod Number
mod Examples
use c_datum_prime.Common.{ℕ, suc, ◌+◌, ◌-◌, ◌*◌, ◌/◌, ◌%◌, ◌^◌}
use c_datum_prime.Common.{
  Bool, true, false, not, ◌&&◌, ◌||◌, ◌==◌, ltb, leb, if◌then◌else◌, Option, none, some,
}
use c_datum_prime.Common.{List, [], ◌∷◌, ◌++◌, map, reverse, length, take, drop, replicate}
use c_datum_prime.Common.{bit_and, bit_or, bit_xor}
use c_datum_prime.Wire.{u8, u32, byte_at, bytes_eq}
use c_datum_prime.Ledger.Types.{Text}
use c_datum_prime.Pow.{sha256d}

abbrev bech32_digits : Text
bech32_digits =
    b'q' ∷ b'p' ∷ b'z' ∷ b'r' ∷ b'y' ∷ b'9' ∷ b'x' ∷ b'8' ∷ b'g' ∷ b'f' ∷ b'2' ∷ b't' ∷ b'v' ∷ b'd'
    ∷ b'w' ∷ b'0' ∷ b's' ∷ b'3' ∷ b'j' ∷ b'n' ∷ b'5' ∷ b'4' ∷ b'k' ∷ b'h' ∷ b'c' ∷ b'e' ∷ b'6'
    ∷ b'm' ∷ b'u' ∷ b'a' ∷ b'7' ∷ b'l' ∷ []

abbrev pub base58_digits : Text
base58_digits =
    b'1' ∷ b'2' ∷ b'3' ∷ b'4' ∷ b'5' ∷ b'6' ∷ b'7' ∷ b'8' ∷ b'9' ∷ b'A' ∷ b'B' ∷ b'C' ∷ b'D' ∷ b'E'
    ∷ b'F' ∷ b'G' ∷ b'H' ∷ b'J' ∷ b'K' ∷ b'L' ∷ b'M' ∷ b'N' ∷ b'P' ∷ b'Q' ∷ b'R' ∷ b'S' ∷ b'T'
    ∷ b'U' ∷ b'V' ∷ b'W' ∷ b'X' ∷ b'Y' ∷ b'Z' ∷ b'a' ∷ b'b' ∷ b'c' ∷ b'd' ∷ b'e' ∷ b'f' ∷ b'g'
    ∷ b'h' ∷ b'i' ∷ b'j' ∷ b'k' ∷ b'm' ∷ b'n' ∷ b'o' ∷ b'p' ∷ b'q' ∷ b'r' ∷ b's' ∷ b't' ∷ b'u'
    ∷ b'v' ∷ b'w' ∷ b'x' ∷ b'y' ∷ b'z' ∷ []

-- `strchr(digits, c) - digits`, from the place `i` on; `none` for NULL.
unfoldable pub digit_at : ℕ → Text → ℕ → Option ℕ
digit_at i [] c = none
digit_at i (d ∷ digits) c = let rest = digit_at (i + 1) digits c in if d == c then some i else rest

abbrev pub lower_case : ℕ → ℕ
lower_case c = if leb b'A' c && leb c b'Z' then c + 32 else c

-- `bech32_val` and `base58_val`; `none` is their -1.
unfoldable pub bech32_val : ℕ → Option ℕ
bech32_val c = digit_at 0 bech32_digits (lower_case c)

unfoldable pub base58_val : ℕ → Option ℕ
base58_val c = digit_at 0 base58_digits c

-- The bits of `c0` choose the constants.
unfoldable pub polymod_step : ℕ → ℕ → ℕ
polymod_step c v =
    let c0 : ℕ = u8 (c / 2 ^ 25) in
    let shifted : ℕ = bit_xor (u32 (bit_and c 0x1ffffff * 2 ^ 5)) v in
    let x0 : ℕ = if c0 % 2 == 1 then bit_xor shifted 0x3b6a57b2 else shifted in
    let x1 : ℕ = if c0 / 2 % 2 == 1 then bit_xor x0 0x26508e6d else x0 in
    let x2 : ℕ = if c0 / 4 % 2 == 1 then bit_xor x1 0x1ea119fa else x1 in
    let x3 : ℕ = if c0 / 8 % 2 == 1 then bit_xor x2 0x3d4233dd else x2 in
    if c0 / 16 % 2 == 1 then bit_xor x3 0x2a1462b3 else x3

unfoldable pub polymod : ℕ → List ℕ → ℕ
polymod c [] = c
polymod c (v ∷ values) = polymod (polymod_step c v) values

unfoldable pub hrp_expand : Text → List ℕ
hrp_expand hrp = map (λ (c : ℕ). c / 2 ^ 5) hrp ++ (0 ∷ map (λ (c : ℕ). c % 2 ^ 5) hrp)

-- for (j = sizeof num; j > 0; j--): the bytes of `num` from the last one on, times 58 and the carry.
unfoldable pub mul_add : List ℕ → ℕ → List ℕ × ℕ
mul_add [] carry = ([], carry)
mul_add (b ∷ num) carry =
    let t : ℕ = u32 (carry + 58 * b) in
    let (rest, out) = mul_add num (t / 2 ^ 8) in (t % 2 ^ 8 ∷ rest, out)

-- The first loop of `base58_script`, with `num` from its last byte on; `none` for -1.
unfoldable pub number_loop : List ℕ → Text → Option (List ℕ)
number_loop num [] = some num
number_loop num (c ∷ addr) = elim (base58_val c) [
  | none ↦ none
  | some v ↦
      let (next, carry) = mul_add num v in
      elim (carry == 0) [ true ↦ number_loop next addr | false ↦ none ]
]

-- while (addr[zeros] == '1')
unfoldable pub leading_ones : Text → ℕ
leading_ones [] = 0
leading_ones (c ∷ addr) = let rest = leading_ones addr in if c == b'1' then suc rest else 0

-- `num + start`, for the first `start` whose byte is not 0.
unfoldable pub skip_zeros : List ℕ → List ℕ
skip_zeros [] = []
skip_zeros (b ∷ num) = let rest = skip_zeros num in if b == 0 then rest else b ∷ num

-- The two scripts of a payload.
unfoldable pub payload_script : List ℕ → ℕ → Option (List ℕ)
payload_script payload max_len =
    let hash = take 20 (drop 1 payload) in
    if byte_at payload 0 == 0
    then (if ltb max_len 25 then none else some (0x76 ∷ 0xa9 ∷ 0x14 ∷ (hash ++ (0x88 ∷ 0xac ∷ []))))
    else if byte_at payload 0 == 5
    then (if ltb max_len 23 then none else some (0xa9 ∷ 0x14 ∷ (hash ++ (0x87 ∷ []))))
    else none

-- for (i = 1; i < n - 6; i++): the data from `values[1]` on, with `bitbuf`, `bits` and `bo`.
unfoldable pub regroup : List ℕ → ℕ → ℕ → ℕ → Option (List ℕ)
regroup [] bitbuf bits bo = some []
regroup (v ∷ data_values) bitbuf bits bo =
    let buf : ℕ = bit_or (bitbuf * 2 ^ 5 % 2 ^ 64) v in
    let is_full : Bool = leb 8 (bits + 5) in
    let rest =
      regroup data_values buf (if is_full then bits - 3 else bits + 5)
        (if is_full then bo + 1 else bo) in
    if not is_full
    then rest
    else if leb 40 bo
    then none
    else elim rest [ none ↦ none | some bs ↦ some (u8 (buf / 2 ^ (bits - 3)) ∷ bs) ]

unfoldable pub bech32_values : Text → Option (List ℕ)
bech32_values [] = some []
bech32_values (c ∷ text) =
    let rest = bech32_values text in
    elim (bech32_val c) [
      | none ↦ none
      | some v ↦ elim rest [ none ↦ none | some vs ↦ some (v ∷ vs) ]
    ]

-- The last place of a '1', from the place `i` on.
unfoldable pub last_one : ℕ → Option ℕ → Text → Option ℕ
last_one i sep [] = sep
last_one i sep (c ∷ text) = last_one (i + 1) (if c == b'1' then some i else sep) text

-- The scripts of a witness program.
unfoldable pub witness_script : ℕ → List ℕ → ℕ → Option (List ℕ)
witness_script witver program max_len =
    let bo : ℕ = length program in
    if witver == 0 && bo == 20
    then (if ltb max_len 22 then none else some (0 ∷ 0x14 ∷ program))
    else if witver == 0 && bo == 32
    then (if ltb max_len 34 then none else some (0 ∷ 0x20 ∷ program))
    else if witver == 1 && bo == 32
    then (if ltb max_len 34 then none else some (0x51 ∷ 0x20 ∷ program))
    else none

-- The rest of `prime_address_script`, from the values on.
unfoldable pub segwit_script : Text → List ℕ → ℕ → Option (List ℕ)
segwit_script hrp values max_len =
    let witver : ℕ = byte_at values 0 in
    let want : ℕ = if witver == 0 then 1 else 0x2bc830a3 in
    if ltb (length values) 8 || not (polymod 1 (hrp_expand hrp ++ values) == want)
    then none
    else elim (regroup (take (length values - 7) (drop 1 values)) 0 0 0) [
      | none ↦ none
      | some program ↦ witness_script witver program max_len
    ]

module _ (sha256 : List ℕ → List ℕ) (gets : ℕ → Bool) where
  -- `base58_script`.
  unfoldable pub base58_script : Text → ℕ → Option (List ℕ)
  base58_script addr max_len = elim (number_loop (replicate 32 0) addr) [
    | none ↦ none
    | some num ↦
        let payload = replicate (leading_ones addr) 0 ++ skip_zeros (reverse num) in
        let is_checked : Bool =
          bytes_eq (take 4 (sha256d sha256 gets (take 21 payload))) (drop 21 payload) in
        if length payload == 25 && is_checked then payload_script payload max_len else none
  ]

  -- `prime_address_script`; `none` is its -1. The separator stands at 2, behind "bc".
  unfoldable pub address_script : Text → ℕ → Option (List ℕ)
  address_script addr max_len =
      let lower = map lower_case (take 127 addr) in
      let values = bech32_values (drop 3 lower) in
      let is_bc : Bool = elim (last_one 0 none lower) [
        | none ↦ false
        | some sep ↦ sep == 2 && bytes_eq (take 2 lower) (b'b' ∷ b'c' ∷ [])
      ] in
      if byte_at addr 0 == b'1' || byte_at addr 0 == b'3'
      then base58_script addr max_len
      else if is_bc
      then elim values [ none ↦ none | some vs ↦ segwit_script (b'b' ∷ b'c' ∷ []) vs max_len ]
      else none
