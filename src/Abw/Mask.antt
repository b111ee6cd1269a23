-- ===== src/Abw/Mask.antt =====
-- The mask of a slot's key (src/abw.c: `prime_abw_clear_bits`, `prime_xor_mask`,
-- `prime_abw_gateway_proof`; src/pow.c: `prime_tagged_sha256`). SHA-256 is the cryptographic library's,
-- a function from byte strings to 32 bytes; `gets` is what `malloc` answers for a size.
use c_datum_prime.Common.{ℕ, zero, suc, ◌+◌, ◌/◌, ◌%◌, ◌^◌, ◌≤◌, ◌<◌, ◌≡◌, refl, sym, ap, ◌∙◌}
use c_datum_prime.Common.{Bool, false, not, ◌&&◌, ltb, if◌then◌else◌}
use c_datum_prime.Common.{List, [], ◌∷◌, ◌++◌, reverse, length, get_or, take, drop, replicate}
use c_datum_prime.Common.{arith, bit_and, bit_xor}
use c_datum_prime.Common.Bits.{bit_xor_twice, bit_xor-zero}
use c_datum_prime.Wire.{u8, bytes_eq}

unfoldable pub clear_bits : ℕ → ℕ
clear_bits pot = if ltb 255 (32 + pot) then 255 else u8 (32 + pot)

-- "Bitcoin block hash PoW XOR mask" and "Bitcoin block hash PoW XOR key".
abbrev pow_prefix : List ℕ
pow_prefix =
    b'B' ∷ b'i' ∷ b't' ∷ b'c' ∷ b'o' ∷ b'i' ∷ b'n' ∷ 32 ∷ b'b' ∷ b'l' ∷ b'o' ∷ b'c' ∷ b'k' ∷ 32
    ∷ b'h' ∷ b'a' ∷ b's' ∷ b'h' ∷ 32 ∷ b'P' ∷ b'o' ∷ b'W' ∷ 32 ∷ b'X' ∷ b'O' ∷ b'R' ∷ 32 ∷ []

abbrev pub mask_tag : List ℕ
mask_tag = pow_prefix ++ (b'm' ∷ b'a' ∷ b's' ∷ b'k' ∷ [])

abbrev pub key_tag : List ℕ
key_tag = pow_prefix ++ (b'k' ∷ b'e' ∷ b'y' ∷ [])

-- `out[i] = 0` for the leading whole bytes, and the mask of the byte behind them.
unfoldable pub clear_leading : ℕ → ℕ → List ℕ → List ℕ
clear_leading bytes bits [] = []
clear_leading zero bits (b ∷ bs) = bit_and b (0xff / 2 ^ bits) ∷ bs
clear_leading (suc bytes) bits (b ∷ bs) = 0 ∷ clear_leading bytes bits bs

-- a[i] ^ b[i].
unfoldable pub xor_bytes : List ℕ → List ℕ → List ℕ
xor_bytes (a ∷ as') (b ∷ bs) = bit_xor a b ∷ xor_bytes as' bs
xor_bytes as' bs = []

module _ (sha256 : List ℕ → List ℕ) (gets : ℕ → Bool) where
  unfoldable pub tagged_sha256 : List ℕ → List ℕ → List ℕ
  tagged_sha256 tag message =
      let t = sha256 tag in
      if ltb 256 (length message) && not (gets (64 + length message))
      then replicate 32 0
      else sha256 (t ++ (t ++ message))

  unfoldable pub xor_key_hash : List ℕ → List ℕ
  xor_key_hash xor_key = tagged_sha256 key_tag xor_key

  unfoldable pub xor_mask : List ℕ → ℕ → List ℕ
  xor_mask xor_key clear =
      if bytes_eq xor_key (replicate 16 0)
      then replicate 32 0
      else clear_leading (clear / 8) (clear % 8) (tagged_sha256 mask_tag xor_key)

  -- `raw_le`; the key of zeros stands for NULL.
  unfoldable pub gateway_proof : List ℕ → List ℕ → ℕ → List ℕ
  gateway_proof result xor_key pot = reverse (xor_bytes result (xor_mask xor_key (clear_bits pot)))

  length-clear_leading :
      (bytes bits : ℕ) (bs : List ℕ) → length (clear_leading bytes bits bs) ≡ length bs
  unfolding clear_leading
  length-clear_leading bytes bits [] = refl
  length-clear_leading zero bits (b ∷ bs) = refl
  length-clear_leading (suc bytes) bits (b ∷ bs) = omega (arith, length-clear_leading bytes bits bs)

  clear_leading-zeros :
      (bytes bits : ℕ) (bs : List ℕ)
      → bytes ≤ length bs
      → take bytes (clear_leading bytes bits bs) ≡ replicate bytes 0
  unfolding clear_leading
  clear_leading-zeros zero bits bs h = refl
  clear_leading-zeros (suc bytes) bits [] h = absurd (omega arith)
  clear_leading-zeros (suc bytes) bits (b ∷ bs) h =
      ap (λ (t : List ℕ). 0 ∷ t) (clear_leading-zeros bytes bits bs (omega arith))

  xor_bytes_twice :
      (as' bs : List ℕ) → length as' ≡ length bs → xor_bytes (xor_bytes as' bs) bs ≡ as'
  unfolding xor_bytes
  xor_bytes_twice [] bs h = refl
  xor_bytes_twice (a ∷ as') [] h = absurd (omega arith)
  xor_bytes_twice (a ∷ as') (b ∷ bs) h =
      rw (bit_xor_twice a b, xor_bytes_twice as' bs (omega arith)) refl

  xor_bytes-zeros :
      (n : ℕ) (as' bs : List ℕ)
      → length as' ≡ length bs
      → take n bs ≡ replicate n 0
      → n ≤ length bs
      → take n (xor_bytes as' bs) ≡ take n as'
  unfolding xor_bytes
  xor_bytes-zeros zero as' bs h z le = refl
  xor_bytes-zeros (suc n) as' [] h z le = absurd (omega arith)
  xor_bytes-zeros (suc n) [] (b ∷ bs) h z le = absurd (omega arith)
  xor_bytes-zeros (suc n) (a ∷ as') (b ∷ bs) h z le =
      let b_zero : b ≡ 0 = ap (λ (t : List ℕ). get_or t 0 0) z in
      let rest : take n bs ≡ replicate n 0 = ap (λ (t : List ℕ). drop 1 t) z in
      rw (b_zero, bit_xor-zero a, xor_bytes-zeros n as' bs (omega arith) rest (omega arith)) refl

  module _ (digest : (message : List ℕ) → length (sha256 message) ≡ 32) where
    length-tagged_sha256 : (tag message : List ℕ) → length (tagged_sha256 tag message) ≡ 32
    unfolding tagged_sha256
    length-tagged_sha256 tag message =
        ground (arith, digest (sha256 tag ++ (sha256 tag ++ message)))

    length-xor_mask : (xor_key : List ℕ) (clear : ℕ) → length (xor_mask xor_key clear) ≡ 32
    unfolding xor_mask
    length-xor_mask xor_key clear = ground (
      arith,
      length-clear_leading (clear / 8) (clear % 8) (tagged_sha256 mask_tag xor_key),
      length-tagged_sha256 mask_tag xor_key,
    )

    -- Where SHA-256 gives 32 bytes, the proof of a hash of 32 bytes under the mask of a key is the hash
    -- without the mask, in the other byte order.
    pub gateway_proof-xor_bytes :
        (hash xor_key : List ℕ) (pot : ℕ)
        → length hash ≡ 32
        → gateway_proof (xor_bytes hash (xor_mask xor_key (clear_bits pot))) xor_key pot
          ≡ reverse hash
    unfolding gateway_proof
    gateway_proof-xor_bytes hash xor_key pot h =
        let mask = xor_mask xor_key (clear_bits pot) in
        ap (λ (t : List ℕ). reverse t)
          (xor_bytes_twice hash mask (h ∙ sym (length-xor_mask xor_key (clear_bits pot))))

    -- Where SHA-256 gives 32 bytes, the mask of a key that is not all zeros leaves the leading whole bytes
    -- of the bits to be kept clear as they are in a hash of 32 bytes.
    pub take-xor_mask :
        (hash xor_key : List ℕ) (clear : ℕ)
        → length hash ≡ 32
        → clear < 256
        → bytes_eq xor_key (replicate 16 0) ≡ false
        → take (clear / 8) (xor_bytes hash (xor_mask xor_key clear)) ≡ take (clear / 8) hash
    unfolding xor_mask
    take-xor_mask hash xor_key clear h c ne =
        let digest_length = length-tagged_sha256 mask_tag xor_key in
        let mask = clear_leading (clear / 8) (clear % 8) (tagged_sha256 mask_tag xor_key) in
        let size : length mask ≡ 32 =
          length-clear_leading (clear / 8) (clear % 8) (tagged_sha256 mask_tag xor_key)
          ∙ digest_length in
        rw ne (
          xor_bytes-zeros (clear / 8) hash mask (h ∙ sym size)
            (clear_leading-zeros (clear / 8) (clear % 8) (tagged_sha256 mask_tag xor_key)
              (omega arith))
            (omega arith))
