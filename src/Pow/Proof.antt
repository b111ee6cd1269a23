-- ===== src/Pow/Proof.antt =====
-- `prime_header_pow_hash_abw`, and the gateway's proof of such a hash.
use c_datum_prime.Common.{ℕ, zero, suc, ◌≡◌, refl}
use c_datum_prime.Common.{Bool, if◌then◌else◌}
use c_datum_prime.Common.{List, [], ◌∷◌, ◌++◌, reverse, length, drop, replicate}
use c_datum_prime.Common.{arith, bit_or}
use c_datum_prime.Wire.{wr_u32, bytes_eq}
use c_datum_prime.Abw.Mask.{
  tagged_sha256, xor_key_hash, xor_mask, xor_bytes, clear_bits, gateway_proof,
  gateway_proof-xor_bytes,
}
use c_datum_prime.Common.Bits.{bit_xor-zero}
use c_datum_prime.Wire.Compare.{bytes_eq_refl}
use c_datum_prime.Pow.{HeaderV2, v2_flag, zeros}

-- "Bitcoin block header 1", "Merge-mining hook" and "Bitcoin prevblock header, hashed".
abbrev header_tag : List ℕ
header_tag =
    b'B' ∷ b'i' ∷ b't' ∷ b'c' ∷ b'o' ∷ b'i' ∷ b'n' ∷ 32 ∷ b'b' ∷ b'l' ∷ b'o' ∷ b'c' ∷ b'k' ∷ 32
    ∷ b'h' ∷ b'e' ∷ b'a' ∷ b'd' ∷ b'e' ∷ b'r' ∷ 32 ∷ b'1' ∷ []

abbrev hook_tag : List ℕ
hook_tag =
    b'M' ∷ b'e' ∷ b'r' ∷ b'g' ∷ b'e' ∷ 45 ∷ b'm' ∷ b'i' ∷ b'n' ∷ b'i' ∷ b'n' ∷ b'g' ∷ 32 ∷ b'h'
    ∷ b'o' ∷ b'o' ∷ b'k' ∷ []

abbrev prev_tag : List ℕ
prev_tag =
    b'B' ∷ b'i' ∷ b't' ∷ b'c' ∷ b'o' ∷ b'i' ∷ b'n' ∷ 32 ∷ b'p' ∷ b'r' ∷ b'e' ∷ b'v' ∷ b'b' ∷ b'l'
    ∷ b'o' ∷ b'c' ∷ b'k' ∷ 32 ∷ b'h' ∷ b'e' ∷ b'a' ∷ b'd' ∷ b'e' ∷ b'r' ∷ 44 ∷ 32 ∷ b'h' ∷ b'a'
    ∷ b's' ∷ b'h' ∷ b'e' ∷ b'd' ∷ []

module _ (sha256 blake2b : List ℕ → List ℕ) (gets : ℕ → Bool) where
  -- `h1d`: the fields that are hashed first.
  unfoldable pub header_fields : HeaderV2 → ℕ → List ℕ
  header_fields h pot =
      wr_u32 (bit_or h.version v2_flag)
      ++ (reverse h.prev_block
          ++ (wr_u32 h.height
              ++ (h.merkle
                  ++ (wr_u32 h.time_on_wire
                      ++ (0
                          ∷ (wr_u32 h.bits
                              ++ (wr_u32 h.txcount
                                  ++ (h.flags
                                      ∷ (if bytes_eq h.xor_key (zeros 16)
                                          then 0
                                          else clear_bits pot)
                                      ∷ xor_key_hash sha256 gets h.xor_key))))))))

  -- `hash2`: the hash before it is masked.
  unfoldable pub asic_hash : HeaderV2 → ℕ → List ℕ
  asic_hash h pot =
      let h1 = tagged_sha256 sha256 gets header_tag (header_fields h pot) in
      let h2 = tagged_sha256 sha256 gets hook_tag (h1 ++ (zeros 32 ++ h.mm_rhs)) in
      let hash1 = blake2b (zeros 4 ++ (h2 ++ h.extranonce)) in
      let hidden = zeros 6 ++ drop 6 (tagged_sha256 sha256 gets prev_tag (reverse h.prev_block)) in
      blake2b (
        hidden
        ++ (wr_u32 h.nonce
            ++ (wr_u32 h.nonce2 ++ (wr_u32 h.time_offset ++ (wr_u32 h.nonce3 ++ hash1)))))

  -- `prime_header_pow_hash_abw`; `h.xor_clear` is not read.
  unfoldable pub header_pow_hash_abw : HeaderV2 → ℕ → List ℕ
  header_pow_hash_abw h pot =
      xor_bytes (asic_hash h pot) (xor_mask sha256 gets h.xor_key (clear_bits pot))

  -- `prime_header_pow_hash`.
  unfoldable pub header_pow_hash : HeaderV2 → List ℕ
  header_pow_hash h = header_pow_hash_abw (record h { xor_key = zeros 16 }) 0

  module _ (digest : (message : List ℕ) → length (sha256 message) ≡ 32)
      (digest2 : (message : List ℕ) → length (blake2b message) ≡ 32) where
    -- Where SHA-256 and BLAKE2b give 32 bytes, the proof that the gateway sends for a header's hash is the
    -- BLAKE2b hash before it was masked, in the other byte order, whatever the key is.
    pub gateway_proof-header_pow_hash_abw :
        (h : HeaderV2) (pot : ℕ)
        → gateway_proof sha256 gets (header_pow_hash_abw h pot) h.xor_key pot
          ≡ reverse (asic_hash h pot)
    unfolding header_pow_hash_abw
    gateway_proof-header_pow_hash_abw h pot =
        gateway_proof-xor_bytes sha256 gets digest (asic_hash h pot) h.xor_key pot
          (unfold asic_hash in digest2 _)

    -- A mask of zeros changes nothing.
    xor_bytes-zeros_all :
        (n : ℕ) (hash : List ℕ) → length hash ≡ n → xor_bytes hash (replicate n 0) ≡ hash
    unfolding xor_bytes
    xor_bytes-zeros_all zero [] h = refl
    xor_bytes-zeros_all zero (b ∷ hash) h = absurd (omega arith)
    xor_bytes-zeros_all (suc n) [] h = refl
    xor_bytes-zeros_all (suc n) (b ∷ hash) h =
        rw (bit_xor-zero b, xor_bytes-zeros_all n hash (omega arith)) refl

    -- Where BLAKE2b gives 32 bytes, `prime_header_pow_hash` is the hash under the key of zeros, unmasked.
    pub header_pow_hash-asic_hash :
        (h : HeaderV2) → header_pow_hash h ≡ asic_hash (record h { xor_key = zeros 16 }) 0
    unfolding header_pow_hash header_pow_hash_abw xor_mask
    header_pow_hash-asic_hash h =
        let plain : HeaderV2 = record h { xor_key = zeros 16 } in
        rw (bytes_eq_refl (zeros 16))
          (xor_bytes-zeros_all 32 (asic_hash plain 0) (unfold asic_hash in digest2 _))
