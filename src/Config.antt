-- ===== src/Config.antt =====
-- The configuration that a gateway gets after the handshake (src/handshake.c:
-- `prime_encode_config_v1`, `prime_encode_config_v3`). `gets` is what `malloc` answers for a size.
mod Examples
use c_datum_prime.Common.{ℕ, ◌+◌, ◌-◌, ◌≡◌, refl, inl, inr}
use c_datum_prime.Common.{
  Bool, true, false, not, ◌&&◌, ◌==◌, leb, if◌then◌else◌, Bool-cases, Option, none, some,
}
use c_datum_prime.Common.{List, [], ◌∷◌, ◌++◌, length}
use c_datum_prime.Common.{length-append, arith, bit_and}
use c_datum_prime.Wire.{u8, u32, wr_u32, wr_u64}
use c_datum_prime.Abw.{struct_end}
use c_datum_prime.Mining.{Opts}

-- `PRIME_MINING_CONFIG`.
abbrev mining_config : ℕ
mining_config = 0x99

unfoldable pub is_power_of_two : ℕ → Bool
is_power_of_two v = not (v == 0) && bit_and v (v - 1) == 0

-- The guard that both versions share; `none` is their -1.
unfoldable pub is_encodable : Opts → Bool
is_encodable opt =
    leb (length opt.payout_script) 83
    && leb (length opt.coinbase_tag) 81
    && is_power_of_two opt.min_difficulty

-- `n` of version 3.
unfoldable pub config_size : Opts → ℕ
config_size opt =
    let n : ℕ = 2 + 1 + length opt.payout_script + 8 + 40 + 1 + length opt.coinbase_tag + 8 + 2 in
    if opt.bulk_framing then n + 4 else n

-- The bytes of version 3.
unfoldable pub config_bytes : Opts → List ℕ → List ℕ
config_bytes opt resume_token =
    (mining_config ∷ 3 ∷ u8 (length opt.payout_script) ∷ [])
    ++ (opt.payout_script
        ++ (wr_u64 opt.prime_id
            ++ (resume_token
                ++ (u8 (length opt.coinbase_tag)
                    ∷ (opt.coinbase_tag
                        ++ (wr_u64 opt.min_difficulty
                            ++ ((if opt.abw_disabled then 1 else 0)
                                ∷ struct_end
                                ∷ (if opt.bulk_framing
                                    then b'D' ∷ b'B' ∷ b'F' ∷ 1 ∷ []
                                    else []))))))))

length-wr_u64 : (v : ℕ) → length (wr_u64 v) ≡ 8
unfolding wr_u64
length-wr_u64 v = refl

length-marker :
    (b : Bool)
    → length {A = ℕ} (if b then b'D' ∷ b'B' ∷ b'F' ∷ 1 ∷ [] else []) ≡ (if b then 4 else 0)
length-marker true = refl
length-marker false = refl

length-config_bytes :
    (opt : Opts) (resume_token : List ℕ)
    → length resume_token ≡ 40
    → length (config_bytes opt resume_token) ≡ config_size opt
unfolding config_bytes config_size
length-config_bytes opt resume_token size =
    simp (length-append, length-wr_u64, length-marker, size)
      (elim (Bool-cases opt.bulk_framing) [
        | inl framed ↦ rw framed (omega arith)
        | inr plain ↦ rw plain (omega arith)
      ])

module _ (gets : ℕ → Bool) where
  -- `prime_encode_config_v1`.
  unfoldable pub encode_config_v1 : Opts → Option (List ℕ)
  encode_config_v1 opt =
      let n : ℕ = 2 + 1 + length opt.payout_script + 4 + 1 + length opt.coinbase_tag + 8 + 2 in
      if is_encodable opt && gets n
      then some (
          (mining_config ∷ 1 ∷ u8 (length opt.payout_script) ∷ [])
          ++ (opt.payout_script
              ++ (wr_u32 (u32 opt.prime_id)
                  ++ (u8 (length opt.coinbase_tag)
                      ∷ (opt.coinbase_tag
                          ++ (wr_u64 opt.min_difficulty ++ (0 ∷ struct_end ∷ [])))))))
      else none

  -- `prime_encode_config_v3`; `i` at its end is the number of the bytes.
  unfoldable pub encode_config_v3 : Opts → List ℕ → Option (List ℕ)
  encode_config_v3 opt resume_token =
      let p = config_bytes opt resume_token in
      if is_encodable opt && gets (config_size opt) && length p == config_size opt
      then some p
      else none

  -- With a token of 40 bytes, the last test of `prime_encode_config_v3` never fails: the message is the
  -- one that `config_bytes` describes, unless the guard or `malloc` refuses it.
  pub encode_config_v3-config_bytes :
      (opt : Opts) (resume_token : List ℕ)
      → length resume_token ≡ 40
      → encode_config_v3 opt resume_token ≡ (
          if is_encodable opt && gets (config_size opt)
          then some (config_bytes opt resume_token)
          else none)
  unfolding encode_config_v3
  encode_config_v3-config_bytes opt resume_token size =
      let whole = length-config_bytes opt resume_token size in ground (arith, whole)
