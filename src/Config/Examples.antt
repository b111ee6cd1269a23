-- ===== src/Config/Examples.antt =====
-- A configuration.
use c_datum_prime.Common.{ℕ, ◌≡◌, refl}
use c_datum_prime.Common.{true, false, none}
use c_datum_prime.Common.{[], ◌∷◌, replicate}
use c_datum_prime.Mining.{Opts}
use c_datum_prime.Config.{is_power_of_two, is_encodable, encode_config_v1}

abbrev opts : Opts
opts = record {
  has_datadir = false;
  has_block_dir = false;
  payout_script = replicate 22 1;
  prime_id = 7;
  coinbase_tag = b'a' ∷ [];
  min_difficulty = 16;
  abw_disabled = false;
  require_split = true;
  bulk_framing = true;
  abw_reveal_after_sec = 300;
}

-- 16 is a power of two, and 24 is not.
sixteen_not_24 : (is_power_of_two 16 ≡ true) × (is_power_of_two 24 ≡ false)
unfolding is_power_of_two
sixteen_not_24 = (refl, refl)

-- A difficulty that is no power of two is refused.
refuses : encode_config_v1 (λ (n : ℕ). true) (record opts { min_difficulty = 24 }) ≡ none
unfolding encode_config_v1 is_encodable is_power_of_two
refuses = refl
