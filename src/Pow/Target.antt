-- ===== src/Pow/Target.antt =====
-- The target of a share.
use c_datum_prime.Common.{ℕ, ◌+◌, ◌-◌, ◌*◌, ◌^◌, ◌<◌, ◌≡◌, refl}
use c_datum_prime.Common.{Bool, true, ◌==◌, leb, if◌then◌else◌}
use c_datum_prime.Common.{List, [], ◌∷◌}
use c_datum_prime.Common.{==_iff}
use c_datum_prime.Common.Tables.{is_table, is_table-at}
use c_datum_prime.Pow.{target_for_pot}

-- The number that 32 bytes stand for, the first the highest.
abbrev pub be_value : ℕ → List ℕ → ℕ
be_value acc [] = acc
be_value acc (b ∷ bs) = be_value (acc * 256 + b) bs

abbrev power_below : ℕ → Bool
power_below exponent =
    be_value 0 (target_for_pot exponent) == (if leb 224 exponent then 1 else 2 ^ (224 - exponent))

target_table : is_table (λ e. power_below e) 256 ≡ true
unfolding is_table target_for_pot
target_table = refl

-- For any exponent of a byte, the target is 2 ^ (224 - exponent) as a big-endian number of 32 bytes, or
-- 1 where the exponent is 224 or more.
pub be_value-target_for_pot :
    (exponent : ℕ)
    → exponent < 256
    → be_value 0 (target_for_pot exponent) ≡ (if leb 224 exponent then 1 else 2 ^ (224 - exponent))
be_value-target_for_pot exponent h =
    (==_iff _ _).0 (is_table-at (λ e. power_below e) 256 target_table exponent h)
