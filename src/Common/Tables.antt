-- ===== src/Common/Tables.antt =====
-- Over a small range, a property of every value is checked by evaluation.
use c_datum_prime.Common.{ℕ, zero, suc, ◌<◌, ◌≡◌, ◌⊎◌, inl, inr, Bool, true, ◌&&◌, arith}

unfoldable pub is_table : (ℕ → Bool) → ℕ → Bool
is_table test zero = true
is_table test (suc size) = is_table test size && test size

last_or_below : (size at : ℕ) → at < suc size → (at ≡ size) ⊎ (at < size)
last_or_below size at h = omega arith

pub is_table-at :
    (test : ℕ → Bool) (size : ℕ) → is_table test size ≡ true → (at : ℕ) → at < size → test at ≡ true
unfolding is_table
is_table-at test zero table at h = absurd (omega arith)
is_table-at test (suc size) table at h = elim (last_or_below size at h) [
  | inl last ↦ rw last (ground arith)
  | inr below ↦ is_table-at test size (ground arith) at below
]
