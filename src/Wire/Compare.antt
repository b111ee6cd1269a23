-- ===== src/Wire/Compare.antt =====
-- What the byte-wise tests decide.
use c_datum_prime.Common.{ℕ, ◌≡◌, refl, ◌↔◌, true, false, List, [], ◌∷◌, ◌≢◌, arith}
use c_datum_prime.Wire.{bytes_eq}

pub bytes_eq_refl : (as' : List ℕ) → bytes_eq as' as' ≡ true
unfolding bytes_eq
bytes_eq_refl [] = refl
bytes_eq_refl (a ∷ as') = ground (arith, bytes_eq_refl as')

pub eq_of_bytes_eq : (as' bs : List ℕ) → bytes_eq as' bs ≡ true → as' ≡ bs
unfolding bytes_eq
eq_of_bytes_eq [] [] h = refl
eq_of_bytes_eq [] (b ∷ bs) h = cc
eq_of_bytes_eq (a ∷ as') [] h = cc
eq_of_bytes_eq (a ∷ as') (b ∷ bs) h = ground (arith, eq_of_bytes_eq as' bs)

pub bytes_eq_iff : (as' bs : List ℕ) → (bytes_eq as' bs ≡ true) ↔ (as' ≡ bs)
bytes_eq_iff as' bs = (eq_of_bytes_eq as' bs, λ e. rw e (bytes_eq_refl bs))

pub bytes_eq_ne : (as' bs : List ℕ) → as' ≢ bs → bytes_eq as' bs ≡ false
bytes_eq_ne as' bs ne = ground (arith, bytes_eq_iff as' bs)
