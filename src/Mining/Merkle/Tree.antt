-- ===== src/Mining/Merkle/Tree.antt =====
-- The loop over the rows of a Merkle tree, and the tree from its root.
use c_datum_prime.Common.{
  ℕ, zero, suc, ◌+◌, ◌*◌, ◌/◌, ◌^◌, ◌≤◌, ◌<◌, ◌≡◌, refl, sym, ap, ◌∙◌, inl, inr,
}
use c_datum_prime.Common.{Bool, true, false, ◌||◌, ltb, leb, if◌then◌else◌, Bool-cases}
use c_datum_prime.Common.{List, [], ◌∷◌, ◌++◌, length, take, drop}
use c_datum_prime.Common.{length-take, length-drop, arith}
use c_datum_prime.Wire.{bytes_eq}
use c_datum_prime.Pow.{sha256d}
use c_datum_prime.Mining.Merkle.{has_twins, next_level, merkle_loop}

take-nil {ℓ} : {A : Type ℓ} (m : ℕ) → take {A = A} m [] ≡ []
take-nil zero = refl
take-nil (suc m) = refl

drop-nil {ℓ} : {A : Type ℓ} (m : ℕ) → drop {A = A} m [] ≡ []
drop-nil zero = refl
drop-nil (suc m) = refl

-- Two disjunctions are one, and the order does not matter.
regroup : (a b c d e : Bool) → ((a || c) || (b || d)) || e ≡ (a || b) || ((c || d) || e)
regroup true b c d e = refl
regroup false true true d e = refl
regroup false true false d e = refl
regroup false false c d e = refl

or-false : (b : Bool) → b || false ≡ b
or-false true = refl
or-false false = refl

or_assoc : (a b c : Bool) → (a || b) || c ≡ a || (b || c)
or_assoc true b c = refl
or_assoc false b c = refl

twice : (m : ℕ) → 2 * suc m ≡ suc (suc (2 * m))
twice m = omega arith

has_twins-halves :
    (m : ℕ) (xs : List (List ℕ))
    → has_twins (take (2 * m) xs) || has_twins (drop (2 * m) xs) ≡ has_twins xs
unfolding has_twins
has_twins-halves zero xs = refl
has_twins-halves (suc m) [] = rw (twice m) refl
has_twins-halves (suc m) (a ∷ []) = rw (twice m) refl
has_twins-halves (suc m) (a ∷ b ∷ xs) = elim (Bool-cases (bytes_eq a b)) [
  | inl same ↦ rw (twice m, same) refl
  | inr apart ↦ rw (twice m, apart) (has_twins-halves m xs)
]

module _ (sha256 : List ℕ → List ℕ) (gets : ℕ → Bool) where
  -- The root above the leaves, of which there are 1 to 2^h: an inner node hashes the roots of its halves,
  -- or that of its left half twice where it has no more leaves.
  unfoldable pub root_of : ℕ → List (List ℕ) → List ℕ
  root_of zero [] = []
  root_of zero (x ∷ xs) = x
  root_of (suc h) xs =
      let left = root_of h (take (2 ^ h) xs) in
      let right = root_of h (drop (2 ^ h) xs) in
      if leb (length xs) (2 ^ h)
      then sha256d sha256 gets (root_of h xs ++ root_of h xs)
      else sha256d sha256 gets (left ++ right)

  -- Two halves with leaves have the same root.
  unfoldable pub has_copies : ℕ → List (List ℕ) → Bool
  has_copies zero xs = false
  has_copies (suc h) xs =
      let left = take (2 ^ h) xs in
      let right = drop (2 ^ h) xs in
      if leb (length xs) (2 ^ h)
      then has_copies h xs
      else (has_copies h left || has_copies h right) || bytes_eq (root_of h left) (root_of h right)

  length-next_level :
      (xs : List (List ℕ)) → length (next_level sha256 gets xs) ≡ (length xs + 1) / 2
  unfolding next_level
  length-next_level [] = refl
  length-next_level (a ∷ []) = refl
  length-next_level (a ∷ b ∷ xs) = omega (arith, length-next_level xs)

  next_level-take :
      (m : ℕ) (xs : List (List ℕ))
      → next_level sha256 gets (take (2 * m) xs) ≡ take m (next_level sha256 gets xs)
  unfolding next_level
  next_level-take zero xs = refl
  next_level-take (suc m) [] = rw (twice m) refl
  next_level-take (suc m) (a ∷ []) = rw (twice m, take-nil m) refl
  next_level-take (suc m) (a ∷ b ∷ xs) = rw (twice m, next_level-take m xs) refl

  next_level-drop :
      (m : ℕ) (xs : List (List ℕ))
      → next_level sha256 gets (drop (2 * m) xs) ≡ drop m (next_level sha256 gets xs)
  unfolding next_level
  next_level-drop zero xs = refl
  next_level-drop (suc m) [] = rw (twice m) refl
  next_level-drop (suc m) (a ∷ []) = rw (twice m, drop-nil m) refl
  next_level-drop (suc m) (a ∷ b ∷ xs) = rw (twice m, next_level-drop m xs) refl

  -- One more row above the leaves is one less to go.
  root_of-next_level :
      (h : ℕ) (xs : List (List ℕ))
      → 0 < length xs
      → length xs ≤ 2 ^ suc h
      → root_of (suc h) xs ≡ root_of h (next_level sha256 gets xs)
  unfolding root_of next_level
  root_of-next_level zero [] lo hi = absurd (omega arith)
  root_of-next_level zero (a ∷ []) lo hi = refl
  root_of-next_level zero (a ∷ b ∷ []) lo hi = refl
  root_of-next_level zero (a ∷ b ∷ c ∷ xs) lo hi = absurd (omega arith)
  root_of-next_level (suc h) xs lo hi =
      let half : 2 ^ suc h ≡ 2 * 2 ^ h = omega arith in
      let size = length-next_level xs in
      elim (Bool-cases (leb (length xs) (2 ^ suc h))) [
        | inl few ↦
            let one = root_of-next_level h xs lo (ground arith) in
            let above : leb (length (next_level sha256 gets xs)) (2 ^ h) ≡ true = ground arith in
            rw (few, above, one) refl
        | inr many ↦
            let left =
              root_of-next_level h (take (2 ^ suc h) xs)
                (rw (length-take (2 ^ suc h) xs) (ground arith))
                (rw (length-take (2 ^ suc h) xs) (ground arith)) in
            let right =
              root_of-next_level h (drop (2 ^ suc h) xs)
                (rw (length-drop (2 ^ suc h) xs) (ground arith))
                (rw (length-drop (2 ^ suc h) xs) (ground arith)) in
            let above : leb (length (next_level sha256 gets xs)) (2 ^ h) ≡ false = ground arith in
            rw
              (
                many,
                above,
                left,
                right,
                half,
                next_level-take (2 ^ h) xs,
                next_level-drop (2 ^ h) xs,
              )
              refl
      ]

  has_copies-next_level :
      (h : ℕ) (xs : List (List ℕ))
      → 0 < length xs
      → length xs ≤ 2 ^ suc h
      → has_copies (suc h) xs ≡ has_twins xs || has_copies h (next_level sha256 gets xs)
  unfolding has_copies has_twins next_level root_of
  has_copies-next_level zero [] lo hi = absurd (omega arith)
  has_copies-next_level zero (a ∷ []) lo hi = refl
  has_copies-next_level zero (a ∷ b ∷ []) lo hi =
      sym (or-false (bytes_eq a b || false) ∙ or-false (bytes_eq a b))
  has_copies-next_level zero (a ∷ b ∷ c ∷ xs) lo hi = absurd (omega arith)
  has_copies-next_level (suc h) xs lo hi =
      let half : 2 ^ suc h ≡ 2 * 2 ^ h = omega arith in
      let size = length-next_level xs in
      let next = next_level sha256 gets xs in
      elim (Bool-cases (leb (length xs) (2 ^ suc h))) [
        | inl few ↦
            let below = has_copies-next_level h xs lo (ground arith) in
            let above : leb (length next) (2 ^ h) ≡ true = ground arith in
            rw (few, above, below) refl
        | inr many ↦
            let xl = take (2 ^ suc h) xs in
            let xr = drop (2 ^ suc h) xs in
            let some_left : 0 < length xl = rw (length-take (2 ^ suc h) xs) (ground arith) in
            let few_left : length xl ≤ 2 ^ suc h = rw (length-take (2 ^ suc h) xs) (ground arith) in
            let some_right : 0 < length xr = rw (length-drop (2 ^ suc h) xs) (ground arith) in
            let few_right : length xr ≤ 2 ^ suc h =
              rw (length-drop (2 ^ suc h) xs) (ground arith) in
            let left = has_copies-next_level h xl some_left few_left in
            let right = has_copies-next_level h xr some_right few_right in
            let root_left = root_of-next_level h xl some_left few_left in
            let root_right = root_of-next_level h xr some_right few_right in
            let above : leb (length next) (2 ^ h) ≡ false = ground arith in
            let twins : has_twins xl || has_twins xr ≡ has_twins xs =
              rw half (has_twins-halves (2 ^ h) xs) in
            rw (many, above, left, right, root_left, root_right, sym twins)
              (rw (half, next_level-take (2 ^ h) xs, next_level-drop (2 ^ h) xs)
                (regroup (has_twins (take (2 * 2 ^ h) xs)) (has_twins (drop (2 * 2 ^ h) xs))
                  (has_copies h (take (2 ^ h) next)) (has_copies h (drop (2 ^ h) next))
                  (bytes_eq (root_of h (take (2 ^ h) next)) (root_of h (drop (2 ^ h) next)))))
      ]

  -- The loop ends with the root above the row, after as many rounds as there are rows above it.
  pub merkle_loop-root_of :
      (h rounds : ℕ) (mutated : Bool) (ids : List (List ℕ))
      → length ids ≤ 2 ^ h
      → 2 ^ h < 2 * length ids
      → h ≤ rounds
      → merkle_loop sha256 gets rounds mutated ids
        ≡ (mutated || has_copies h ids, root_of h ids ∷ [])
  unfolding merkle_loop has_copies root_of
  merkle_loop-root_of zero rounds mutated [] hi lo enough = absurd (omega arith)
  merkle_loop-root_of zero zero mutated (x ∷ []) hi lo enough = rw (or-false mutated) refl
  merkle_loop-root_of zero (suc rounds) mutated (x ∷ []) hi lo enough = rw (or-false mutated) refl
  merkle_loop-root_of zero rounds mutated (x ∷ y ∷ ids) hi lo enough = absurd (omega arith)
  merkle_loop-root_of (suc h) zero mutated ids hi lo enough = absurd (omega arith)
  merkle_loop-root_of (suc h) (suc rounds) mutated ids hi lo enough =
      let size = length-next_level ids in
      let power : 2 ^ suc h ≡ 2 * 2 ^ h = omega arith in
      let positive : 0 < 2 ^ h = omega arith in
      let more : ltb 1 (length ids) ≡ true = ground arith in
      rw
        (
          more,
          merkle_loop-root_of h rounds (mutated || has_twins ids) (next_level sha256 gets ids)
              (omega arith) (omega arith) (omega arith),
          root_of-next_level h ids (omega arith) hi,
          has_copies-next_level h ids (omega arith) hi,
        )
        (ap (λ (b : Bool). (b, root_of h (next_level sha256 gets ids) ∷ []))
          (or_assoc mutated (has_twins ids) _))
