-- ===== src/Mining/Merkle.antt =====
-- The root of the Merkle tree of a block's transactions (src/mining.c: `merkle_of_txns`).
pub mod Tree
pub mod Root
use c_datum_prime.Common.{[], ℕ, zero, suc, ◌+◌, ◌*◌}
use c_datum_prime.Common.{Bool, false, not, ◌||◌, ltb, if◌then◌else◌, Option, none, some}
use c_datum_prime.Common.{List, ◌∷◌, ◌++◌, length}
use c_datum_prime.Wire.{bytes_eq}
use c_datum_prime.Pow.{sha256d, txid}

-- `mutated`: two ids of a pair are equal.
unfoldable pub has_twins : List (List ℕ) → Bool
has_twins (a ∷ b ∷ ids) = bytes_eq a b || has_twins ids
has_twins ids = false

module _ (sha256 : List ℕ → List ℕ) (gets : ℕ → Bool) where
  -- The ids of the transactions; `none` where one cannot be parsed.
  unfoldable pub txids : List (List ℕ) → Option (List (List ℕ))
  txids [] = some []
  txids (t ∷ txns) =
      let rest = txids txns in
      elim (txid sha256 gets t) [
        | none ↦ none
        | some id ↦ elim rest [ none ↦ none | some ids ↦ some (id ∷ ids) ]
      ]

  -- The row above: an odd row's last id is taken twice.
  unfoldable pub next_level : List (List ℕ) → List (List ℕ)
  next_level (a ∷ b ∷ ids) = sha256d sha256 gets (a ++ b) ∷ next_level ids
  next_level (a ∷ []) = sha256d sha256 gets (a ++ a) ∷ []
  next_level [] = []

  -- `while (level_n > 1)`, in at most as many rounds: the row that is left, and `mutated`.
  unfoldable pub merkle_loop : ℕ → Bool → List (List ℕ) → Bool × List (List ℕ)
  merkle_loop zero mutated ids = (mutated, ids)
  merkle_loop (suc rounds) mutated ids =
      let rest = merkle_loop rounds (mutated || has_twins ids) (next_level ids) in
      if ltb 1 (length ids) then rest else (mutated, ids)

  -- `merkle_of_txns`: the root, or `none` for -1 and -2. The loop has a round for each id.
  unfoldable pub merkle_of_txns : List ℕ → List (List ℕ) → Option (List ℕ)
  merkle_of_txns coinbase txns =
      if not (gets ((length txns + 2) * 32)) then none else elim (txids txns) [
        | none ↦ none
        | some ids ↦
            let (mutated, row) =
              merkle_loop (length ids + 1) false (sha256d sha256 gets coinbase ∷ ids) in
            if mutated then none else elim row [ [] ↦ none | root ∷ rest ↦ some root ]
      ]
