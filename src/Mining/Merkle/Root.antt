-- ===== src/Mining/Merkle/Root.antt =====
-- The root that `merkle_of_txns` gives is that of the tree.
use c_datum_prime.Common.{ℕ, zero, suc, ◌+◌, ◌*◌, ◌^◌, ◌≤◌, ◌<◌, ◌≡◌, refl, sym, ap, inl, inr}
use c_datum_prime.Common.{Bool, true, false, if◌then◌else◌, Option-cases, Option, none, some}
use c_datum_prime.Common.{List, [], ◌∷◌, length}
use c_datum_prime.Common.{arith}
use c_datum_prime.Pow.{sha256d, txid}
use c_datum_prime.Mining.Merkle.{txids, merkle_of_txns}
use c_datum_prime.Mining.Merkle.Tree.{root_of, has_copies, merkle_loop-root_of}

module _ (sha256 : List ℕ → List ℕ) (gets : ℕ → Bool) where
  length-txids :
      (txns ids : List (List ℕ)) → txids sha256 gets txns ≡ some ids → length ids ≡ length txns
  unfolding txids
  length-txids [] [] e = refl
  length-txids [] (id ∷ ids) e = absurd (ground arith)
  length-txids (t ∷ txns) ids e = elim (Option-cases (txid sha256 gets t)) [
    | inl bad ↦ let no_ids : none ≡ some ids = rw (bad, txids) at e in absurd (ground arith)
    | inr (id, parsed) ↦ elim (Option-cases (txids sha256 gets txns)) [
      | inl bad ↦
          let no_ids : none ≡ some ids = rw (parsed, bad, txids) at e in absurd (ground arith)
      | inr (rest, others) ↦
          let whole : some (id ∷ rest) ≡ some ids = rw (parsed, others, txids) at e in
          let same : id ∷ rest ≡ ids =
            ap (λ (o : Option (List (List ℕ))). elim o [ none ↦ [] | some x ↦ x ]) whole in
          rw (sym same) (ap suc (length-txids txns rest others))
    ]
  ]

  below_power : (h : ℕ) → h < 2 ^ h
  below_power zero = omega arith
  below_power (suc h) = omega (arith, below_power h)

  -- Where the transactions have ids, `malloc` gives the array, and `h` is the least height whose tree has
  -- room for the coinbase and them, `merkle_of_txns` gives the root of that tree of the double hash of the
  -- coinbase and the ids, unless two halves with leaves have the same root, when it fails.
  pub merkle_of_txns-root_of :
      (h : ℕ) (coinbase : List ℕ) (txns ids : List (List ℕ))
      → txids sha256 gets txns ≡ some ids
      → gets ((length txns + 2) * 32) ≡ true
      → length txns + 1 ≤ 2 ^ h
      → 2 ^ h < 2 * (length txns + 1)
      → let leaves = sha256d sha256 gets coinbase ∷ ids in
        merkle_of_txns sha256 gets coinbase txns
        ≡ (if has_copies sha256 gets h leaves then none else some (root_of sha256 gets h leaves))
  unfolding merkle_of_txns
  merkle_of_txns-root_of h coinbase txns ids parsed room hi lo =
      let leaves = sha256d sha256 gets coinbase ∷ ids in
      let same = length-txids txns ids parsed in
      let loop =
        merkle_loop-root_of sha256 gets h (length ids + 1) false leaves (omega (arith, same))
          (omega (arith, same)) (enough h (omega (arith, same, lo))) in
      rw (room, parsed, loop) refl
    where
      enough : (k : ℕ) → 2 ^ k < 2 * (length ids + 1) → k ≤ length ids + 1
      enough zero l = omega arith
      enough (suc k) l = omega (arith, below_power k)
