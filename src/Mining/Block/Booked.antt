-- ===== src/Mining/Block/Booked.antt =====
-- What booking a block leaves alone: the share window.
use c_datum_prime.Common.{ℕ, ◌≡◌, refl, ◌∙◌, inl, inr}
use c_datum_prime.Common.{Bool, true, false, ◌==◌, Bool-cases, Option-cases, some}
use c_datum_prime.Common.{List, [], length}
use c_datum_prime.Ledger.Types.{Text}
use c_datum_prime.Ledger.Split.{max_split_outputs}
use c_datum_prime.Ledger.Pool.{Pool, pool_split, record_block, credit_accepted_split}
use c_datum_prime.Pow.{serialize_block}
use c_datum_prime.Mining.{Mining, Opts, clear_pending_block}
use c_datum_prime.Mining.Block.{
  Node, World, on_pool, submit, prepare_find, book_find, book_block, stash_or_submit_block,
}

-- The pool is there, with the window of `p`.
pub record KeepsWindow (p : Pool) (w : World) : Type 0 where
  pub kept : Pool
  pub here : w.pool ≡ some kept
  pub same : kept.window ≡ p.window

pub on_pool-KeepsWindow :
    (p : Pool) (w : World) (f : Pool → Pool)
    → ((q : Pool) → (f q).window ≡ q.window)
    → KeepsWindow p w
    → KeepsWindow p (on_pool w f)
unfolding on_pool
on_pool-KeepsWindow p w f keeps k = record {
  kept = f k.kept;
  here = rw k.here refl;
  same = keeps k.kept ∙ k.same;
}

book_find_window :
    (ok : Bool) (p : Pool) (height : ℕ) (hash : List ℕ) (finder : Text)
    → (book_find ok p height hash finder).window ≡ p.window
unfolding book_find record_block
book_find_window true p height hash finder = refl
book_find_window false p height hash finder = refl

book_block_window :
    (ok : Bool) (p : Pool) (now height : ℕ) (hash : List ℕ) (finder : Text) (value : ℕ)
    → (book_block ok p now height hash finder value).window ≡ p.window
unfolding book_block credit_accepted_split record_block
book_block_window true p now height hash finder value =
    elim (Bool-cases (length (pool_split p value max_split_outputs) == 0)) [
      | inl none_there ↦ rw none_there refl
      | inr some_there ↦ rw some_there refl
    ]
book_block_window false p now height hash finder value = refl

prepare_find_window :
    (p : Pool) (now height : ℕ) (hash : List ℕ) (finder : Text) (value : ℕ)
    → (prepare_find p now height hash finder value).window ≡ p.window
unfolding prepare_find
prepare_find_window p now height hash finder value = refl

module _ (sha256 : List ℕ → List ℕ) (gets : ℕ → Bool) (node : Node) where
  submit-KeepsWindow :
      (p : Pool) (w : World) (opt : Opts) (block hash : List ℕ)
      → KeepsWindow p w
      → KeepsWindow p (submit gets node w opt block hash).1
  unfolding submit
  submit-KeepsWindow p w opt block hash k = record { kept = k.kept; here = k.here; same = k.same }

  pub stash_or_submit_block-KeepsWindow :
      (p : Pool) (w : World) (st : Mining) (opt : Opts) (now job_id : ℕ) (subsidy_only : Bool)
      (header result merkle coinbase : List ℕ) (finder : Text)
      → KeepsWindow p w
      → KeepsWindow p
          (stash_or_submit_block sha256 gets node w st opt now job_id subsidy_only header result
            merkle coinbase finder).0
  unfolding stash_or_submit_block
  stash_or_submit_block-KeepsWindow p w st opt now job_id true header result merkle coinbase finder
        k =
      elim (Option-cases (serialize_block sha256 gets header coinbase [])) [
        | inl bad ↦ rw bad k
        | inr (block, e) ↦ rw e (
            on_pool-KeepsWindow p _ _ (λ q. book_find_window _ q st.height result finder)
              (submit-KeepsWindow p _ opt block result (
                on_pool-KeepsWindow p w _
                  (λ q. prepare_find_window q now st.height result finder st.coinbase_value) k)))
      ]
  stash_or_submit_block-KeepsWindow p w st opt now job_id false header result merkle coinbase finder
        k =
      elim (Bool-cases (st.txn_count == 0)) [
        | inl alone ↦ elim (Option-cases (serialize_block sha256 gets header coinbase [])) [
          | inl bad ↦ rw (alone, bad) k
          | inr (block, e) ↦
              rw (alone, e)
                (on_pool-KeepsWindow p _ _
                  (λ q. book_block_window _ q now st.height result finder st.coinbase_value)
                  (submit-KeepsWindow p w opt block result k))
        ]
        | inr more ↦ rw more k
      ]

  pub stash_or_submit_block_accepted :
      (w : World) (st : Mining) (opt : Opts) (now job_id : ℕ) (subsidy_only : Bool)
      (header result merkle coinbase : List ℕ) (finder : Text)
      → (stash_or_submit_block sha256 gets node w st opt now job_id subsidy_only header result
          merkle coinbase finder).1.last_accepted
        ≡ st.last_accepted
  unfolding stash_or_submit_block clear_pending_block
  stash_or_submit_block_accepted w st opt now job_id true header result merkle coinbase finder =
      refl
  stash_or_submit_block_accepted w st opt now job_id false header result merkle coinbase finder =
      elim (Bool-cases (st.txn_count == 0)) [ inl alone ↦ rw alone refl | inr more ↦ rw more refl ]
