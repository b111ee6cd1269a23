-- ===== src/Ledger/Empty/Examples.antt =====
-- The book of empty finds on concrete blocks.
use c_datum_prime.Common.{ℕ}
use c_datum_prime.Common.{List, [], ◌∷◌, replicate}
use c_datum_prime.Common.{arith}
use c_datum_prime.Ledger.Empty.{
  Find, Terms, Code, done, prepare_empty, commit_empty, abort_empty, settle_empty, empty_count,
  empty_index,
}
use c_datum_prime.Ledger.Empty.Book.{
  IsBook, Op, on_record, on_prepare, on_commit, on_settle, on_void, run_all, run_all-IsBook,
}

abbrev terms : Terms
terms = record {
  now = 1700000000;
  total_work = 100;
  fee_bps = 100;
  min_payout = 546;
  idents = record { identity = b'a' ∷ []; work = 100; public_work = 0 } ∷ [];
}

abbrev block : List ℕ
block = replicate 32 7

abbrev other_block : List ℕ
other_block = replicate 32 8

no_finds-IsBook : IsBook []
no_finds-IsBook = record {
  limit = omega arith;
  once = λ hash. unfold c_datum_prime.Ledger.Empty.Book.occurs in omega arith;
}

run_all-IsBook_example : IsBook (
    run_all
      (on_prepare terms 800000 block [] 5000
        ∷ on_record terms 800001 other_block [] 5000
        ∷ on_commit block
        ∷ on_settle block 1
        ∷ on_void other_block
        ∷ [])
      [])
run_all-IsBook_example =
    run_all-IsBook
      (on_prepare terms 800000 block [] 5000
        ∷ on_record terms 800001 other_block [] 5000
        ∷ on_commit block
        ∷ on_settle block 1
        ∷ on_void other_block
        ∷ [])
      [] no_finds-IsBook
