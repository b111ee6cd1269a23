-- ===== src/Mining/Block.antt =====
-- What happens with a share that meets the network's target (src/mining.c: `prime_submit_block`,
-- `stash_or_submit_block`).
pub mod Booked
use c_datum_prime.Common.{[], ℕ, zero, suc, ◌+◌, ◌*◌}
use c_datum_prime.Common.{Bool, true, false, ◌&&◌, ◌||◌, ◌==◌, if◌then◌else◌, Option, none, some}
use c_datum_prime.Common.{List, ◌∷◌, ◌++◌, reverse, length}
use c_datum_prime.Wire.{bytes_eq}
use c_datum_prime.Framing.{hex_encode}
use c_datum_prime.Ledger.Types.{Text, copy_text, max_identity}
use c_datum_prime.Ledger.Empty.{prepare_empty, commit_empty, abort_empty}
use c_datum_prime.Ledger.Pool.{Pool, terms_of, record_block, credit_accepted_split}
use c_datum_prime.Pow.{serialize_block}
use c_datum_prime.Mining.{Mining, Pending, Opts, clear_pending_block}

-- What the node and the file system answer: whether the node has a block's parent, what it replies to
-- the text that `submitblock` gets (`none` where the command fails), and whether a named file is
-- written.
pub record Node : Type 0 where
  pub parent_have : List ℕ → Bool
  pub submitblock : Text → Option Text
  pub writes : Text → Text → Bool

-- A block that was given to the node: its bytes, the length that `prime_submit_block` is told, and the
-- hash.
pub record Submission : Type 0 where
  pub block : List ℕ
  pub block_len : ℕ
  pub hash : List ℕ

-- The pool, and the blocks that were given to the node, the last one first.
pub record World : Type 0 where
  pub pool : Option Pool
  pub submitted : List Submission

-- The spaces and the quote before a reply's word.
unfoldable pub skip_spaces : Text → Text
skip_spaces [] = []
skip_spaces (c ∷ s) =
    let rest = skip_spaces s in if c == 32 || c == 9 || c == 10 || c == 13 then rest else c ∷ s

abbrev pub is_quote : ℕ → Bool
is_quote c = c == 34 || c == 39

unfoldable pub skip_quote : Text → Text
skip_quote [] = []
skip_quote (c ∷ s) = if is_quote c then s else c ∷ s

-- The word, of at most as many characters.
unfoldable pub reply_word : ℕ → Text → Text
reply_word zero s = []
reply_word (suc room) [] = []
reply_word (suc room) (c ∷ s) =
    if is_quote c || c == 10 || c == 13 then [] else c ∷ reply_word room s

-- "null" and "duplicate".
abbrev null_word : Text
null_word = b'n' ∷ b'u' ∷ b'l' ∷ b'l' ∷ []

abbrev duplicate_word : Text
duplicate_word = b'd' ∷ b'u' ∷ b'p' ∷ b'l' ∷ b'i' ∷ b'c' ∷ b'a' ∷ b't' ∷ b'e' ∷ []

unfoldable pub submitblock_result_ok : Text → Bool
submitblock_result_ok s =
    let word = reply_word 127 (skip_quote (skip_spaces s)) in
    length word == 0 || bytes_eq word null_word || bytes_eq word duplicate_word

unfoldable pub on_pool : World → (Pool → Pool) → World
on_pool w f = record w { pool = elim w.pool [ none ↦ none | some p ↦ some (f p) ] }

module _ (gets : ℕ → Bool) (node : Node) where
  -- The text that goes to the node and into the file: none where `malloc` fails.
  unfoldable pub block_text : List ℕ → Option Text
  block_text block =
      if gets (length block * 2 + 1) then hex_encode block (length block * 2 + 1) else none

  -- `prime_submit_block`, whose pipes and fork work: whether it returns 0.
  unfoldable pub submit_block : Opts → List ℕ → List ℕ → Bool
  submit_block opt block hash =
      let text = block_text block in
      let stdin : Text = elim text [ none ↦ [] | some t ↦ t ++ (10 ∷ []) ] in
      let name = hex_encode (reverse hash) 65 in
      let wrote_hex : Bool = elim name [
        | none ↦ false
        | some n ↦ elim text [ none ↦ false | some t ↦ node.writes n t ]
      ] in
      let answered : Bool = elim (node.submitblock stdin) [
        | none ↦ false
        | some reply ↦ submitblock_result_ok reply
      ] in
      elim name [
        | none ↦ false
        | some n ↦ if opt.has_datadir then answered else opt.has_block_dir && wrote_hex
      ]

  -- The block is submitted; whether the node took it.
  unfoldable pub submit : World → Opts → List ℕ → List ℕ → Bool × World
  submit w opt block hash = (
    submit_block opt block hash,
    record w {
      submitted = record { block = block; block_len = length block; hash = hash } ∷ w.submitted;
    },
  )

-- The two books around a block that pays only the subsidy, and the credit of another one.
unfoldable pub prepare_find : Pool → ℕ → ℕ → List ℕ → Text → ℕ → Pool
prepare_find p now height hash finder value = record p {
  empty = (prepare_empty (terms_of p now) p.empty height hash finder value).1;
}

unfoldable pub book_find : Bool → Pool → ℕ → List ℕ → Text → Pool
book_find true p height hash finder =
    let p' = record_block p height hash finder in
    record p' { empty = (commit_empty p'.empty hash).1 }
book_find false p height hash finder = record p { empty = (abort_empty p.empty hash).1 }

unfoldable pub book_block : Bool → Pool → ℕ → ℕ → List ℕ → Text → ℕ → Pool
book_block true p now height hash finder value =
    credit_accepted_split p now height hash finder value
book_block false p now height hash finder value = p

module _ (sha256 : List ℕ → List ℕ) (gets : ℕ → Bool) (node : Node) where
  -- `stash_or_submit_block` at the time `now`: the world, the connection, and `want_txns`.
  unfoldable pub stash_or_submit_block :
      World
      → Mining
      → Opts
      → ℕ
      → ℕ
      → Bool
      → List ℕ
      → List ℕ
      → List ℕ
      → List ℕ
      → Text
      → World × Mining × Bool
  stash_or_submit_block w st opt now job_id subsidy_only header result merkle coinbase finder =
      let value : ℕ = st.coinbase_value in
      let empty : World = elim (serialize_block sha256 gets header coinbase []) [
        | none ↦ w
        | some block ↦
            let prepared = on_pool w (λ p. prepare_find p now st.height result finder value) in
            let (ok, sent) = submit gets node prepared opt block result in
            on_pool sent (λ p. book_find ok p st.height result finder)
      ] in
      let alone : World = elim (serialize_block sha256 gets header coinbase []) [
        | none ↦ w
        | some block ↦
            let (ok, sent) = submit gets node w opt block result in
            on_pool sent (λ p. book_block ok p now st.height result finder value)
      ] in
      let waiting : Pending = record {
        job_id = job_id;
        header = header;
        merkle = merkle;
        hash = result;
        coinbase = coinbase;
        txn_count = st.txn_count;
        height = st.height;
        coinbase_value = value;
        finder = copy_text max_identity finder;
      } in
      if subsidy_only
      then (empty, st, false)
      else if st.txn_count == 0
      then (alone, st, false)
      else (w, record (clear_pending_block st) { pending = some waiting }, true)
