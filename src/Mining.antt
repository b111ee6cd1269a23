-- ===== src/Mining.antt =====
-- The mining messages of a connection (src/mining.c, src/prime.h): what the server keeps of the
-- gateway's job, and the coinbase splits it sent. `malloc` is in the models where the code tests its
-- answer; the printed lines are not modelled.
pub mod Search
pub mod Coinbaser
pub mod Job
pub mod Block
pub mod Merkle
pub mod Share
pub mod Validation
pub mod Handle
pub mod Sample
mod Examples
use c_datum_prime.Common.{[], ℕ, ◌+◌, ◌-◌}
use c_datum_prime.Common.{
  Bool, true, false, not, ◌&&◌, ◌||◌, ◌==◌, ltb, leb, if◌then◌else◌, Option, none, some,
}
use c_datum_prime.Common.{replicate, List, ◌∷◌, ◌++◌, length, set, replicate}
use c_datum_prime.Ledger.Types.{Text}
use c_datum_prime.Abw.{Abw, empty_slot}

-- `PRIME_SPLIT_GRACE_SECS`.
abbrev pub split_grace_secs : ℕ
split_grace_secs = 10

abbrev pub max_splits : ℕ
max_splits = 16

-- One index of the arrays `values`, `scripts` and `script_lens`.
pub record Output : Type 0 where
  pub value : ℕ
  pub script : List ℕ

-- `prime_split_rec`.
pub record SplitRec : Type 0 where
  pub id : ℕ
  pub sent_at : ℕ
  pub outputs : List Output

-- The fields `pending_*`, where `have_pending_block` is set.
pub record Pending : Type 0 where
  pub job_id : ℕ
  pub header : List ℕ
  pub merkle : List ℕ
  pub hash : List ℕ
  pub coinbase : List ℕ
  pub txn_count : ℕ
  pub height : ℕ
  pub coinbase_value : ℕ
  pub finder : Text

-- `prime_conn_mining`: an array and its count are a list, a value and its flag an option.
pub record Mining : Type 0 where
  pub have_job : Bool
  pub prev_hash : List ℕ
  pub target_byte_index : ℕ
  pub nbits : List ℕ
  pub job_coinbaser_id : ℕ
  pub height : ℕ
  pub coinbase_value : ℕ
  pub txn_count : ℕ
  pub merkle : List (List ℕ)
  pub have_cb : Bool
  pub cb_id : ℕ
  pub coinb1 : List ℕ
  pub coinb2 : List ℕ
  pub next_coinbaser_id : ℕ
  pub last_coinbaser_id : ℕ
  pub abw_slot : Option ℕ
  pub abw_on : Bool
  pub abw : Abw
  pub splits : List SplitRec
  pub last_hash : List ℕ
  pub last_raw_le : Option (List ℕ)
  pub last_accepted : Bool
  pub last_candidate : Bool
  pub public_stratum : Bool
  pub want_parent : Bool
  pub parent_job : ℕ
  pub parent_need : List ℕ
  pub pending : Option Pending

-- memcmp(h, n, nn) == 0 for the `nn` bytes of `n`.
unfoldable pub starts_with : List ℕ → List ℕ → Bool
starts_with h [] = true
starts_with [] (x ∷ n) = false
starts_with (y ∷ h) (x ∷ n) = y == x && starts_with h n

-- for (i = 0; i + nn <= hn; i++): what is left of `h` at `i`.
unfoldable pub find_loop : List ℕ → List ℕ → Option (List ℕ)
find_loop [] n = if length n == 0 then some [] else none
find_loop (y ∷ h) n =
    let rest = find_loop h n in
    if leb (length n) (length (y ∷ h))
    then (if starts_with (y ∷ h) n then some (y ∷ h) else rest)
    else none

-- `find_bytes`: what `h` has from the place where `n` is found; `none` is NULL.
unfoldable pub find_bytes : List ℕ → List ℕ → Option (List ℕ)
find_bytes h n = if length n == 0 || ltb (length h) (length n) then none else find_loop h n

-- The search of `split_slot_for`: the rows left, `i`, `oldest` and its `sent_at`; the row of the id,
-- or `oldest` at the end.
unfoldable pub slot_loop : ℕ → ℕ → ℕ → ℕ → List SplitRec → Bool × ℕ
slot_loop id i oldest oldest_at [] = (false, oldest)
slot_loop id i oldest oldest_at (r ∷ splits) =
    let older = ltb r.sent_at oldest_at in
    let rest =
      slot_loop id (i + 1) (if older then i else oldest) (if older then r.sent_at else oldest_at)
        splits in
    if r.id == id then (true, i) else rest

abbrev first_sent_at : List SplitRec → ℕ
first_sent_at [] = 0
first_sent_at (r ∷ splits) = r.sent_at

-- `split_slot_for`, and the record that is written there.
unfoldable pub put_split : List SplitRec → SplitRec → List SplitRec
unfolding slot_loop
put_split splits r =
    let (found, at) = slot_loop r.id 0 0 (first_sent_at splits) splits in
    if found
    then set splits at r
    else if ltb (length splits) max_splits
    then splits ++ (r ∷ [])
    else set splits at r

-- The first split with the id.
unfoldable pub split_of : ℕ → List SplitRec → Option SplitRec
split_of id [] = none
split_of id (r ∷ splits) = if r.id == id then some r else split_of id splits

-- Whether the coinbase has one of the scripts.
unfoldable pub has_some_script : List ℕ → List Output → Bool
has_some_script coinbase [] = false
has_some_script coinbase (o ∷ outputs) =
    not (length o.script == 0)
      && elim (find_bytes coinbase o.script) [ none ↦ false | some at ↦ true ]
    || has_some_script coinbase outputs

-- `prime_require_split_rejected`. `now - sent_at` is of a signed time.
unfoldable pub require_split_rejected : Mining → Bool → Bool → List ℕ → ℕ → Bool
require_split_rejected st subsidy_only meets_network coinbase now =
    if subsidy_only || meets_network || st.job_coinbaser_id == 0
    then false
    else elim (split_of st.job_coinbaser_id st.splits) [
      | none ↦ false
      | some r ↦
          if length r.outputs == 0 || ltb now r.sent_at || leb (now - r.sent_at) split_grace_secs
          then false
          else not (has_some_script coinbase r.outputs)
    ]

-- `clear_pending_block`.
unfoldable pub clear_pending_block : Mining → Mining
clear_pending_block st = record st { pending = none }

-- What the connection takes of `prime_config_opts`, apart from the pool; NULL is `[]` or `false`.
pub record Opts : Type 0 where
  pub has_datadir : Bool
  pub has_block_dir : Bool
  pub payout_script : List ℕ
  pub prime_id : ℕ
  pub coinbase_tag : Text
  pub min_difficulty : ℕ
  pub abw_disabled : Bool
  pub require_split : Bool
  pub bulk_framing : Bool
  pub abw_reveal_after_sec : ℕ

-- The parent block that the node lacks is asked for; `parent_have` is what the node answers to
-- `prime_parent_have`.
unfoldable pub ask_parent : (List ℕ → Bool) → Mining → Opts → ℕ → List ℕ → Mining
ask_parent parent_have st opt job prev_hash =
    if opt.has_datadir && not (parent_have prev_hash)
    then record st { parent_need = prev_hash; parent_job = job; want_parent = true }
    else st

-- `prime_conn_mining_init`.
unfoldable pub conn_mining_init : Mining
conn_mining_init = record {
  have_job = false;
  prev_hash = replicate 32 0;
  target_byte_index = 0;
  nbits = replicate 4 0;
  job_coinbaser_id = 0;
  height = 0;
  coinbase_value = 0;
  txn_count = 0;
  merkle = [];
  have_cb = false;
  cb_id = 0;
  coinb1 = [];
  coinb2 = [];
  next_coinbaser_id = 1;
  last_coinbaser_id = 0;
  abw_slot = none;
  abw_on = false;
  abw = record {
    slots = λ i. empty_slot;
    active = 0;
    shares = 0;
    activated_at = 0;
    reveal_after_sec = 0;
  };
  splits = [];
  last_hash = replicate 32 0;
  last_raw_le = none;
  last_accepted = false;
  last_candidate = false;
  public_stratum = false;
  want_parent = false;
  parent_job = 0;
  parent_need = replicate 32 0;
  pending = none;
}
