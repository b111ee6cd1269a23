-- ===== src/Ledger/Owed.antt =====
-- The book of what is owed for found blocks (src/ledger.c: `prime_pool_record_owed`,
-- `prime_pool_settle`, `prime_pool_void_owed`, and the window work that is filled in from the share
-- file). The files themselves and the printed rows are not modelled.
pub mod Record
use c_datum_prime.Common.{[], ℕ, ◌+◌}
use c_datum_prime.Common.{Bool, false, not, ◌&&◌, ◌||◌, ◌==◌, ltb, leb, if◌then◌else◌}
use c_datum_prime.Common.{List, ◌∷◌, ◌++◌, map, length, take, drop}
use c_datum_prime.Wire.{u64, bytes_eq}
use c_datum_prime.Ledger.Types.{
  Text, ShareRow, IdentWork, copy_text, max_identity, share_tag_is_sv1,
}
use c_datum_prime.Ledger.Split.{Payout, max_split_outputs}
use c_datum_prime.Ledger.Empty.{Terms, Code, done, absent, failed}

abbrev pub max_owed : ℕ
max_owed = 256

-- `PRIME_MAX_OWED_ENTS`.
abbrev pub max_owed_ents : ℕ
max_owed_ents = max_split_outputs

-- One index of the arrays `ents`, `amounts`, `work` and `public_work`.
pub record Entry : Type 0 where
  pub identity : Text
  pub amount : ℕ
  pub work : ℕ
  pub public_work : ℕ

-- A row of `owed`.
pub record Owed : Type 0 where
  pub at : ℕ
  pub height : ℕ
  pub hash : List ℕ
  pub total : ℕ
  pub settled_at : ℕ
  pub finder : Text
  pub total_work : ℕ
  pub fee_bps : ℕ
  pub min_payout : ℕ
  pub ents : List Entry

unfoldable pub has_owed : List Owed → List ℕ → Bool
has_owed [] hash = false
has_owed (o ∷ owed) hash = bytes_eq o.hash hash || has_owed owed hash

-- The work of the first row of the identity, for a new entry.
unfoldable pub entry_for : List IdentWork → Payout → Entry
entry_for [] p = record {
  identity = copy_text max_identity p.identity;
  amount = p.amount;
  work = 0;
  public_work = 0;
}
entry_for (r ∷ idents) p =
    if bytes_eq r.identity p.identity
    then record {
      identity = copy_text max_identity p.identity;
      amount = p.amount;
      work = r.work;
      public_work = r.public_work;
    }
    else entry_for idents p

unfoldable pub has_entry : List Entry → Text → Bool
has_entry [] identity = false
has_entry (e ∷ ents) identity = bytes_eq e.identity identity || has_entry ents identity

-- The identities that have work and no entry yet, while there is room.
unfoldable pub add_workers : List Entry → List IdentWork → List Entry
add_workers ents [] = ents
add_workers ents (r ∷ idents) =
    let e : Entry = record {
      identity = copy_text max_identity r.identity;
      amount = 0;
      work = r.work;
      public_work = r.public_work;
    } in
    let skipped = add_workers ents idents in
    let added = add_workers (ents ++ (e ∷ [])) idents in
    if ltb (length ents) max_owed_ents
    then (if r.work == 0 || has_entry ents r.identity then skipped else added)
    else ents

unfoldable pub owed_row : Terms → ℕ → List ℕ → Text → ℕ → List Payout → Owed
owed_row t height hash finder total payouts = record {
  at = t.now;
  height = height;
  hash = hash;
  total = total;
  settled_at = 0;
  finder = copy_text max_identity finder;
  total_work = t.total_work;
  fee_bps = t.fee_bps;
  min_payout = t.min_payout;
  ents =
      add_workers (map (λ (p : Payout). entry_for t.idents p) (take max_owed_ents payouts))
        t.idents;
}

-- `prime_pool_record_owed`: the oldest row makes room.
unfoldable pub record_owed :
    Terms → List Owed → ℕ → List ℕ → Text → ℕ → List Payout → Code × List Owed
record_owed t owed height hash finder total payouts =
    let kept = if length owed == max_owed then drop 1 owed else owed in
    if length payouts == 0
    then (failed, owed)
    else if has_owed owed hash
    then (done, owed)
    else (done, kept ++ (owed_row t height hash finder total payouts ∷ []))

-- `prime_pool_settle`.
unfoldable pub settle : List Owed → List ℕ → ℕ → Code × List Owed
settle [] hash at = (absent, [])
settle (o ∷ owed) hash at =
    let (code, rest) = settle owed hash at in
    if bytes_eq o.hash hash
    then (
      done,
      (if o.settled_at == 0 then record o { settled_at = if at == 0 then 1 else at } else o) ∷ owed,
    )
    else (code, o ∷ rest)

-- `prime_pool_void_owed`.
unfoldable pub void_owed : List Owed → List ℕ → Code × List Owed
void_owed [] hash = (absent, [])
void_owed (o ∷ owed) hash =
    let (code, rest) = void_owed owed hash in
    if bytes_eq o.hash hash then (done, owed) else (code, o ∷ rest)

-- `owed_window_missing`.
unfoldable pub some_entry_work : List Entry → Bool
some_entry_work [] = false
some_entry_work (e ∷ ents) = not (e.work == 0) || not (e.public_work == 0) || some_entry_work ents

unfoldable pub owed_window_missing : Owed → Bool
owed_window_missing o =
    o.total_work == 0 && not (some_entry_work o.ents) && not (length o.ents == 0)

-- The entry of the share's identity, or one more while there is room; the entries above it.
unfoldable pub add_share_entry : ℕ → List Entry → ShareRow → List Entry
add_share_entry above [] s =
    if leb max_owed_ents above
    then []
    else record {
      identity = copy_text max_identity s.identity;
      amount = 0;
      work = s.difficulty;
      public_work = if share_tag_is_sv1 s.tag then s.difficulty else 0;
    }
      ∷ []
add_share_entry above (e ∷ ents) s =
    if bytes_eq e.identity s.identity
    then record e {
      work = u64 (e.work + s.difficulty);
      public_work =
          if share_tag_is_sv1 s.tag then u64 (e.public_work + s.difficulty) else e.public_work;
    }
      ∷ ents
    else e ∷ add_share_entry (above + 1) ents s

-- `owed_add_share`.
unfoldable pub owed_add_share : Owed → ShareRow → Owed
owed_add_share o s = record o {
  ents = add_share_entry 0 o.ents s;
  total_work = u64 (o.total_work + s.difficulty);
}

-- The shares of the file up to the find, for a row whose window is missing.
unfoldable pub fill_row : List ShareRow → Owed → Owed
fill_row [] o = o
fill_row (s ∷ rows) o =
    let used = fill_row rows (owed_add_share o s) in
    let skipped = fill_row rows o in
    if not (s.at == 0) && not (s.difficulty == 0) && leb s.at o.at then used else skipped

-- Whether any share was used: the C code's `dirty`.
unfoldable pub is_used : List ShareRow → List Owed → Bool
is_used [] owed = false
is_used (s ∷ rows) owed =
    not (s.at == 0) && not (s.difficulty == 0) && some_row owed || is_used rows owed
  where
    some_row : List Owed → Bool
    some_row [] = false
    some_row (o ∷ os) = owed_window_missing o && leb s.at o.at || some_row os

-- The table as `owed_backfill_from_shares` leaves it, before it looks up the finders in the block file:
-- each row is filled by itself.
unfoldable pub owed_backfill : ℕ → List ShareRow → List Owed → List Owed
owed_backfill min_payout rows owed =
    if is_used rows owed
    then map
        (λ (o : Owed).
          if owed_window_missing o
          then (let filled = fill_row rows o in
              if filled.min_payout == 0 then record filled { min_payout = min_payout } else filled)
          else o)
        owed
    else owed
