-- ===== src/Ledger/Window/Tally.antt =====
-- The table of work by identity says how much work each identity has among the rows of the window.
use c_datum_prime.Common.{ℕ, zero, suc, ◌+◌, ◌-◌, ◌^◌, ◌≤◌, ◌<◌, ◌≡◌, refl, sym, ap, ◌∙◌, inl, inr}
use c_datum_prime.Common.{Bool, true, false, ◌&&◌, ◌==◌, ltb, leb, if◌then◌else◌, Bool-cases}
use c_datum_prime.Common.{List, [], ◌∷◌, ◌++◌, length, take_all}
use c_datum_prime.Common.{arith}
use c_datum_prime.Wire.{bytes_eq}
use c_datum_prime.Wire.Compare.{bytes_eq_refl, eq_of_bytes_eq}
use c_datum_prime.Ledger.Types.{
  Text, ShareRow, IdentWork, copy_text, max_identity, max_idents, row_add, row_sub, ident_add,
  ident_add_from, ident_sub, share_tag_is_sv1,
}
use c_datum_prime.Ledger.Window.{
  max_shares, Window, oldest, drop_oldest, push_row, trim_loop, record_share, share_row,
}
use c_datum_prime.Ledger.Window.Ring.{
  queue, sum_difficulty, IsValid, queue_cons, drop_oldest-IsValid, made_room, made_room-IsValid,
  made_room-le, push_row_lem,
}
use c_datum_prime.Ledger.Window.Trim.{trim_loops, push_row-kept}

-- The work of an identity: in the table, and among the rows.
abbrev pub tally : List IdentWork → Text → ℕ
tally [] name = 0
tally (r ∷ idents) name = if bytes_eq r.identity name then r.work else tally idents name

abbrev pub work_in : List ShareRow → Text → ℕ
work_in [] name = 0
work_in (s ∷ rows) name = (if bytes_eq s.identity name then s.difficulty else 0) + work_in rows name

copy_short : (name : Text) → length name < max_identity → copy_text max_identity name ≡ name
copy_short name h = take_all 127 name (omega arith)

-- A name that one of two different names is, is not the other.
pub other_name :
    (a b name : Text) → bytes_eq a b ≡ false → bytes_eq a name ≡ true → bytes_eq b name ≡ false
other_name a b name differ same = elim (Bool-cases (bytes_eq b name)) [
  | inl both ↦
      let e = eq_of_bytes_eq a name same ∙ sym (eq_of_bytes_eq b name both) in
      let clash : true ≡ false = rw (e, bytes_eq_refl b) at differ in ground arith
  | inr apart ↦ apart
]

tally-ident_add_from :
    (above : ℕ) (idents : List IdentWork) (identity : Text) (diff : ℕ) (is_public : Bool)
    (name : Text)
    → above + length idents < max_idents
    → length identity < max_identity
    → tally idents identity + diff < 2 ^ 64
    → tally (ident_add_from above idents identity diff is_public) name
      ≡ (if bytes_eq identity name then diff else 0) + tally idents name
unfolding ident_add_from row_add
tally-ident_add_from above [] identity diff is_public name room short fits =
    let some_room : leb max_idents above ≡ false = ground arith in
    rw (some_room, copy_short identity short) (omega arith)
tally-ident_add_from above (r ∷ idents) identity diff is_public name room short fits =
    elim (Bool-cases (bytes_eq r.identity identity)) [
      | inl same ↦
          let e = eq_of_bytes_eq r.identity identity same in
          rw (same, ← e) (ground (arith, rw (same) at fits))
      | inr other ↦
          let rest =
            tally-ident_add_from (above + 1) idents identity diff is_public name (omega arith) short
              (rw other at fits) in
          rw (other) (ground (arith, rest, other_name r.identity identity name other))
    ]

tally-ident_sub :
    (idents : List IdentWork) (identity : Text) (diff : ℕ) (is_public : Bool) (name : Text)
    → tally (ident_sub idents identity diff is_public) name
      ≡ tally idents name - (if bytes_eq identity name then diff else 0)
unfolding ident_sub row_sub
tally-ident_sub [] identity diff is_public name = omega arith
tally-ident_sub (r ∷ idents) identity diff is_public name =
    elim (Bool-cases (bytes_eq r.identity identity)) [
      | inl same ↦ let e = eq_of_bytes_eq r.identity identity same in rw (same, ← e) (ground arith)
      | inr other ↦
          let rest = tally-ident_sub idents identity diff is_public name in
          rw other (ground (arith, rest, other_name r.identity identity name other))
    ]

-- In the table every identity has the work of its rows.
abbrev pub IsTallied : Window → Type 0
IsTallied w = (name : Text) → tally w.idents name ≡ work_in (queue w) name

work_in-append :
    (xs ys : List ShareRow) (name : Text)
    → work_in (xs ++ ys) name ≡ work_in xs name + work_in ys name
work_in-append [] ys name = omega arith
work_in-append (x ∷ xs) ys name = ground (arith, work_in-append xs ys name)

work_in-le : (rows : List ShareRow) (name : Text) → work_in rows name ≤ sum_difficulty rows
work_in-le [] name = omega arith
work_in-le (s ∷ rows) name = ground (arith, work_in-le rows name)

idents-drop_oldest :
    (w : Window)
    → 0 < w.nshares
    → (drop_oldest w).idents
      ≡ ident_sub w.idents
          (oldest w).identity
          (oldest w).difficulty
          (share_tag_is_sv1 (oldest w).tag)
unfolding drop_oldest
idents-drop_oldest w more =
    let some_left : (w.nshares == 0) ≡ false = ground arith in rw some_left refl

drop_oldest-IsTallied :
    (w : Window) → IsValid w → 0 < w.nshares → IsTallied w → IsTallied (drop_oldest w)
drop_oldest-IsTallied w v more t name =
    let s = oldest w in
    let rows = ap (λ (q : List ShareRow). work_in q name) (queue_cons w v.head more) in
    ap (λ (idents : List IdentWork). tally idents name) (idents-drop_oldest w more)
    ∙ omega (
      arith,
      tally-ident_sub w.idents s.identity s.difficulty (share_tag_is_sv1 s.tag) name,
      t name,
      rows,
    )

made_room-IsTallied : (w : Window) → IsValid w → IsTallied w → IsTallied (made_room w)
made_room-IsTallied w v t = elim (Bool-cases (w.nshares == max_shares)) [
  | inl full ↦ let more : 0 < w.nshares = ground arith in rw full (drop_oldest-IsTallied w v more t)
  | inr room ↦ rw room t
]

pub length-ident_sub :
    (idents : List IdentWork) (identity : Text) (diff : ℕ) (is_public : Bool)
    → length (ident_sub idents identity diff is_public) ≡ length idents
unfolding ident_sub
length-ident_sub [] identity diff is_public = refl
length-ident_sub (r ∷ idents) identity diff is_public =
    ground (arith, length-ident_sub idents identity diff is_public)

pub length-made_room : (w : Window) → length (made_room w).idents ≡ length w.idents
unfolding drop_oldest
length-made_room w =
    let s = oldest w in
    ground (arith, length-ident_sub w.idents s.identity s.difficulty (share_tag_is_sv1 s.tag))

pub idents-push_row :
    (w : Window) (s : ShareRow) (identity : Text)
    → (push_row w s identity).idents
      ≡ ident_add (made_room w).idents identity s.difficulty (share_tag_is_sv1 s.tag)
unfolding push_row
idents-push_row w s identity = refl

-- A row of an identity that fits, while the table has room.
push_row-IsTallied :
    (w : Window) (s : ShareRow) (identity : Text)
    → IsValid w
    → IsTallied w
    → s.identity ≡ identity
    → length identity < max_identity
    → length w.idents < max_idents
    → w.total_work + s.difficulty < 2 ^ 64
    → IsTallied (push_row w s identity)
unfolding ident_add
push_row-IsTallied w s identity v t same short room fits name =
    let (valid, rows) = push_row_lem w s identity v fits in
    let (valid', _) = made_room-IsValid w v in
    let tallied = made_room-IsTallied w v t in
    let most = work_in-le (queue (made_room w)) identity in
    ap (λ (idents : List IdentWork). tally idents name) (idents-push_row w s identity)
    ∙ tally-ident_add_from 0 (made_room w).idents identity s.difficulty (share_tag_is_sv1 s.tag)
        name (omega (arith, length-made_room w)) short
        (omega (arith, tallied identity, most, valid'.total, made_room-le w v))
    ∙ omega (
      arith,
      tallied name,
      ap (λ (q : List ShareRow). work_in q name) rows,
      work_in-append (queue (made_room w)) (s ∷ []) name,
      last,
    )
  where
    last : work_in (s ∷ []) name ≡ (if bytes_eq identity name then s.difficulty else 0) + 0
    last = ap (λ (i : Text). (if bytes_eq i name then s.difficulty else 0) + 0) same

trim_loop-IsTallied :
    (rounds : ℕ) (w : Window) → IsValid w → IsTallied w → IsTallied (trim_loop rounds w)
unfolding trim_loop
trim_loop-IsTallied zero w v t = t
trim_loop-IsTallied (suc rounds) w v t =
    elim (Bool-cases (ltb 1 w.nshares && ltb w.window w.total_work)) [
      | inl over ↦ elim (Bool-cases (ltb (w.total_work - w.window) (oldest w).difficulty)) [
        | inl needed ↦ rw (over, needed) t
        | inr spare ↦
            let more : 0 < w.nshares = ground arith in
            rw (over, spare)
              (trim_loop-IsTallied rounds (drop_oldest w) (drop_oldest-IsValid w v more)
                (drop_oldest-IsTallied w v more t))
      ]
      | inr done ↦ rw done t
    ]

-- From a valid state in which the table is right and has room, and with a window set, recording a share
-- of an identity of at most 127 characters, with which the total fits in a uint64_t, leaves the table
-- right: every identity has exactly the work of its rows among those in the window.
pub record_share-IsTallied :
    (w : Window) (now : ℕ) (identity : Text) (difficulty : ℕ) (hash : List ℕ) (tag : Text)
    → IsValid w
    → IsTallied w
    → w.have_window ≡ true
    → length identity < max_identity
    → length w.idents < max_idents
    → w.total_work + difficulty < 2 ^ 64
    → IsTallied (record_share w now identity difficulty hash tag).1
unfolding record_share
record_share-IsTallied w now identity difficulty hash tag v t have short room fits =
    let s = share_row now identity difficulty hash tag in
    let same : s.identity ≡ identity = unfold share_row in copy_short identity short in
    let size : s.difficulty ≡ difficulty = unfold share_row in refl in
    let fits' : w.total_work + s.difficulty < 2 ^ 64 = omega arith in
    let w' = push_row w s identity in
    let valid = (push_row_lem w s identity v fits').0 in
    let tallied = push_row-IsTallied w s identity v t same short room fits' in
    let loops = trim_loops w' valid ((push_row-kept w s identity).0 ∙ have) in
    elim (Bool-cases (difficulty == 0)) [
      | inl refused ↦ rw refused t
      | inr some_work ↦ rw (some_work, loops) (trim_loop-IsTallied w'.nshares w' valid tallied)
    ]
