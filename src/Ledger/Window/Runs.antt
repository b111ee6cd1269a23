-- ===== src/Ledger/Window/Runs.antt =====
-- Shares that are recorded one after the other.
use c_datum_prime.Common.{ℕ, zero, suc, ◌+◌, ◌-◌, ◌^◌, ◌≤◌, ◌<◌, ◌≡◌, refl, ap, ◌∙◌, inl, inr}
use c_datum_prime.Common.{Bool, true, ◌&&◌, ◌==◌, ltb, Bool-cases}
use c_datum_prime.Common.{List, [], ◌∷◌, length, All}
use c_datum_prime.Common.{arith}
use c_datum_prime.Ledger.Types.{
  Text, ShareRow, IdentWork, max_identity, max_idents, ident_add, ident_add_from, share_tag_is_sv1,
}
use c_datum_prime.Ledger.Window.{
  Window, oldest, drop_oldest, push_row, trim_loop, record_share, share_row,
}
use c_datum_prime.Ledger.Window.Ring.{
  sum_difficulty, IsValid, drop_oldest-IsValid, total-drop_oldest, made_room, made_room-le,
  push_row_lem, counts-push_row,
}
use c_datum_prime.Ledger.Window.Trim.{trim_loops, push_row-kept}
use c_datum_prime.Ledger.Window.Tally.{
  IsTallied, length-ident_sub, length-made_room, idents-push_row, record_share-IsTallied,
}

-- The window after `prime_pool_record_share` of the time, identity, difficulty, hash and tag of each row.
abbrev pub record_all : Window → List ShareRow → Window
record_all w [] = w
record_all w (s ∷ rows) =
    record_all (record_share w s.at s.identity s.difficulty s.hash s.tag).1 rows

-- The window is set as before, the table has as many rows, and the total is not greater.
Less : Window → Window → Type 0
Less w w' =
    (w'.have_window ≡ w.have_window)
    × (length w'.idents ≡ length w.idents)
    × (w'.total_work ≤ w.total_work)

have_window-drop_oldest : (w : Window) → (drop_oldest w).have_window ≡ w.have_window
unfolding drop_oldest
have_window-drop_oldest w = ground arith

length-drop_oldest : (w : Window) → length (drop_oldest w).idents ≡ length w.idents
unfolding drop_oldest
length-drop_oldest w =
    let s = oldest w in
    ground (arith, length-ident_sub w.idents s.identity s.difficulty (share_tag_is_sv1 s.tag))

drop_oldest-Less : (w : Window) → IsValid w → 0 < w.nshares → Less w (drop_oldest w)
unfolding Less
drop_oldest-Less w v more =
    let (less, total) = total-drop_oldest w v more in
    (have_window-drop_oldest w, length-drop_oldest w, omega (arith, less))

trim_loop-Less : (rounds : ℕ) (w : Window) → IsValid w → Less w (trim_loop rounds w)
unfolding trim_loop Less
trim_loop-Less zero w v = (refl, refl, omega arith)
trim_loop-Less (suc rounds) w v = elim (Bool-cases (ltb 1 w.nshares && ltb w.window w.total_work)) [
  | inl over ↦ elim (Bool-cases (ltb (w.total_work - w.window) (oldest w).difficulty)) [
    | inl needed ↦ rw (over, needed) (refl, refl, omega arith)
    | inr spare ↦
        let more : 0 < w.nshares = ground arith in
        let first = drop_oldest-Less w v more in
        let rest = trim_loop-Less rounds (drop_oldest w) (drop_oldest-IsValid w v more) in
        rw (over, spare) (rest.0 ∙ first.0, rest.1 ∙ first.1, omega (arith, rest.2, first.2))
  ]
  | inr done ↦ rw done (refl, refl, omega arith)
]

trim_loop-IsValid : (rounds : ℕ) (w : Window) → IsValid w → IsValid (trim_loop rounds w)
unfolding trim_loop
trim_loop-IsValid zero w v = v
trim_loop-IsValid (suc rounds) w v =
    elim (Bool-cases (ltb 1 w.nshares && ltb w.window w.total_work)) [
      | inl over ↦ elim (Bool-cases (ltb (w.total_work - w.window) (oldest w).difficulty)) [
        | inl needed ↦ rw (over, needed) v
        | inr spare ↦
            rw (over, spare)
              (trim_loop-IsValid rounds (drop_oldest w) (drop_oldest-IsValid w v (ground arith)))
      ]
      | inr done ↦ rw done v
    ]

length-ident_add_from :
    (above : ℕ) (idents : List IdentWork) (identity : Text) (diff : ℕ) (is_public : Bool)
    → length (ident_add_from above idents identity diff is_public) ≤ length idents + 1
unfolding ident_add_from
length-ident_add_from above [] identity diff is_public = ground arith
length-ident_add_from above (r ∷ idents) identity diff is_public =
    ground (arith, length-ident_add_from (above + 1) idents identity diff is_public)

length-push_row :
    (w : Window) (s : ShareRow) (identity : Text)
    → length (push_row w s identity).idents ≤ length w.idents + 1
unfolding ident_add
length-push_row w s identity = omega (
  arith,
  ap (λ (t : List IdentWork). length t) (idents-push_row w s identity),
  length-ident_add_from 0 (made_room w).idents identity s.difficulty (share_tag_is_sv1 s.tag),
  length-made_room w,
)

-- What a record leaves for the next: a valid state, at most one row more in the table, and a total that grew
-- by at most the difficulty.
recorded_lem :
    (w : Window) (now : ℕ) (identity : Text) (difficulty : ℕ) (hash : List ℕ) (tag : Text)
    → IsValid w
    → w.have_window ≡ true
    → w.total_work + difficulty < 2 ^ 64
    → let w' = (record_share w now identity difficulty hash tag).1 in
      IsValid w'
      × (w'.have_window ≡ true)
      × (length w'.idents ≤ length w.idents + 1)
      × (w'.total_work ≤ w.total_work + difficulty)
unfolding record_share Less
recorded_lem w now identity difficulty hash tag v have fits =
    let s = share_row now identity difficulty hash tag in
    let size : s.difficulty ≡ difficulty = unfold share_row in refl in
    let fits' : w.total_work + s.difficulty < 2 ^ 64 = omega arith in
    let w' = push_row w s identity in
    let valid = (push_row_lem w s identity v fits').0 in
    let has = (push_row-kept w s identity).0 ∙ have in
    let loops = trim_loops w' valid has in
    let less = trim_loop-Less w'.nshares w' valid in
    let counts = counts-push_row w s identity v fits' in
    elim (Bool-cases (difficulty == 0)) [
      | inl refused ↦ rw refused (v, have, omega arith, omega arith)
      | inr some_work ↦
          rw (some_work, loops)
            (
              trim_loop-IsValid w'.nshares w' valid,
              less.0 ∙ has,
              omega (arith, less.1, length-push_row w s identity),
              omega (arith, less.2, counts.1, made_room-le w v),
            )
    ]

-- From a valid state in which the table is right, and with a window set, any run of shares leaves the table
-- right: every identity has exactly the work of its rows among those in the window. The identities have at
-- most 127 characters, the table's rows and the shares are together at most 4096, and the total with all the
-- shares fits in a uint64_t.
pub record_all-IsTallied :
    (w : Window) (rows : List ShareRow)
    → IsValid w
    → IsTallied w
    → w.have_window ≡ true
    → All (λ (s : ShareRow). length s.identity < max_identity) rows
    → length w.idents + length rows ≤ max_idents
    → w.total_work + sum_difficulty rows < 2 ^ 64
    → IsTallied (record_all w rows)
record_all-IsTallied w [] v t have short room fits = t
record_all-IsTallied w (s ∷ rows) v t have short room fits =
    let (valid, has, more, total) =
      recorded_lem w s.at s.identity s.difficulty s.hash s.tag v have (omega arith) in
    record_all-IsTallied (record_share w s.at s.identity s.difficulty s.hash s.tag).1 rows valid
      (record_share-IsTallied w s.at s.identity s.difficulty s.hash s.tag v t have short.0
        (omega arith) (omega arith))
      has short.1 (omega (arith, more)) (omega (arith, total))
