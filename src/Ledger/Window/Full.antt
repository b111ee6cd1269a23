-- ===== src/Ledger/Window/Full.antt =====
-- A full table of work by identity: its rows stay when their work is gone.
use c_datum_prime.Common.{ℕ, zero, suc, ◌+◌, ◌≤◌, ◌≡◌, ◌≢◌, refl, ◌∙◌, inl, inr}
use c_datum_prime.Common.{Bool, true, false, ◌||◌, ◌==◌, if◌then◌else◌, Bool-cases}
use c_datum_prime.Common.{List, [], ◌∷◌, length}
use c_datum_prime.Common.{arith}
use c_datum_prime.Wire.{bytes_eq}
use c_datum_prime.Ledger.Types.{
  Text, ShareRow, IdentWork, max_idents, row_sub, ident_add, ident_add_from, ident_sub,
  share_tag_is_sv1,
}
use c_datum_prime.Ledger.Window.{
  max_shares, Window, oldest, drop_oldest, push_row, trim, trim_loop, shrink_loop, record_share,
  share_row,
}
use c_datum_prime.Ledger.Window.Ring.{made_room}

unfoldable pub is_tabled : List IdentWork → Text → Bool
is_tabled [] name = false
is_tabled (r ∷ idents) name = bytes_eq r.identity name || is_tabled idents name

-- The table is full and has no row for the name.
pub record IsShut (name : Text) (idents : List IdentWork) : Type 0 where
  pub full : max_idents ≤ length idents
  pub missing : is_tabled idents name ≡ false

ident_sub-IsShut :
    (name : Text) (idents : List IdentWork) (identity : Text) (diff : ℕ) (is_public : Bool)
    → (length (ident_sub idents identity diff is_public) ≡ length idents)
      × (is_tabled (ident_sub idents identity diff is_public) name ≡ is_tabled idents name)
unfolding ident_sub row_sub is_tabled
ident_sub-IsShut name [] identity diff is_public = (refl, refl)
ident_sub-IsShut name (r ∷ idents) identity diff is_public =
    ground (arith, ident_sub-IsShut name idents identity diff is_public)

ident_add_from-same :
    (above : ℕ) (idents : List IdentWork) (identity : Text) (diff : ℕ) (is_public : Bool)
    → max_idents ≤ above + length idents
    → is_tabled idents identity ≡ false
    → ident_add_from above idents identity diff is_public ≡ idents
unfolding ident_add_from is_tabled
ident_add_from-same above [] identity diff is_public full missing = ground arith
ident_add_from-same above (r ∷ idents) identity diff is_public full missing =
    ground (arith, ident_add_from-same (above + 1) idents identity diff is_public)

drop_oldest-IsShut :
    (name : Text) (w : Window) → IsShut name w.idents → IsShut name (drop_oldest w).idents
unfolding drop_oldest
drop_oldest-IsShut name w h = elim (Bool-cases (w.nshares == 0)) [
  | inl none_left ↦ rw none_left h
  | inr more ↦
      let s = oldest w in
      let (size, same) =
        ident_sub-IsShut name w.idents s.identity s.difficulty (share_tag_is_sv1 s.tag) in
      rw more (record { full = omega (arith, h.full, size); missing = same ∙ h.missing })
]

trim_loop-IsShut :
    (name : Text) (rounds : ℕ) (w : Window)
    → IsShut name w.idents
    → IsShut name (trim_loop rounds w).idents
unfolding trim_loop
trim_loop-IsShut name zero w h = h
trim_loop-IsShut name (suc rounds) w h =
    ground (arith, trim_loop-IsShut name rounds (drop_oldest w) (drop_oldest-IsShut name w h))

shrink_loop-IsShut :
    (name : Text) (rounds : ℕ) (w : Window)
    → IsShut name w.idents
    → IsShut name (shrink_loop rounds w).idents
unfolding shrink_loop
shrink_loop-IsShut name zero w h = h
shrink_loop-IsShut name (suc rounds) w h =
    ground (arith, shrink_loop-IsShut name rounds (drop_oldest w) (drop_oldest-IsShut name w h))

trim-IsShut : (name : Text) (w : Window) → IsShut name w.idents → IsShut name (trim w).idents
unfolding trim
trim-IsShut name w h = shrink_loop-IsShut name _ _ (loop w.have_window)
  where
    loop : (have : Bool) → IsShut name (if have then trim_loop w.nshares w else w).idents
    loop true = trim_loop-IsShut name w.nshares w h
    loop false = h

made_room-IsShut :
    (name : Text) (w : Window) → IsShut name w.idents → IsShut name (made_room w).idents
made_room-IsShut name w h = elim (Bool-cases (w.nshares == max_shares)) [
  | inl full ↦ rw full (drop_oldest-IsShut name w h)
  | inr room ↦ rw room h
]

push_row-IsShut :
    (w : Window) (s : ShareRow) (identity : Text)
    → IsShut identity w.idents
    → IsShut identity (push_row w s identity).idents
unfolding push_row ident_add
push_row-IsShut w s identity h =
    let m = made_room-IsShut identity w h in
    rw
      (ident_add_from-same 0 (made_room w).idents identity s.difficulty (share_tag_is_sv1 s.tag)
        (omega (arith, m.full)) m.missing)
      m

-- Once the table of work by identity has its 4096 rows, whatever work these have, a share of any other
-- identity, of a difficulty that is not 0, is accepted, but its identity gets no row in the table from
-- which the split is made.
pub record_share-IsShut :
    (w : Window) (now : ℕ) (identity : Text) (difficulty : ℕ) (hash : List ℕ) (tag : Text)
    → IsShut identity w.idents
    → difficulty ≢ 0
    → ((record_share w now identity difficulty hash tag).0 ≡ true)
      × IsShut identity (record_share w now identity difficulty hash tag).1.idents
unfolding record_share
record_share-IsShut w now identity difficulty hash tag h ne =
    let some_work : (difficulty == 0) ≡ false = ground arith in
    let s = share_row now identity difficulty hash tag in
    rw some_work
      (refl, trim-IsShut identity (push_row w s identity) (push_row-IsShut w s identity h))
