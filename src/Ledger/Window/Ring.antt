-- ===== src/Ledger/Window/Ring.antt =====
-- The shares of a window as a queue: what is dropped is its first, what is recorded its last.
use c_datum_prime.Common.{
  ℕ, zero, suc, ◌+◌, ◌-◌, ◌%◌, ◌^◌, ◌≤◌, ◌<◌, ◌≡◌, ◌≢◌, refl, ap, ◌∙◌, inl, inr,
}
use c_datum_prime.Common.{false, ◌==◌, if◌then◌else◌, Bool-cases}
use c_datum_prime.Common.{List, [], ◌∷◌, ◌++◌, length}
use c_datum_prime.Common.{arith, add-zero}
use c_datum_prime.Wire.{u64}
use c_datum_prime.Ledger.Types.{Text, ShareRow, sub_floor}
use c_datum_prime.Ledger.Window.{max_shares, Window, set_row, oldest, drop_oldest, push_row}

-- The `n` rows from an index on, around the end of the array.
unfoldable pub rows_from : ℕ → ℕ → (ℕ → ShareRow) → List ShareRow
rows_from zero at shares = []
rows_from (suc n) at shares = shares (at % max_shares) ∷ rows_from n (at + 1) shares

abbrev pub queue : Window → List ShareRow
queue w = rows_from w.nshares w.share_head w.shares

abbrev pub sum_difficulty : List ShareRow → ℕ
sum_difficulty [] = 0
sum_difficulty (s ∷ rows) = s.difficulty + sum_difficulty rows

-- Indices inside the array, and the total is that of the rows.
pub record IsValid (w : Window) : Type 0 where
  pub count : w.nshares ≤ max_shares
  pub head : w.share_head < max_shares
  pub total : w.total_work ≡ sum_difficulty (queue w)
  pub range : w.total_work < 2 ^ 64

rows_from-mod :
    (n p q : ℕ) (shares : ℕ → ShareRow)
    → p % max_shares ≡ q % max_shares
    → rows_from n p shares ≡ rows_from n q shares
unfolding rows_from
rows_from-mod zero p q shares h = refl
rows_from-mod (suc n) p q shares h =
    rw (h, rows_from-mod n (p + 1) (q + 1) shares (omega arith)) refl

rows_from-suc :
    (n p : ℕ) (shares : ℕ → ShareRow)
    → rows_from (suc n) p shares ≡ rows_from n p shares ++ (shares ((p + n) % max_shares) ∷ [])
unfolding rows_from
rows_from-suc zero p shares = rw (add-zero p) refl
rows_from-suc (suc n) p shares =
    let shift : p + 1 + n ≡ p + suc n = omega arith in
    ap (λ (t : List ShareRow). shares (p % max_shares) ∷ t)
      (rows_from-suc n (p + 1) shares ∙ rw shift refl)

rows_from-set_row :
    (n p at : ℕ) (shares : ℕ → ShareRow) (s : ShareRow)
    → ((i : ℕ) → i < n → (p + i) % max_shares ≢ at)
    → rows_from n p (set_row shares at s) ≡ rows_from n p shares
unfolding rows_from set_row
rows_from-set_row zero p at shares s h = refl
rows_from-set_row (suc n) p at shares s h =
    let other : (p % max_shares == at) ≡ false = ground (arith, h 0 (omega arith)) in
    rw
      (
        other,
        rows_from-set_row n (p + 1) at shares s (λ i lt e. h (suc i) (omega arith) (omega arith)),
      )
      refl

pub length-rows_from : (n p : ℕ) (shares : ℕ → ShareRow) → length (rows_from n p shares) ≡ n
unfolding rows_from
length-rows_from zero p shares = refl
length-rows_from (suc n) p shares = omega (arith, length-rows_from n (p + 1) shares)

rows_from_cons :
    (n p : ℕ) (shares : ℕ → ShareRow)
    → p < max_shares
    → 0 < n
    → rows_from n p shares ≡ shares p ∷ rows_from (n - 1) ((p + 1) % max_shares) shares
unfolding rows_from
rows_from_cons zero p shares h some_row = absurd (omega arith)
rows_from_cons (suc n) p shares h some_row =
    let inside : p % max_shares ≡ p = omega arith in
    let less : suc n - 1 ≡ n = omega arith in
    rw (inside, less, rows_from-mod n (p + 1) ((p + 1) % max_shares) shares (omega arith)) refl

some_share : (w : Window) → 0 < w.nshares → (w.nshares == 0) ≡ false
some_share w h = ground arith

-- The oldest row is the first of the queue.
pub queue_cons :
    (w : Window)
    → w.share_head < max_shares
    → 0 < w.nshares
    → queue w ≡ oldest w ∷ queue (drop_oldest w)
unfolding drop_oldest
queue_cons w hd more =
    rw (some_share w more) (rows_from_cons w.nshares w.share_head w.shares hd more)

total_field :
    (w : Window)
    → 0 < w.nshares
    → (drop_oldest w).total_work ≡ sub_floor w.total_work (oldest w).difficulty
unfolding drop_oldest
total_field w more = rw (some_share w more) refl

-- What is dropped is taken off the total.
pub total-drop_oldest :
    (w : Window)
    → IsValid w
    → 0 < w.nshares
    → w.total_work ≡ (oldest w).difficulty + (drop_oldest w).total_work
      × (drop_oldest w).total_work ≡ sum_difficulty (queue (drop_oldest w))
total-drop_oldest w v more =
    let whole = v.total ∙ ap (λ (t : List ShareRow). sum_difficulty t) (queue_cons w v.head more) in
    ground (arith, whole, total_field w more)

fields-drop_oldest :
    (w : Window)
    → w.share_head < max_shares
    → ((drop_oldest w).nshares ≡ w.nshares - 1) × ((drop_oldest w).share_head < max_shares)
unfolding drop_oldest
fields-drop_oldest w h = ground arith

pub nshares-drop_oldest : (w : Window) → (drop_oldest w).nshares ≡ w.nshares - 1
unfolding drop_oldest
nshares-drop_oldest w = ground arith

pub drop_oldest-IsValid : (w : Window) → IsValid w → 0 < w.nshares → IsValid (drop_oldest w)
drop_oldest-IsValid w v more =
    let (count, head) = fields-drop_oldest w v.head in
    let (less, total) = total-drop_oldest w v more in
    record {
      count = omega (arith, v.count);
      head = head;
      total = total;
      range = omega (arith, v.range);
    }

-- A row that is put behind the newest is the last of the queue.
pub queue-push_row :
    (w : Window) (s : ShareRow) (identity : Text)
    → w.nshares < max_shares
    → queue (push_row w s identity) ≡ queue w ++ (s ∷ [])
unfolding push_row set_row
queue-push_row w s identity room =
    let not_full : (w.nshares == max_shares) ≡ false = ground arith in
    let at : ℕ = (w.share_head + w.nshares) % max_shares in
    let last : set_row w.shares at s at ≡ s = ground arith in
    let more : w.nshares + 1 ≡ suc w.nshares = omega arith in
    rw (not_full, more)
      (rows_from-suc w.nshares w.share_head (set_row w.shares at s)
        ∙ rw (last, rows_from-set_row w.nshares w.share_head at w.shares s (λ i lt e. omega arith))
            refl)

-- Room is made first when the array is full.
abbrev pub made_room : Window → Window
made_room w = if w.nshares == max_shares then drop_oldest w else w

pub made_room-IsValid :
    (w : Window) → IsValid w → IsValid (made_room w) × ((made_room w).nshares < max_shares)
made_room-IsValid w v = elim (Bool-cases (w.nshares == max_shares)) [
  | inl full ↦
      let more : 0 < w.nshares = ground arith in
      rw full (drop_oldest-IsValid w v more, omega (arith, v.count, nshares-drop_oldest w))
  | inr room ↦ rw room (v, ground (arith, v.count))
]

push_row-made_room :
    (w : Window) (s : ShareRow) (identity : Text)
    → (made_room w).nshares < max_shares
    → push_row w s identity ≡ push_row (made_room w) s identity
unfolding push_row
push_row-made_room w s identity room =
    let not_full : ((made_room w).nshares == max_shares) ≡ false = ground arith in rw not_full refl

sum_difficulty-append :
    (xs ys : List ShareRow) → sum_difficulty (xs ++ ys) ≡ sum_difficulty xs + sum_difficulty ys
sum_difficulty-append [] ys = omega arith
sum_difficulty-append (x ∷ xs) ys = omega (arith, sum_difficulty-append xs ys)

fields-push_row :
    (w : Window) (s : ShareRow) (identity : Text)
    → w.nshares < max_shares
    → ((push_row w s identity).nshares ≡ w.nshares + 1)
      × ((push_row w s identity).share_head ≡ w.share_head)
      × ((push_row w s identity).total_work ≡ u64 (w.total_work + s.difficulty))
unfolding push_row
fields-push_row w s identity room =
    let not_full : (w.nshares == max_shares) ≡ false = ground arith in
    rw not_full (refl, refl, refl)

-- A row goes in where there is room, and the total counts it.
push_room-IsValid :
    (w : Window) (s : ShareRow) (identity : Text)
    → IsValid w
    → w.nshares < max_shares
    → w.total_work + s.difficulty < 2 ^ 64
    → IsValid (push_row w s identity)
push_room-IsValid w s identity v room fits =
    let (count, head, total) = fields-push_row w s identity room in
    let rows = ap (λ (t : List ShareRow). sum_difficulty t) (queue-push_row w s identity room) in
    record {
      count = omega arith;
      head = omega (arith, v.head);
      total = omega (arith, rows, sum_difficulty-append (queue w) (s ∷ []), v.total);
      range = omega arith;
    }

pub made_room-le : (w : Window) → IsValid w → (made_room w).total_work ≤ w.total_work
made_room-le w v = elim (Bool-cases (w.nshares == max_shares)) [
  | inl full ↦
      let more : 0 < w.nshares = ground arith in
      rw full (omega (arith, (total-drop_oldest w v more).0))
  | inr room ↦ rw room (omega arith)
]

-- A row is recorded behind the newest; only when the array is full does the oldest row make room.
pub push_row_lem :
    (w : Window) (s : ShareRow) (identity : Text)
    → IsValid w
    → w.total_work + s.difficulty < 2 ^ 64
    → IsValid (push_row w s identity)
      × (queue (push_row w s identity) ≡ queue (made_room w) ++ (s ∷ []))
push_row_lem w s identity v fits =
    let (valid, room) = made_room-IsValid w v in
    rw (push_row-made_room w s identity room) (
      push_room-IsValid (made_room w) s identity valid room (omega (arith, made_room-le w v)),
      queue-push_row (made_room w) s identity room,
    )

pub counts-push_row :
    (w : Window) (s : ShareRow) (identity : Text)
    → IsValid w
    → w.total_work + s.difficulty < 2 ^ 64
    → ((push_row w s identity).nshares ≡ (made_room w).nshares + 1)
      × ((push_row w s identity).total_work ≡ (made_room w).total_work + s.difficulty)
counts-push_row w s identity v fits =
    let (valid, room) = made_room-IsValid w v in
    let (count, head, total) = fields-push_row (made_room w) s identity room in
    rw (push_row-made_room w s identity room) (count, omega (arith, total, made_room-le w v))
