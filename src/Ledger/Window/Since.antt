-- ===== src/Ledger/Window/Since.antt =====
-- The work since a time (src/ledger.c: `prime_pool_work_since`).
use c_datum_prime.Common.{ℕ, zero, suc, ◌+◌, ◌%◌, ◌^◌, ◌<◌, ◌≤◌, ◌≡◌, refl, ◌∙◌}
use c_datum_prime.Common.{◌||◌, ◌==◌, ltb, if◌then◌else◌}
use c_datum_prime.Common.{List, [], ◌∷◌, length}
use c_datum_prime.Common.{arith}
use c_datum_prime.Wire.{u64}
use c_datum_prime.Ledger.Types.{ShareRow, share_tag_is_sv1}
use c_datum_prime.Ledger.Window.{max_shares, Window}
use c_datum_prime.Ledger.Window.Ring.{rows_from, queue, sum_difficulty, IsValid, length-rows_from}

-- What `prime_pool_work_since` writes through its pointers.
pub record Since : Type 0 where
  pub total : ℕ
  pub sv1 : ℕ
  pub oldest_at : ℕ
  pub count : ℕ

-- The body of the loop.
unfoldable pub count_row : ℕ → Since → ShareRow → Since
count_row cutoff c s = if ltb s.at cutoff then c else record {
  total = u64 (c.total + s.difficulty);
  sv1 = if share_tag_is_sv1 s.tag then u64 (c.sv1 + s.difficulty) else c.sv1;
  oldest_at = if c.oldest_at == 0 || ltb s.at c.oldest_at then s.at else c.oldest_at;
  count = u64 (c.count + 1);
}

-- The rounds left, and `si`.
unfoldable pub since_loop : ℕ → ℕ → Window → ℕ → Since → Since
since_loop zero si w cutoff c = c
since_loop (suc rounds) si w cutoff c =
    since_loop rounds (si + 1) w cutoff
      (count_row cutoff c (w.shares ((w.share_head + si) % max_shares)))

unfoldable pub work_since : Window → ℕ → Since
work_since w cutoff =
    since_loop w.nshares 0 w cutoff (record { total = 0; sv1 = 0; oldest_at = 0; count = 0 })

-- The rows of a time or later, and those of the public gateway.
abbrev pub recent : ℕ → List ShareRow → List ShareRow
recent cutoff [] = []
recent cutoff (s ∷ rows) = if ltb s.at cutoff then recent cutoff rows else s ∷ recent cutoff rows

abbrev pub public : List ShareRow → List ShareRow
public [] = []
public (s ∷ rows) = if share_tag_is_sv1 s.tag then s ∷ public rows else public rows

count_rows : ℕ → Since → List ShareRow → Since
count_rows cutoff c [] = c
count_rows cutoff c (s ∷ rows) = count_rows cutoff (count_row cutoff c s) rows

since_loop-rows_from :
    (n si : ℕ) (w : Window) (cutoff : ℕ) (c : Since)
    → since_loop n si w cutoff c ≡ count_rows cutoff c (rows_from n (w.share_head + si) w.shares)
unfolding since_loop rows_from count_rows
since_loop-rows_from zero si w cutoff c = refl
since_loop-rows_from (suc n) si w cutoff c =
    let shift : w.share_head + (si + 1) ≡ w.share_head + si + 1 = omega arith in
    let next = count_row cutoff c (w.shares ((w.share_head + si) % max_shares)) in
    since_loop-rows_from n (si + 1) w cutoff next ∙ rw shift refl

-- What was counted, and the rows still to come.
Counts : ℕ → Since → List ShareRow → Since → Type 0
Counts cutoff c rows d =
    (d.total ≡ c.total + sum_difficulty (recent cutoff rows))
    × (d.sv1 ≡ c.sv1 + sum_difficulty (public (recent cutoff rows)))
    × (d.count ≡ c.count + length (recent cutoff rows))

count_row_lem :
    (cutoff : ℕ) (s : ShareRow) (c : Since)
    → c.total + s.difficulty < 2 ^ 64
    → c.sv1 + s.difficulty < 2 ^ 64
    → c.count + 1 < 2 ^ 64
    → Counts cutoff c (s ∷ []) (count_row cutoff c s)
unfolding Counts count_row
count_row_lem cutoff s c t p n = (ground arith, ground arith, ground arith)

recent_cons :
    (cutoff : ℕ) (s : ShareRow) (rows : List ShareRow)
    → (sum_difficulty (recent cutoff (s ∷ rows))
        ≡ sum_difficulty (recent cutoff (s ∷ [])) + sum_difficulty (recent cutoff rows))
      × (sum_difficulty (public (recent cutoff (s ∷ rows)))
          ≡ sum_difficulty (public (recent cutoff (s ∷ [])))
            + sum_difficulty (public (recent cutoff rows)))
      × (length (recent cutoff (s ∷ rows))
          ≡ length (recent cutoff (s ∷ [])) + length (recent cutoff rows))
recent_cons cutoff s rows = (ground arith, ground arith, ground arith)

recent_le :
    (cutoff : ℕ) (s : ShareRow)
    → (sum_difficulty (recent cutoff (s ∷ [])) ≤ s.difficulty)
      × (sum_difficulty (public (recent cutoff (s ∷ []))) ≤ s.difficulty)
      × (length (recent cutoff (s ∷ [])) ≤ 1)
recent_le cutoff s = (ground arith, ground arith, ground arith)

count_rows_lem :
    (cutoff : ℕ) (rows : List ShareRow) (c : Since)
    → c.total + sum_difficulty rows < 2 ^ 64
    → c.sv1 + sum_difficulty rows < 2 ^ 64
    → c.count + length rows < 2 ^ 64
    → Counts cutoff c rows (count_rows cutoff c rows)
unfolding Counts count_rows
count_rows_lem cutoff [] c t p n = (omega arith, omega arith, omega arith)
count_rows_lem cutoff (s ∷ rows) c t p n =
    let first = count_row_lem cutoff s c (omega arith) (omega arith) (omega arith) in
    let le = recent_le cutoff s in
    let cons = recent_cons cutoff s rows in
    let rest =
      count_rows_lem cutoff rows (count_row cutoff c s) (omega (arith, first.0, le.0))
        (omega (arith, first.1, le.1)) (omega (arith, first.2, le.2)) in
    (
      omega (arith, first.0, cons.0, rest.0),
      omega (arith, first.1, cons.1, rest.1),
      omega (arith, first.2, cons.2, rest.2),
    )

-- What is counted since a time is the work of the rows of that time or later, that of those which the
-- public gateway's miners found, and the number of these rows.
pub work_since_lem :
    (w : Window) (cutoff : ℕ)
    → IsValid w
    → let c = work_since w cutoff in
      (c.total ≡ sum_difficulty (recent cutoff (queue w)))
      × (c.sv1 ≡ sum_difficulty (public (recent cutoff (queue w))))
      × (c.count ≡ length (recent cutoff (queue w)))
unfolding work_since Counts
work_since_lem w cutoff v =
    let none_yet : Since = record { total = 0; sv1 = 0; oldest_at = 0; count = 0 } in
    let rows = since_loop-rows_from w.nshares 0 w cutoff none_yet in
    let here : w.share_head + 0 ≡ w.share_head = omega arith in
    let size = length-rows_from w.nshares w.share_head w.shares in
    let counts =
      count_rows_lem cutoff (queue w) none_yet (omega (arith, v.total, v.range))
        (omega (arith, v.total, v.range)) (omega (arith, size, v.count)) in
    rw (rows, here) (omega (arith, counts.0), omega (arith, counts.1), omega (arith, counts.2))
