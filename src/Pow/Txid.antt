-- ===== src/Pow/Txid.antt =====
-- The id of a transaction without witnesses is the hash of all its bytes.
use c_datum_prime.Common.{ℕ, zero, suc, ◌+◌, ◌-◌, ◌^◌, ◌≤◌, ◌<◌, ◌≡◌, refl, ap, ◌∙◌, inl, inr}
use c_datum_prime.Common.{
  Bool, true, false, ◌&&◌, ◌==◌, ltb, if◌then◌else◌, Bool-cases, Option-cases, Option, none, some,
}
use c_datum_prime.Common.{List, [], ◌∷◌, length, take, drop}
use c_datum_prime.Common.{length-drop, take-append-drop, arith, zero-add, suc-add}
use c_datum_prime.Wire.{u64, byte_at}
use c_datum_prime.Pow.{Layout, rd_compact, skip_fields, tx_layout, stripped, txid, sha256d}

abbrev Holds : (Layout → Type 0) → Option Layout → Type 0
Holds P none = Unit
Holds P (some l) = P l

-- A transaction that is not marked as one with witnesses.
abbrev pub has_marker : List ℕ → Bool
has_marker tx = byte_at tx 4 == 0 && byte_at tx 5 == 1

abbrev IsWhole : List ℕ → Layout → Type 0
IsWhole tx l =
    (l.body_start ≡ 4)
    × (l.body_end ≡ l.lock_start)
    × (l.lock_start + 4 ≡ length tx)
    × (10 ≤ length tx)

end-IsWhole :
    (tx : List ℕ) (body_end : ℕ)
    → ltb (length tx) 10 ≡ false
    → Holds
        (λ l. IsWhole tx l)
        (if body_end + 4 == length tx
          then some (record { body_start = 4; body_end = body_end; lock_start = body_end })
          else none)
end-IsWhole tx body_end long = elim (Bool-cases (body_end + 4 == length tx)) [
  | inl whole ↦ rw whole (refl, refl, ground arith, ground arith)
  | inr rest ↦ rw rest tt
]

tx_layout-IsWhole : (tx : List ℕ) → has_marker tx ≡ false → Holds (λ l. IsWhole tx l) (tx_layout tx)
unfolding tx_layout
tx_layout-IsWhole tx legacy = elim (Bool-cases (ltb (length tx) 10)) [
  | inl short ↦ rw (legacy, short) tt
  | inr long ↦ elim (Option-cases (rd_compact tx 4)) [
    | inl e ↦ rw (legacy, long, e) tt
    | inr (inputs, e) ↦ elim (Bool-cases (inputs.0 == 0)) [
      | inl none_there ↦ rw (legacy, long, e, none_there) tt
      | inr some_there ↦ elim (Option-cases (skip_fields inputs.0 36 4 tx inputs.1)) [
        | inl bad ↦ rw (legacy, long, e, some_there, bad) tt
        | inr (at, after_inputs) ↦ elim (Option-cases (rd_compact tx at)) [
          | inl bad ↦ rw (legacy, long, e, some_there, after_inputs, bad) tt
          | inr (outputs, e') ↦ elim (Option-cases (skip_fields outputs.0 8 0 tx outputs.1)) [
            | inl bad ↦ rw (legacy, long, e, some_there, after_inputs, e', bad) tt
            | inr (body_end, after_outputs) ↦
                rw (legacy, long, e, some_there, after_inputs, e', after_outputs)
                  (end-IsWhole tx body_end long)
          ]
        ]
      ]
    ]
  ]
]

drop-drop : (m n : ℕ) (xs : List ℕ) → drop m (drop n xs) ≡ drop (n + m) xs
drop-drop m zero xs = rw (zero-add m) refl
drop-drop zero (suc n) [] = rw (suc-add n 0) refl
drop-drop (suc m) (suc n) [] = rw (suc-add n (suc m)) refl
drop-drop m (suc n) (x ∷ xs) = rw (suc-add n m) (drop-drop m n xs)

take_whole : (n : ℕ) (xs : List ℕ) → length xs ≤ n → take n xs ≡ xs
take_whole zero [] h = refl
take_whole zero (x ∷ xs) h = absurd (omega arith)
take_whole (suc n) [] h = refl
take_whole (suc n) (x ∷ xs) h = ap (λ (t : List ℕ). x ∷ t) (take_whole n xs (omega arith))

module _ (sha256 : List ℕ → List ℕ) (gets : ℕ → Bool) where
  stripped-IsWhole : (tx : List ℕ) (l : Layout) → IsWhole tx l → stripped sha256 gets tx l ≡ tx
  unfolding stripped
  stripped-IsWhole tx l (start, same, whole, long) =
      let e : ℕ = l.lock_start in
      let back : 4 + (e - 4) ≡ e = omega arith in
      let tail : drop (e - 4) (drop 4 tx) ≡ drop e tx =
        drop-drop (e - 4) 4 tx ∙ ap (λ (n : ℕ). drop n tx) back in
      let last : take 4 (drop e tx) ≡ drop e tx =
        take_whole 4 (drop e tx) (omega (arith, length-drop e tx)) in
      let middle = take-append-drop (e - 4) (drop 4 tx) in
      rw (start, same, last, ← tail, middle) (take-append-drop 4 tx)

  -- Where a transaction of less than 2 ^ 64 bytes is not marked as one with witnesses and is parsed, and
  -- memory can be had, its id is the double hash of all its bytes.
  pub txid-sha256d :
      (tx : List ℕ) (l : Layout)
      → has_marker tx ≡ false
      → tx_layout tx ≡ some l
      → length tx < 2 ^ 64
      → gets (length tx) ≡ true
      → txid sha256 gets tx ≡ some (sha256d sha256 gets tx)
  unfolding txid
  txid-sha256d tx l legacy parsed small memory =
      let (start, same, whole, long) : IsWhole tx l = rw parsed at (tx_layout-IsWhole tx legacy) in
      let size : u64 (4 + (2 ^ 64 + l.body_end - l.body_start) + 4) ≡ length tx = omega arith in
      rw (parsed, size, memory, stripped-IsWhole tx l (start, same, whole, long), txid) refl
