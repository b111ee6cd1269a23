-- ===== src/Ledger/Owed/Record.antt =====
-- What a find that is recorded owes.
use c_datum_prime.Common.{ℕ, zero, suc, ◌+◌, ◌≤◌, ◌<◌, ◌≡◌, refl, ap, ◌∙◌, inl, inr}
use c_datum_prime.Common.{false, ◌||◌, ◌==◌, ltb, if◌then◌else◌, Bool-cases}
use c_datum_prime.Common.{List, [], ◌∷◌, ◌++◌, map, length, take, drop}
use c_datum_prime.Common.{length-append, length-drop, arith}
use c_datum_prime.Ledger.Types.{Text, IdentWork, copy_text, max_identity}
use c_datum_prime.Ledger.Split.{Payout}
use c_datum_prime.Ledger.Split.Pay.{sum_paid}
use c_datum_prime.Ledger.Empty.{Terms, done}
use c_datum_prime.Ledger.Owed.{
  max_owed, max_owed_ents, Entry, Owed, has_owed, entry_for, has_entry, add_workers, owed_row,
  record_owed,
}

-- What the entries of a find owe together.
abbrev pub sum_owed : List Entry → ℕ
sum_owed [] = 0
sum_owed (e ∷ ents) = e.amount + sum_owed ents

sum_owed-append : (xs ys : List Entry) → sum_owed (xs ++ ys) ≡ sum_owed xs + sum_owed ys
sum_owed-append [] ys = omega arith
sum_owed-append (x ∷ xs) ys = omega (arith, sum_owed-append xs ys)

amount-entry_for : (idents : List IdentWork) (p : Payout) → (entry_for idents p).amount ≡ p.amount
unfolding entry_for
amount-entry_for [] p = refl
amount-entry_for (r ∷ idents) p = ground (arith, amount-entry_for idents p)

sum_owed-entries :
    (idents : List IdentWork) (payouts : List Payout)
    → sum_owed (map (λ (p : Payout). entry_for idents p) payouts) ≡ sum_paid payouts
sum_owed-entries idents [] = refl
sum_owed-entries idents (p ∷ payouts) =
    omega (arith, amount-entry_for idents p, sum_owed-entries idents payouts)

-- Identities that are only listed are owed nothing, and there is room for them.
add_workers_lem :
    (ents : List Entry) (idents : List IdentWork)
    → length ents ≤ max_owed_ents
    → (sum_owed (add_workers ents idents) ≡ sum_owed ents)
      × (length (add_workers ents idents) ≤ max_owed_ents)
unfolding add_workers
add_workers_lem ents [] h = (refl, h)
add_workers_lem ents (r ∷ idents) h = elim (Bool-cases (ltb (length ents) max_owed_ents)) [
  | inl room ↦ elim (Bool-cases (r.work == 0 || has_entry ents r.identity)) [
    | inl skip ↦ rw (room, skip) (add_workers_lem ents idents h)
    | inr new ↦
        let e : Entry = record {
          identity = copy_text max_identity r.identity;
          amount = 0;
          work = r.work;
          public_work = r.public_work;
        } in
        let (sum, size) =
          add_workers_lem (ents ++ (e ∷ [])) idents (ground (arith, length-append ents (e ∷ []))) in
        rw (room, new) (omega (arith, sum, sum_owed-append ents (e ∷ [])), size)
  ]
  | inr full ↦ rw full (refl, h)
]

length-map {ℓ κ} :
    {A : Type ℓ} {B : Type κ} (f : A → B) (xs : List A) → length (map f xs) ≡ length xs
length-map f [] = refl
length-map f (x ∷ xs) = ap suc (length-map f xs)

take_within : (n : ℕ) (ps : List Payout) → length ps ≤ n → take n ps ≡ ps
take_within zero [] h = refl
take_within zero (p ∷ ps) h = absurd (omega arith)
take_within (suc n) [] h = refl
take_within (suc n) (p ∷ ps) h = ap (λ (t : List Payout). p ∷ t) (take_within n ps (omega arith))

kept_within :
    (owed : List Owed) (row : Owed)
    → length owed ≤ max_owed
    → length ((if length owed == max_owed then drop 1 owed else owed) ++ (row ∷ [])) ≤ max_owed
kept_within owed row size = elim (Bool-cases (length owed == max_owed)) [
  | inl full ↦ rw full (ground (arith, length-append (drop 1 owed) (row ∷ []), length-drop 1 owed))
  | inr room ↦ rw room (ground (arith, length-append owed (row ∷ [])))
]

-- A find with 1 to 128 payouts that is not in the book goes behind the rows, of which the oldest makes
-- room when there are 256; its entries owe together exactly what the payouts are together, and there
-- are at most 128.
pub record_owed_lem :
    (t : Terms) (owed : List Owed) (height : ℕ) (hash : List ℕ) (finder : Text) (total : ℕ)
    (payouts : List Payout)
    → 0 < length payouts
    → length payouts ≤ max_owed_ents
    → has_owed owed hash ≡ false
    → length owed ≤ max_owed
    → let row = owed_row t height hash finder total payouts in
      (record_owed t owed height hash finder total payouts
        ≡ (done, (if length owed == max_owed then drop 1 owed else owed) ++ (row ∷ [])))
      × (sum_owed row.ents ≡ sum_paid payouts)
      × (length row.ents ≤ max_owed_ents)
      × (length (record_owed t owed height hash finder total payouts).1 ≤ max_owed)
unfolding record_owed owed_row
record_owed_lem t owed height hash finder total payouts some_paid few missing size =
    let paid : (length payouts == 0) ≡ false = ground arith in
    let start = map (λ (p : Payout). entry_for t.idents p) payouts in
    let (sum, most) =
      add_workers_lem start t.idents
        (omega (arith, length-map (λ (p : Payout). entry_for t.idents p) payouts)) in
    rw (paid, missing, take_within max_owed_ents payouts few)
      (refl, sum ∙ sum_owed-entries t.idents payouts, most, kept_within owed _ size)
