-- ===== src/Mining/Search.antt =====
-- The search for a script in a coinbase, and what the check of a split rejects.
use c_datum_prime.Common.{ℕ, ◌+◌, ◌-◌, ◌≤◌, ◌<◌, ◌≡◌, ◌≢◌, refl, sym, ap, ◌∙◌, ◌↔◌, ◌⊎◌, inl, inr}
use c_datum_prime.Common.{
  Bool, true, false, not, ◌&&◌, ◌||◌, ◌==◌, ltb, leb, Bool-cases, Option-cases, Option, none, some,
}
use c_datum_prime.Common.{List, [], ◌∷◌, ◌++◌, length, All}
use c_datum_prime.Common.{length-append, arith}
use c_datum_prime.Mining.{
  Mining, Output, SplitRec, starts_with, find_loop, find_bytes, has_some_script, split_of,
  require_split_rejected, split_grace_secs,
}

-- The bytes stand somewhere in the other ones.
pub record Within (n h : List ℕ) : Type 0 where
  pub before : List ℕ
  pub after : List ℕ
  pub whole : h ≡ before ++ (n ++ after)

starts_with_sound : (h n : List ℕ) → starts_with h n ≡ true → (after : List ℕ) × (h ≡ n ++ after)
unfolding starts_with
starts_with_sound h [] e = (h, refl)
starts_with_sound [] (x ∷ n) e = absurd (ground arith)
starts_with_sound (y ∷ h) (x ∷ n) e = elim (Bool-cases (y == x)) [
  | inl same ↦
      let rest : starts_with h n ≡ true = ground arith in
      let (after, whole) = starts_with_sound h n rest in
      let eq : y ≡ x = ground arith in
      (after, ap (λ (t : List ℕ). y ∷ t) whole ∙ ap (λ (z : ℕ). z ∷ (n ++ after)) eq)
  | inr other ↦ absurd (ground arith)
]

starts_with-append : (n after : List ℕ) → starts_with (n ++ after) n ≡ true
unfolding starts_with
starts_with-append [] after = refl
starts_with-append (x ∷ n) after = ground (arith, starts_with-append n after)

find_loop_sound : (h n : List ℕ) (at : List ℕ) → find_loop h n ≡ some at → Within n h
unfolding find_loop
find_loop_sound [] [] at e = record { before = []; after = []; whole = refl }
find_loop_sound [] (x ∷ n) at e = absurd (ground arith)
find_loop_sound (y ∷ h) n at e = elim (Bool-cases (leb (length n) (length (y ∷ h)))) [
  | inl room ↦ elim (Bool-cases (starts_with (y ∷ h) n)) [
    | inl here ↦
        let (after, whole) = starts_with_sound (y ∷ h) n here in
        record { before = []; after = after; whole = whole }
    | inr not_here ↦
        let later : find_loop h n ≡ some at = rw (room, not_here) at e in
        let w = find_loop_sound h n at later in
        record {
          before = y ∷ w.before;
          after = w.after;
          whole = ap (λ (t : List ℕ). y ∷ t) w.whole;
        }
  ]
  | inr short ↦ let bad : none ≡ some at = rw short at e in absurd (ground arith)
]

find_loop_here :
    (h n : List ℕ) → starts_with h n ≡ true → length n ≤ length h → find_loop h n ≡ some h
unfolding find_loop
find_loop_here [] [] e fits = refl
find_loop_here [] (x ∷ n) e fits = absurd (omega arith)
find_loop_here (y ∷ h) n e fits =
    let room : leb (length n) (length (y ∷ h)) ≡ true = ground arith in rw (room, e) refl

find_loop_complete :
    (before n after : List ℕ) → (at : List ℕ) × (find_loop (before ++ (n ++ after)) n ≡ some at)
unfolding find_loop
find_loop_complete [] n after = (
  n ++ after,
  find_loop_here (n ++ after) n (starts_with-append n after) (omega (arith, length-append n after)),
)
find_loop_complete (y ∷ before) n after =
    let (at, later) = find_loop_complete before n after in
    let room : leb (length n) (length (y ∷ (before ++ (n ++ after)))) ≡ true =
      ground (arith, length-append before (n ++ after), length-append n after) in
    elim (Bool-cases (starts_with (y ∷ (before ++ (n ++ after))) n)) [
      | inl here ↦ (y ∷ (before ++ (n ++ after)), rw (room, here) refl)
      | inr not_here ↦ (at, rw (room, not_here) later)
    ]

-- Bytes of which there are some are found where they stand in the others, and only then.
find_bytes_iff :
    (h n : List ℕ) → 0 < length n → ((at : List ℕ) × (find_bytes h n ≡ some at)) ↔ Within n h
unfolding find_bytes
find_bytes_iff h n some_there =
    let full : (length n == 0) ≡ false = ground arith in
    (
      λ f. elim (Bool-cases (ltb (length h) (length n))) [
        | inl short ↦ let bad : none ≡ some f.0 = rw (full, short) at f.1 in absurd (ground arith)
        | inr fits ↦
            let e : find_loop h n ≡ some f.0 = rw (full, fits) at f.1 in find_loop_sound h n f.0 e
      ],
      λ w.
          (let (at, e) = find_loop_complete w.before n w.after in
            let fits : ltb (length h) (length n) ≡ false =
              rw w.whole
                (ground (arith, length-append w.before (n ++ w.after), length-append n w.after)) in
            (at, rw (full, fits) (rw w.whole e))),
    )

-- The coinbase lacks the script, or there is no script.
abbrev Lacks : List ℕ → Output → Type 0
Lacks coinbase o = (o.script ≡ []) ⊎ ¬ Within o.script coinbase

-- One output of the loop.
has_script : List ℕ → Output → Bool
has_script coinbase o =
    not (length o.script == 0)
    && elim (find_bytes coinbase o.script) [ none ↦ false | some at ↦ true ]

length-nil {ℓ} : {A : Type ℓ} (xs : List A) → length xs ≡ 0 → xs ≡ []
length-nil [] h = refl
length-nil (x ∷ xs) h = absurd (omega arith)

has_script_iff :
    (coinbase : List ℕ) (o : Output) → (has_script coinbase o ≡ false) ↔ Lacks coinbase o
unfolding has_script
has_script_iff coinbase o = elim (Bool-cases (length o.script == 0)) [
  | inl empty ↦ rw empty (λ e. inl (length-nil o.script (ground arith)), λ l. refl)
  | inr some_there ↦
      let found = find_bytes_iff coinbase o.script (ground arith) in
      elim (Option-cases (find_bytes coinbase o.script)) [
        | inl missing ↦
            rw (some_there, missing)
              (
                λ e. inr (λ w.
                    let (at, f) = found.1 w in
                    let bad : none ≡ some at = rw missing at f in absurd (ground arith)),
                λ l. refl,
              )
        | inr (at, f) ↦
            rw (some_there, f)
              (
                λ e. absurd (ground arith),
                λ l. elim l [
                  | inl empty ↦
                      let bad : (0 == 0) ≡ false = rw empty at some_there in absurd (ground arith)
                  | inr lacks ↦ absurd (lacks (found.0 (at, f)))
                ],
              )
      ]
]

has_some_script_iff :
    (coinbase : List ℕ) (outputs : List Output)
    → (has_some_script coinbase outputs ≡ false) ↔ All (Lacks coinbase) outputs
unfolding has_some_script has_script
has_some_script_iff coinbase [] = (λ e. tt, λ l. refl)
has_some_script_iff coinbase (o ∷ outputs) =
    let one = has_script_iff coinbase o in
    let rest = has_some_script_iff coinbase outputs in
    elim (Bool-cases (has_script coinbase o)) [
      | inl has ↦
          rw has (λ e. absurd (ground arith), λ l. absurd (let e = one.1 l.0 in ground arith))
      | inr lacks ↦ rw lacks (λ e. (one.0 lacks, rest.0 e), λ l. rest.1 l.1)
    ]

some_same : {a b : SplitRec} → some a ≡ some b → a ≡ b
some_same {a} e = ap (λ (o : Option SplitRec). elim o [ none ↦ a | some r ↦ r ]) e

-- A split with outputs that the gateway has had for more than 10 seconds, and none of whose scripts the
-- coinbase has.
pub record IsUnpaid (st : Mining) (coinbase : List ℕ) (now : ℕ) : Type 0 where
  pub split : SplitRec
  pub sent : split_of st.job_coinbaser_id st.splits ≡ some split
  pub some_output : 0 < length split.outputs
  pub late : split.sent_at + split_grace_secs < now
  pub lacks : All (Lacks coinbase) split.outputs

-- A share is rejected for its split exactly when it is no block, pays not only the subsidy, its job
-- names a split that was sent more than 10 seconds ago and has outputs, and the coinbase has none of
-- the scripts of these.
pub require_split_rejected_iff :
    (st : Mining) (subsidy_only meets_network : Bool) (coinbase : List ℕ) (now : ℕ)
    → (require_split_rejected st subsidy_only meets_network coinbase now ≡ true) ↔ (
        (subsidy_only ≡ false)
        × (meets_network ≡ false)
        × (st.job_coinbaser_id ≢ 0)
        × IsUnpaid st coinbase now)
unfolding require_split_rejected
require_split_rejected_iff st subsidy_only meets_network coinbase now =
    elim (Bool-cases (subsidy_only || meets_network || st.job_coinbaser_id == 0)) [
      | inl exempt ↦ rw exempt (λ e. absurd (ground arith), λ r. absurd (ground arith))
      | inr judged ↦ elim (Option-cases (split_of st.job_coinbaser_id st.splits)) [
        | inl unknown ↦
            rw (judged, unknown)
              (
                λ e. absurd (ground arith),
                λ r.
                    let bad : none ≡ some r.3.split = rw unknown at r.3.sent in
                    absurd (ground arith),
              )
        | inr (s, sent) ↦
            let early : Bool =
              length s.outputs == 0
              || ltb now s.sent_at
              || leb (now - s.sent_at) split_grace_secs in
            let unpaid = has_some_script_iff coinbase s.outputs in
            elim (Bool-cases early) [
              | inl exempt ↦
                  rw (judged, sent, exempt)
                    (
                      λ e. absurd (ground arith),
                      λ r.
                          let u = r.3 in
                          let same : u.split ≡ s = some_same (sym u.sent ∙ sent) in
                          let some_output : 0 < length s.outputs = rw same at u.some_output in
                          let late : s.sent_at + split_grace_secs < now = rw same at u.late in
                          absurd (ground arith),
                    )
              | inr due ↦
                  rw (judged, sent, due)
                    (
                      λ e. (
                        ground arith,
                        ground arith,
                        ground arith,
                        record {
                          split = s;
                          sent = sent;
                          some_output = ground arith;
                          late = ground arith;
                          lacks = unpaid.0 (ground arith);
                        },
                      ),
                      λ r.
                          let u = r.3 in
                          let same : u.split ≡ s = some_same (sym u.sent ∙ sent) in
                          let lacks : All (Lacks coinbase) s.outputs = rw same at u.lacks in
                          let none_there = unpaid.1 lacks in ground arith,
                    )
            ]
      ]
    ]
