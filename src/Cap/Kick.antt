-- ===== src/Cap/Kick.antt =====
-- Which clients the last loop of a tick asks the public gateway to kill.
use Prim.Native.Nat.{gt}
use c_datum_prime.Common.{ℕ, zero, suc, ◌+◌, ◌<◌, ◌≤◌, ◌≡◌, ◌≢◌, ◌⊎◌, refl, ap, inl, inr}
use c_datum_prime.Common.{Bool, true, false, ltb, ◌||◌, if◌then◌else◌, Bool-cases, some}
use c_datum_prime.Common.{List, [], ◌∷◌, ◌++◌, get_elem?, length}
use c_datum_prime.Common.{arith, zero-add, suc-add}
use c_datum_prime.Cap.{Doubles, CapClient}
use c_datum_prime.Cap.Thread.{cmp_newest, kick_loop}

-- No client stands before one that `cmp_newest` puts before it.
abbrev pub IsNewestFirst : {F : Type 0} → List (CapClient F) → Type 0
IsNewestFirst {F} cls =
    (i j : ℕ) (x y : CapClient F)
    → i < j
    → get_elem? cls i ≡ some x
    → get_elem? cls j ≡ some y
    → cmp_newest x y ≢ gt

module _ {A : Type 0} where
  get-inside : (xs : List A) (i : ℕ) (x : A) → get_elem? xs i ≡ some x → i < length xs
  get-inside [] i x h = absurd (ground arith)
  get-inside (y ∷ xs) zero x h = omega arith
  get-inside (y ∷ xs) (suc i) x h = omega (arith, get-inside xs i x h)

  get-append-left :
      (xs ys : List A) (i : ℕ) (x : A) → get_elem? xs i ≡ some x → get_elem? (xs ++ ys) i ≡ some x
  get-append-left [] ys i x h = absurd (ground arith)
  get-append-left (y ∷ xs) ys zero x h = h
  get-append-left (y ∷ xs) ys (suc i) x h = get-append-left xs ys i x h

  get-append-right :
      (xs ys : List A) (j : ℕ) (x : A)
      → get_elem? ys j ≡ some x
      → get_elem? (xs ++ ys) (length xs + j) ≡ some x
  get-append-right [] ys j x h = rw (zero-add j) h
  get-append-right (y ∷ xs) ys j x h = rw (suc-add (length xs) j) (get-append-right xs ys j x h)

not_older : {F : Type 0} (x y : CapClient F) → cmp_newest x y ≢ gt → y.connect_tsms ≤ x.connect_tsms
unfolding cmp_newest
not_older x y h = elim (Bool-cases (ltb x.connect_tsms y.connect_tsms)) [
  | inl older ↦ absurd (h (rw older refl))
  | inr other ↦ ground arith
]

-- What stands behind a first part of a sorted list did not connect later.
spared_lem :
    {F : Type 0} (asked cls spared : List (CapClient F))
    → cls ≡ asked ++ spared
    → IsNewestFirst cls
    → (i j : ℕ) (x y : CapClient F) → get_elem? asked i ≡ some x
    → get_elem? spared j ≡ some y
    → y.connect_tsms ≤ x.connect_tsms
spared_lem asked cls spared split sorted i j x y at_i at_j = not_older x y (
    sorted i (length asked + j) x y (omega (arith, get-inside asked i x at_i))
      (rw split (get-append-left asked spared i x at_i))
      (rw split (get-append-right asked spared j y at_j)))

module _ {F : Type 0} (d : Doubles F) (kills : CapClient F → Bool) (kick_all : Bool)
    (budget : F) where
  -- The hashes that are left once some clients were asked for.
  abbrev pub live_after : F → List (CapClient F) → F
  live_after live [] = live
  live_after live (c ∷ asked) = live_after (if kills c then d.sub live c.hs else live) asked

  -- At each of the clients asked for there was still something to shed.
  abbrev pub IsNeeded : F → List (CapClient F) → Type 0
  IsNeeded live [] = live ≡ live
  IsNeeded live (c ∷ asked) =
      ((kick_all || d.gt live budget) ≡ true)
      × IsNeeded (if kills c then d.sub live c.hs else live) asked

  pub asked_lem :
      (live : F) (cls : List (CapClient F))
      → let asked = kick_loop d kills kick_all budget live cls in
        (spared : List (CapClient F)) × (cls ≡ asked ++ spared)
        × IsNeeded live asked
        × ((spared ≡ []) ⊎ ((kick_all || d.gt (live_after live asked) budget) ≡ false))
  unfolding kick_loop
  asked_lem live [] = ([], refl, refl, inl refl)
  asked_lem live (c ∷ cls) = elim (Bool-cases (kick_all || d.gt live budget)) [
    | inl more ↦
        let (spared, split, needed, done) =
          asked_lem (if kills c then d.sub live c.hs else live) cls in
        rw more (spared, ap (λ (t : List (CapClient F)). c ∷ t) split, (more, needed), done)
    | inr enough ↦ rw enough (c ∷ cls, refl, refl, inr enough)
  ]

  -- Of clients sorted as `qsort` sorts them, those asked for are the shortest first part behind which the
  -- hashes left are within the budget, or all where there is no such part or all are to go; and none that
  -- is spared connected later than one asked for.
  pub kick_loop_lem :
      (live : F) (cls : List (CapClient F))
      → IsNewestFirst cls
      → let asked = kick_loop d kills kick_all budget live cls in
        (spared : List (CapClient F)) × (cls ≡ asked ++ spared)
        × IsNeeded live asked
        × ((spared ≡ []) ⊎ ((kick_all || d.gt (live_after live asked) budget) ≡ false))
        × ((i j : ℕ) (x y : CapClient F)
            → get_elem? asked i ≡ some x
            → get_elem? spared j ≡ some y
            → y.connect_tsms ≤ x.connect_tsms)
  kick_loop_lem live cls sorted =
      let (spared, split, needed, done) = asked_lem live cls in
      (
        spared,
        split,
        needed,
        done,
        spared_lem (kick_loop d kills kick_all budget live cls) cls spared split sorted,
      )
