-- ===== src/Cap/Admission.antt =====
-- When the policy of src/cap.c keeps the public gateway shut.
use c_datum_prime.Common.{◌≡◌, ◌↔◌, ◌⊎◌, refl, ap, inl, inr, ◌∙◌}
use c_datum_prime.Common.{Bool, true, false, ◌&&◌, ◌||◌}
use c_datum_prime.Common.{List, [], ◌∷◌, ◌++◌}
use c_datum_prime.Common.{arith}
use c_datum_prime.Cap.{Doubles, cap_fraction, cap_resume, cap_policy}

-- A measurement is the pool's fraction and that of the DATUM gateways.
module _ {F : Type 0} (d : Doubles F) where
  -- Above the cap, and above the fraction at which admission starts again.
  abbrev pub is_over : F × F → Bool
  is_over (pool_frac, datum_frac) =
      d.gt datum_frac (cap_fraction d) || d.gt pool_frac (cap_fraction d)

  abbrev pub is_held : F × F → Bool
  is_held x = is_over x || d.gt x.0 (cap_resume d)

  abbrev pub all_held : List (F × F) → Bool
  all_held [] = true
  all_held (x ∷ xs) = is_held x && all_held xs

  -- The admission behind measurements, one tick each.
  abbrev pub admit_after : Bool → List (F × F) → Bool
  admit_after admit [] = admit
  admit_after admit (x ∷ xs) = admit_after (cap_policy d x.0 x.1 admit).admit xs

  -- Some measurement was above the cap, and none since let admission start again.
  abbrev pub WasShut : List (F × F) → Type 0
  WasShut xs =
      (before : List (F × F)) × (x : F × F) × (after : List (F × F)) × (xs ≡ before ++ (x ∷ after))
      × (is_over x ≡ true)
      × (all_held after ≡ true)

  admit_over :
      (x : F × F) (admit : Bool) → is_over x ≡ true → (cap_policy d x.0 x.1 admit).admit ≡ false
  unfolding cap_policy
  admit_over x admit h = ground arith

  admit_held : (x : F × F) → is_held x ≡ true → (cap_policy d x.0 x.1 false).admit ≡ false
  unfolding cap_policy
  admit_held x h = ground arith

  shut_cases :
      (x : F × F) (admit : Bool)
      → (cap_policy d x.0 x.1 admit).admit ≡ false
      → (is_over x ≡ true) ⊎ ((admit ≡ false) × (is_held x ≡ true))
  unfolding cap_policy
  shut_cases x admit h = ground arith

  stays_shut : (xs : List (F × F)) → all_held xs ≡ true → admit_after false xs ≡ false
  stays_shut [] h = refl
  stays_shut (x ∷ xs) h =
      let held : is_held x ≡ true = ground arith in
      let rest : all_held xs ≡ true = ground arith in rw (admit_held x held) (stays_shut xs rest)

  shut-WasShut :
      (admit : Bool) (xs : List (F × F))
      → admit_after admit xs ≡ false
      → ((admit ≡ false) × (all_held xs ≡ true)) ⊎ WasShut xs
  shut-WasShut admit [] h = inl (h, refl)
  shut-WasShut admit (x ∷ xs) h = elim (shut-WasShut (cap_policy d x.0 x.1 admit).admit xs h) [
    | inl (now, held) ↦ elim (shut_cases x admit now) [
      | inl over ↦ inr ([], x, xs, refl, over, held)
      | inr (shut, kept) ↦ inl (shut, rw (kept) held)
    ]
    | inr (before, y, after, split, over, held) ↦
        inr (x ∷ before, y, after, ap (λ (t : List (F × F)). x ∷ t) split, over, held)
  ]

  WasShut-shut :
      (admit : Bool) (before : List (F × F)) (x : F × F) (after : List (F × F))
      → is_over x ≡ true
      → all_held after ≡ true
      → admit_after admit (before ++ (x ∷ after)) ≡ false
  WasShut-shut admit [] x after over held =
      ap (λ a. admit_after a after) (admit_over x admit over) ∙ stays_shut after held
  WasShut-shut admit (y ∷ before) x after over held =
      WasShut-shut (cap_policy d y.0 y.1 admit).admit before x after over held

  -- The public gateway, open at first, is shut after measurements exactly when one of them was above the
  -- cap, and every one since was above the cap or above the lower fraction at which admission starts
  -- again.
  pub admit_after_iff : (xs : List (F × F)) → (admit_after true xs ≡ false) ↔ WasShut xs
  admit_after_iff xs = (
    λ h. elim (shut-WasShut true xs h) [
      | inl (shut, held) ↦ absurd (ground arith)
      | inr found ↦ found
    ],
    λ (before, x, after, split, over, held). rw split (WasShut-shut true before x after over held),
  )
