-- ===== src/Abw/Examples.antt =====
-- The slots and the mask with a concrete allocator, hash and keys.
use c_datum_prime.Common.{ℕ, zero, suc, ◌%◌, ◌≡◌, ◌≢◌, refl, ap}
use c_datum_prime.Common.{Bool, ltb, none, some}
use c_datum_prime.Common.{List, [], ◌∷◌, ◌++◌, length, replicate, All}
use c_datum_prime.Abw.{Abw, abw_start, abw_key, due_reveals, on_share}
use c_datum_prime.Abw.Keys.{slot_of, due_reveals_lem}
use c_datum_prime.Abw.Rotation.{IsActive, share, due, resume, after_events, abw_start-after_events}

abbrev gets : ℕ → Bool
gets n = ltb n 1000

abbrev key_hash : List ℕ → List ℕ
key_hash key = key ++ key

-- A function with results of 32 bytes, in the place of SHA-256.
abbrev sha256 : List ℕ → List ℕ
sha256 message = replicate 32 (length message % 256)

length-replicate : (n b : ℕ) → length {A = ℕ} (replicate n b) ≡ n
length-replicate zero b = refl
length-replicate (suc n) b = ap suc (length-replicate n b)

sha256-digest : (message : List ℕ) → length (sha256 message) ≡ 32
sha256-digest message = length-replicate 32 (length message % 256)

abbrev started : Abw
started = abw_start 300 (replicate 16 3) 1000

-- A connection whose first slot was replaced after ten minutes.
abbrev rotated : Abw
rotated = (on_share gets key_hash started (replicate 16 4) 1700).0

due_reveals_lem_example :
    let (a', wires) = due_reveals gets rotated 3000 in
    ((i : ℕ) → abw_key a' i ≡ abw_key rotated i)
    × (a'.active ≡ rotated.active)
    × (a'.slots rotated.active ≡ rotated.slots rotated.active)
    × All (λ (w : List ℕ). slot_of w ≢ rotated.active) (elim wires [ none ↦ [] | some ws ↦ ws ])
due_reveals_lem_example = due_reveals_lem gets rotated 3000

abw_start-after_events_example : IsActive (
    after_events gets key_hash
      (share (replicate 16 4) 1700 ∷ due 3000 ∷ resume 4000 ∷ [])
      (abw_start 300 (replicate 16 3) 1000))
abw_start-after_events_example =
    abw_start-after_events gets key_hash 300 (replicate 16 3) 1000
      (share (replicate 16 4) 1700 ∷ due 3000 ∷ resume 4000 ∷ [])
