-- ===== src/Ledger/Replay/Recent.antt =====
-- How long the guard remembers a hash.
use c_datum_prime.Common.{
  ℕ, zero, suc, ◌+◌, ◌-◌, ◌%◌, ◌≤◌, ◌<◌, ◌≡◌, ◌≢◌, refl, sym, ap, ◌∙◌, inl, inr,
}
use c_datum_prime.Common.{true, false, ◌==◌, ltb, if◌then◌else◌, Bool-cases}
use c_datum_prime.Common.{List, [], ◌∷◌, length, All}
use c_datum_prime.Common.{arith}
use c_datum_prime.Wire.{bytes_eq}
use c_datum_prime.Wire.Compare.{bytes_eq_refl, eq_of_bytes_eq}
use c_datum_prime.Ledger.Replay.{
  max_replay, Replay, set_hash, has_loop, replay_has, replay_add, replay_new, forget_loop,
  replay_forget, no_replay,
}

-- Before the array is full nothing was overwritten.
pub record IsGuard (r : Replay) : Type 0 where
  pub count : r.nreplay ≤ max_replay
  pub head : r.replay_head < max_replay
  pub filling : r.nreplay < max_replay → r.replay_head ≡ 0

-- How many more hashes the guard takes before it overwrites the entry.
abbrev life : Replay → ℕ → ℕ
life r i =
    if ltb r.nreplay max_replay
    then max_replay - r.nreplay + i
    else (i + max_replay - r.replay_head) % max_replay

-- The hash is there, and stays for `k` more.
pub record Held (r : Replay) (hash : List ℕ) (k : ℕ) : Type 0 where
  pub at : ℕ
  pub inside : at < r.nreplay
  pub entry : r.replay at ≡ hash
  pub lasts : k ≤ life r at

has_loop-entry :
    (rounds i at : ℕ) (replay : ℕ → List ℕ) (hash : List ℕ)
    → i ≤ at
    → at < i + rounds
    → replay at ≡ hash
    → has_loop rounds i replay hash ≡ true
unfolding has_loop
has_loop-entry zero i at replay hash lo hi e = absurd (omega arith)
has_loop-entry (suc rounds) i at replay hash lo hi e = elim (Bool-cases (i == at)) [
  | inl here ↦ let same : i ≡ at = ground arith in rw (same, e, bytes_eq_refl hash) refl
  | inr later ↦
      let rest = has_loop-entry rounds (i + 1) at replay hash (ground arith) (omega arith) e in
      ground (arith, rest)
]

replay_has-Held : (r : Replay) (hash : List ℕ) (k : ℕ) → Held r hash k → replay_has r hash ≡ true
unfolding replay_has
replay_has-Held r hash k h =
    has_loop-entry r.nreplay 0 h.at r.replay hash (omega arith) (omega (arith, h.inside)) h.entry

replay_add-IsGuard : (r : Replay) (hash : List ℕ) → IsGuard r → IsGuard (replay_add r hash)
unfolding replay_add
replay_add-IsGuard r hash g = elim (Bool-cases (ltb r.nreplay max_replay)) [
  | inl room ↦
      let zero_head = g.filling (ground arith) in
      rw room (record { count = ground arith; head = g.head; filling = λ h. zero_head })
  | inr full ↦ rw full (record {
    count = g.count;
    head = omega arith;
    filling = λ h. absurd (ground (arith, g.count));
  })
]

-- A hash that is added lasts for 65535 more.
replay_add-Held :
    (r : Replay) (hash : List ℕ) → IsGuard r → Held (replay_add r hash) hash (max_replay - 1)
unfolding replay_add set_hash
replay_add-Held r hash g = elim (Bool-cases (ltb r.nreplay max_replay)) [
  | inl room ↦
      let zero_head = g.filling (ground arith) in
      rw room (record {
        at = r.nreplay;
        inside = omega arith;
        entry = ground arith;
        lasts = ground (arith, zero_head);
      })
  | inr full ↦
      let count = g.count in
      let head = g.head in
      rw full (record {
        at = r.replay_head;
        inside = ground arith;
        entry = ground arith;
        lasts = ground arith;
      })
]

replay_add-keeps :
    (r : Replay) (hash other : List ℕ) (k : ℕ)
    → IsGuard r
    → Held r hash (suc k)
    → Held (replay_add r other) hash k
unfolding replay_add set_hash
replay_add-keeps r hash other k g h =
    let at = h.at in
    let inside = h.inside in
    let lasts = h.lasts in
    let entry = h.entry in
    elim (Bool-cases (ltb r.nreplay max_replay)) [
      | inl room ↦
          let zero_head = g.filling (ground arith) in
          rw room (record {
            at = at;
            inside = omega arith;
            entry = ground (arith, entry);
            lasts = ground (arith, zero_head);
          })
      | inr full ↦
          let count = g.count in
          let head = g.head in
          rw full (record {
            at = at;
            inside = inside;
            entry = ground (arith, entry);
            lasts = ground arith;
          })
    ]

replay_new-keeps :
    (r : Replay) (hash other : List ℕ) (k : ℕ)
    → IsGuard r
    → Held r hash (suc k)
    → IsGuard (replay_new r other).1 × Held (replay_new r other).1 hash k
unfolding replay_new
replay_new-keeps r hash other k g h = elim (Bool-cases (replay_has r other)) [
  | inl seen ↦
      rw seen (
        g,
        record { at = h.at; inside = h.inside; entry = h.entry; lasts = omega (arith, h.lasts) },
      )
  | inr unseen ↦ rw unseen (replay_add-IsGuard r other g, replay_add-keeps r hash other k g h)
]

-- Forgetting another hash does not touch the entry.
forget_loop-entry :
    (rounds i at : ℕ) (replay : ℕ → List ℕ) (other : List ℕ)
    → replay at ≢ other
    → forget_loop rounds i replay other at ≡ replay at
unfolding forget_loop set_hash
forget_loop-entry zero i at replay other ne = refl
forget_loop-entry (suc rounds) i at replay other ne =
    elim (Bool-cases (bytes_eq (replay i) other)) [
      | inl here ↦
          let apart : (at == i) ≡ false = elim (Bool-cases (at == i)) [
            | inl same ↦
                let e : at ≡ i = ground arith in
                absurd (ne (ap replay e ∙ eq_of_bytes_eq (replay i) other here))
            | inr away ↦ away
          ] in
          rw (here, apart) refl
      | inr other_one ↦ rw other_one (forget_loop-entry rounds (i + 1) at replay other ne)
    ]

replay_forget-keeps :
    (r : Replay) (hash other : List ℕ) (k : ℕ)
    → hash ≢ other
    → IsGuard r
    → Held r hash k
    → IsGuard (replay_forget r other) × Held (replay_forget r other) hash k
unfolding replay_forget
replay_forget-keeps r hash other k ne g h = (
  record { count = g.count; head = g.head; filling = g.filling },
  record {
    at = h.at;
    inside = h.inside;
    entry = forget_loop-entry r.nreplay 0 h.at r.replay other (λ e. ne (sym h.entry ∙ e)) ∙ h.entry;
    lasts = h.lasts;
  },
)

-- What happens to the guard: a hash is tried, or forgotten again.
pub data Use : Type 0 where
  tried : List ℕ → Use
  forgotten : List ℕ → Use

unfoldable pub after_uses : List Use → Replay → Replay
after_uses [] r = r
after_uses (tried other ∷ us) r = after_uses us (replay_new r other).1
after_uses (forgotten other ∷ us) r = after_uses us (replay_forget r other)

abbrev pub IsNotForgotten : List ℕ → Use → Type 0
IsNotForgotten hash (tried other) = Unit
IsNotForgotten hash (forgotten other) = hash ≢ other

after_uses-Held :
    (us : List Use) (r : Replay) (hash : List ℕ)
    → IsGuard r
    → Held r hash (length us)
    → All (λ u. IsNotForgotten hash u) us
    → Held (after_uses us r) hash 0
unfolding after_uses
after_uses-Held [] r hash g h all = h
after_uses-Held (tried other ∷ us) r hash g h all =
    let (g', h') = replay_new-keeps r hash other (length us) g h in
    after_uses-Held us (replay_new r other).1 hash g' h' all.1
after_uses-Held (forgotten other ∷ us) r hash g h all =
    let less : Held r hash (length us) = record {
      at = h.at;
      inside = h.inside;
      entry = h.entry;
      lasts = omega (arith, h.lasts);
    } in
    let (g', h') = replay_forget-keeps r hash other (length us) all.0 g less in
    after_uses-Held us (replay_forget r other) hash g' h' all.1

pub no_replay-IsGuard : IsGuard no_replay
no_replay-IsGuard = record { count = omega arith; head = omega arith; filling = λ h. refl }

-- In a valid state, a hash that was accepted is refused, and its refusal changes nothing, as long as no
-- more than 65535 other hashes were tried or forgotten since and it was not forgotten itself.
pub replay_new-after_uses :
    (r : Replay) (hash : List ℕ) (us : List Use)
    → IsGuard r
    → (replay_new r hash).0 ≡ true
    → length us < max_replay
    → All (λ u. IsNotForgotten hash u) us
    → replay_new (after_uses us (replay_new r hash).1) hash
      ≡ (false, after_uses us (replay_new r hash).1)
unfolding replay_new
replay_new-after_uses r hash us g accepted few all = elim (Bool-cases (replay_has r hash)) [
  | inl seen ↦ absurd (let clash : true ≡ false = sym (rw seen at accepted) in ground arith)
  | inr unseen ↦
      let r' = replay_add r hash in
      let start = replay_add-Held r hash g in
      let held : Held r' hash (length us) = record {
        at = start.at;
        inside = start.inside;
        entry = start.entry;
        lasts = omega (arith, start.lasts);
      } in
      let there =
        replay_has-Held (after_uses us r') hash 0
          (after_uses-Held us r' hash (replay_add-IsGuard r hash g) held all) in
      rw (unseen, there) refl
]
