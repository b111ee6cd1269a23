-- ===== src/Connection/Idle.antt =====
-- How long a peer that sends nothing is kept.
use c_datum_prime.Common.{ℕ, zero, suc, ◌+◌, ◌<◌, ◌≤◌, ◌≡◌, refl, inl, inr}
use c_datum_prime.Common.{Bool, true, false, ltb, leb, Bool-cases, Option}
use c_datum_prime.Common.{List, [], ◌∷◌, ◌++◌, replicate, All}
use c_datum_prime.Common.{arith}
use c_datum_prime.Ledger.Types.{Text}
use c_datum_prime.Mining.{Opts}
use c_datum_prime.Mining.Block.{Node}
use c_datum_prime.Session.{Sodium}
use c_datum_prime.Connection.{
  max_idle_polls, Event, silent, header_late, Conn, on_silence, on_event, run,
}

-- Headers that come too late, with the silent polls behind each of them.
abbrev pub late_headers : List ℕ → List Event
late_headers [] = []
late_headers (polls ∷ gaps) = header_late ∷ (replicate polls silent ++ late_headers gaps)

module _ (sodium : Sodium) (sha256 blake2b : List ℕ → List ℕ) (malloc : ℕ → Option (List ℕ))
    (gets : ℕ → Bool) (node : Node) (address_script : Text → Option (List ℕ)) (opt : Opts) where
  -- A peer that sends nothing is dropped at the poll that makes 90 in a row, and not before.
  pub run-silent :
      (c : Conn) (polls : ℕ)
      → c.idle_polls < max_idle_polls
      → (run sodium sha256 blake2b malloc gets node address_script opt c
          (replicate polls silent)).goes_on
        ≡ ltb (c.idle_polls + polls) max_idle_polls
  unfolding run on_event on_silence
  run-silent c zero few = ground arith
  run-silent c (suc polls) few =
      let next = record c { idle_polls = c.idle_polls + 1 } in
      elim (Bool-cases (leb max_idle_polls (c.idle_polls + 1))) [
        | inl last ↦
            let over : ltb (c.idle_polls + suc polls) max_idle_polls ≡ false = ground arith in
            simp (last, over)
        | inr more ↦
            let rest = run-silent next polls (ground arith) in
            let shift : c.idle_polls + 1 + polls ≡ c.idle_polls + suc polls = omega arith in
            rw more (rw shift at rest)
      ]

  -- Fewer than 90 idle polls in a row do not end the loop.
  run-replicate :
      (c : Conn) (polls : ℕ) (events : List Event)
      → c.idle_polls + polls < max_idle_polls
      → ((d : Conn)
          → (run sodium sha256 blake2b malloc gets node address_script opt d events).goes_on ≡ true)
      → (run sodium sha256 blake2b malloc gets node address_script opt c
          (replicate polls silent ++ events)).goes_on
        ≡ true
  unfolding run on_event on_silence
  run-replicate c zero events few goes_on = goes_on c
  run-replicate c (suc polls) events few goes_on =
      let next = record c { idle_polls = c.idle_polls + 1 } in
      let more : leb max_idle_polls (c.idle_polls + 1) ≡ false = ground arith in
      rw more (run-replicate next polls events (omega arith) goes_on)

  -- A peer of which no header ever comes whole is not dropped as idle as long as at most 88 silent polls
  -- stand between two of its late headers: each poll that finds a byte starts the count again, and the test
  -- behind the late header sees 1.
  pub run-header_late :
      (c : Conn) (gaps : List ℕ)
      → All (λ (polls : ℕ). polls ≤ 88) gaps
      → (run sodium sha256 blake2b malloc gets node address_script opt c
          (late_headers gaps)).goes_on
        ≡ true
  unfolding run on_event on_silence
  run-header_late c [] few = refl
  run-header_late c (polls ∷ gaps) few =
      run-replicate (record c { idle_polls = 1 }) polls (late_headers gaps) (omega (arith, few.0))
        (λ d. run-header_late d gaps few.1)
