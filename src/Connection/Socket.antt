-- ===== src/Connection/Socket.antt =====
-- Reading a number of bytes from a socket (src/main.c: `read_exact`). What `recv` gives is a list of
-- results.
use c_datum_prime.Common.{ℕ, ◌-◌, ◌≤◌, ◌≡◌, refl, ap, ◌∙◌, inl, inr}
use c_datum_prime.Common.{true, ◌==◌, ltb, if◌then◌else◌, Bool-cases}
use c_datum_prime.Common.{List, [], ◌∷◌, ◌++◌, length, take, drop, append_assoc}
use c_datum_prime.Common.{length-append, length-take, take-append-drop, arith}

-- A result of `recv`: some bytes, of which it takes no more than it was asked for, the end of the stream,
-- an interruption, or another error.
pub data Recv : Type 0 where
  got : List ℕ → Recv
  closed : Recv
  interrupted : Recv
  failed : Recv

-- What `read_exact` gives: the bytes, or the ones that are lost with its -1, and the results left. A list
-- that has come to its end is a socket that times out.
pub data Read : Type 0 where
  whole : List ℕ → List Recv → Read
  lost : List ℕ → List Recv → Read

-- The bytes that were read before.
abbrev pub behind : List ℕ → Read → Read
behind bytes (whole more rest) = whole (bytes ++ more) rest
behind bytes (lost more rest) = lost (bytes ++ more) rest

-- `read_exact` of `n` bytes more; `recv` leaves what it was not asked for to the next call.
unfoldable pub read_exact : ℕ → List Recv → Read
read_exact n [] = if n == 0 then whole [] [] else lost [] []
read_exact n (closed ∷ rest) = if n == 0 then whole [] (closed ∷ rest) else lost [] rest
read_exact n (failed ∷ rest) = if n == 0 then whole [] (failed ∷ rest) else lost [] rest
read_exact n (interrupted ∷ rest) =
    let more = read_exact n rest in if n == 0 then whole [] (interrupted ∷ rest) else more
read_exact n (got bytes ∷ rest) =
    let more = read_exact (n - length bytes) rest in
    if n == 0
    then whole [] (got bytes ∷ rest)
    else if ltb n (length bytes)
    then whole (take n bytes) (got (drop n bytes) ∷ rest)
    else behind bytes more

-- The bytes that a list of results brings.
abbrev pub brings : List Recv → List ℕ
brings [] = []
brings (got bytes ∷ rest) = bytes ++ brings rest
brings (closed ∷ rest) = brings rest
brings (interrupted ∷ rest) = brings rest
brings (failed ∷ rest) = brings rest

-- Results with neither an end nor an error.
abbrev pub Flows : List Recv → Type 0
Flows [] = Unit
Flows (got bytes ∷ rest) = Flows rest
Flows (interrupted ∷ rest) = Flows rest
Flows (closed ∷ rest) = ⊥
Flows (failed ∷ rest) = ⊥

-- What is read is the next `n` bytes, and those behind them are still to come.
abbrev pub IsRead : ℕ → List Recv → Read → Type 0
IsRead n recvs (whole bytes rest) =
    (length bytes ≡ n) × (bytes ++ brings rest ≡ brings recvs) × Flows rest
IsRead n recvs (lost bytes rest) = ⊥

behind-IsRead :
    (n : ℕ) (bytes : List ℕ) (rest : List Recv) (r : Read)
    → length bytes ≤ n
    → IsRead (n - length bytes) rest r
    → IsRead n (got bytes ∷ rest) (behind bytes r)
behind-IsRead n bytes rest (whole more rest') le (size, same, flows) = (
  omega (arith, length-append bytes more, size),
  append_assoc bytes more (brings rest') ∙ ap (λ (t : List ℕ). bytes ++ t) same,
  flows,
)
behind-IsRead n bytes rest (lost more rest') le h = absurd h

-- However a stream is cut into pieces and interrupted, `read_exact` gives the next `n` bytes of it, if it
-- brings as many, and leaves the others to the next call.
pub read_exact_lem :
    (n : ℕ) (recvs : List Recv)
    → Flows recvs
    → n ≤ length (brings recvs)
    → IsRead n recvs (read_exact n recvs)
unfolding read_exact
read_exact_lem n [] flows le =
    let none_left : (n == 0) ≡ true = ground arith in rw none_left (omega (arith, le), refl, tt)
read_exact_lem n (closed ∷ rest) flows le = absurd flows
read_exact_lem n (failed ∷ rest) flows le = absurd flows
read_exact_lem n (interrupted ∷ rest) flows le = elim (Bool-cases (n == 0)) [
  | inl none_left ↦ rw none_left (ground arith, refl, flows)
  | inr some_left ↦ rw some_left (read_exact_lem n rest flows le)
]
read_exact_lem n (got bytes ∷ rest) flows le = elim (Bool-cases (n == 0)) [
  | inl none_left ↦ rw none_left (ground arith, refl, flows)
  | inr some_left ↦ elim (Bool-cases (ltb n (length bytes))) [
    | inl few ↦
        rw (some_left, few)
          (
            ground (arith, length-take n bytes),
            rw
                (
                  ← append_assoc (take n bytes) (drop n bytes) (brings rest),
                  take-append-drop n bytes,
                )
                refl,
            flows,
          )
    | inr many ↦
        let size = length-append bytes (brings rest) in
        rw (some_left, many)
          (behind-IsRead n bytes rest (read_exact (n - length bytes) rest) (ground arith)
            (read_exact_lem (n - length bytes) rest flows (omega (arith, le, size))))
  ]
]
