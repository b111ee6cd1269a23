-- ===== src/Bulk/Examples.antt =====
-- Two replies received in fragments, on concrete bytes.
use c_datum_prime.Common.{ℕ, zero, suc, ◌≡◌, refl, sym, ap, ◌∙◌}
use c_datum_prime.Common.{Option, none, some}
use c_datum_prime.Common.{List, [], ◌∷◌, length, replicate, All}
use c_datum_prime.Common.{arith}
use c_datum_prime.Bulk.{idle, receive}
use c_datum_prime.Bulk.Safety.{Allocates, IsValid, receive-IsValid}
use c_datum_prime.Bulk.Reassembly.{
  join, Message, IsSendable, fragment, send_all, Succeeds, receive-send_all,
}

-- An allocator that never fails.
abbrev zeros : ℕ → Option (List ℕ)
zeros n = some (replicate n 0)

length-replicate : (n : ℕ) → length {A = ℕ} (replicate n 0) ≡ n
length-replicate zero = refl
length-replicate (suc n) = ap suc (length-replicate n)

zeros-Allocates : Allocates zeros
zeros-Allocates n buf e =
    ap (λ (o : Option (List ℕ)). length (elim o [ none ↦ [] | some b ↦ b ])) (sym e)
    ∙ length-replicate n

zeros-Succeeds : Succeeds zeros
zeros-Succeeds n h = (replicate n 0, refl)

abbrev two_messages : List Message
two_messages =
    record { id = 7; first = 0x20 ∷ 1 ∷ []; others = (2 ∷ 3 ∷ 4 ∷ []) ∷ (5 ∷ []) ∷ [] }
    ∷ record { id = 8; first = 0x30 ∷ []; others = [] }
    ∷ []

two_messages-IsSendable : All IsSendable two_messages
unfolding join
two_messages-IsSendable = (
  record {
    id_set = omega arith;
    id_range = omega arith;
    pieces = ground arith;
    limit = omega arith;
  },
  (
    record {
      id_set = omega arith;
      id_range = omega arith;
      pieces = ground arith;
      limit = omega arith;
    },
    tt,
  ),
)

receive-send_all_example :
    receive zeros idle (send_all two_messages)
    ≡ (idle, (0x20 ∷ 1 ∷ 2 ∷ 3 ∷ 4 ∷ 5 ∷ []) ∷ (0x30 ∷ []) ∷ [])
unfolding join
receive-send_all_example =
    receive-send_all zeros two_messages zeros-Allocates zeros-Succeeds two_messages-IsSendable

-- A fragment that opens a transfer, one of another transfer, and one that is cut short.
abbrev stray : List (List ℕ)
stray = fragment 7 5 0 (1 ∷ 2 ∷ []) ∷ fragment 9 5 2 (3 ∷ []) ∷ (0x44 ∷ []) ∷ []

receive-IsValid_example : IsValid (receive zeros idle stray).0
receive-IsValid_example = receive-IsValid zeros zeros-Allocates idle stray refl
