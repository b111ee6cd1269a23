-- ===== src/Framing/Ratchet.antt =====
-- The ratchet keeps sender and receiver in step: `prime_ratchet_mask` and `prime_ratchet_unmask`.
use c_datum_prime.Common.{ℕ, ◌^◌, ◌<◌, ◌≡◌, refl, ap, List, [], ◌∷◌, ◌++◌, All}
use c_datum_prime.Common.{bit_xor, arith, append-nil, length, take, drop, zero, suc}
use c_datum_prime.Common.Bits.{bit_xor_twice, bit_xor-lt}
use c_datum_prime.Wire.{rd_u32, wr_u32}
use c_datum_prime.Wire.Fields.{rd_u32-wr_u32}
use c_datum_prime.Framing.{
  Header, header_word, header_to_bytes, feedback, ratchet_mask, ratchet_unmask,
}
use c_datum_prime.Framing.{header_from_bytes}
use c_datum_prime.Framing.Codec.{Fits, header_word-lt, header_from_bytes-header_to_bytes}

-- A key is a uint32_t.
abbrev pub IsKey : ℕ → Type 0
IsKey key = key < 2 ^ 32

-- Every key after the first is a uint32_t.
pub feedback-IsKey : (i : ℕ) → IsKey (feedback i)
unfolding feedback
feedback-IsKey i = bit_xor-lt 32 _ _ (omega arith) (omega arith)

rd_word : (h : Header) → Fits h → rd_u32 (header_to_bytes h) ≡ header_word h
unfolding header_to_bytes
rd_word h f =
    rw (← append-nil (wr_u32 (header_word h)))
      (rd_u32-wr_u32 (header_word h) [] (header_word-lt h f))

read_alone : (h : Header) → Fits h → header_from_bytes (wr_u32 (header_word h)) ≡ h
unfolding header_to_bytes
read_alone h f =
    rw (append-nil (wr_u32 (header_word h))) at (header_from_bytes-header_to_bytes h [] f)

-- A header that is masked is unmasked under the same key, whatever follows its four bytes, and both
-- ends go on to the same next key.
pub ratchet_unmask-ratchet_mask :
    (key : ℕ) (h : Header) (rest : List ℕ)
    → IsKey key
    → Fits h
    → let (bytes, next) = ratchet_mask key h in
      (ratchet_unmask key (bytes ++ rest) ≡ (h, next)) × IsKey next
unfolding ratchet_mask ratchet_unmask
ratchet_unmask-ratchet_mask key h rest k f = (
  rw
      (
        rd_word h f,
        rd_u32-wr_u32 (bit_xor (header_word h) key) rest
            (bit_xor-lt 32 (header_word h) key (header_word-lt h f) k),
        bit_xor_twice (header_word h) key,
      )
      (ap (λ (t : Header). (t, feedback key)) (read_alone h f)),
  feedback-IsKey key,
)

-- What one end sends for a list of headers, and what the other reads from four bytes for each.
unfoldable pub mask_all : ℕ → List Header → List ℕ
mask_all key [] = []
mask_all key (h ∷ hs) = let (bytes, next) = ratchet_mask key h in bytes ++ mask_all next hs

unfoldable pub unmask_all : ℕ → ℕ → List ℕ → List Header
unmask_all zero key bytes = []
unmask_all (suc n) key bytes =
    let (h, next) = ratchet_unmask key bytes in h ∷ unmask_all n next (drop 4 bytes)

drop_word : (v : ℕ) (rest : List ℕ) → drop 4 (wr_u32 v ++ rest) ≡ rest
unfolding wr_u32
drop_word v rest = refl

pub take_masked :
    (key : ℕ) (h : Header) (rest : List ℕ)
    → take 4 ((ratchet_mask key h).0 ++ rest) ≡ (ratchet_mask key h).0
unfolding ratchet_mask wr_u32
take_masked key h rest = refl

pub drop_masked :
    (key : ℕ) (h : Header) (rest : List ℕ) → drop 4 ((ratchet_mask key h).0 ++ rest) ≡ rest
unfolding ratchet_mask
drop_masked key h rest = drop_word _ rest

-- Two ends that start from one key stay in step: the receiver reads every header that the sender
-- masked, in order, however many there are.
pub unmask_all-mask_all :
    (key : ℕ) (hs : List Header)
    → IsKey key
    → All Fits hs
    → unmask_all (length hs) key (mask_all key hs) ≡ hs
unfolding mask_all unmask_all
unmask_all-mask_all key [] k f = refl
unmask_all-mask_all key (h ∷ hs) k f =
    let next = (ratchet_mask key h).1 in
    let rest = mask_all next hs in
    let step = ratchet_unmask-ratchet_mask key h rest k f.0 in
    rw (step.0, drop_masked key h rest)
      (ap (λ (t : List Header). h ∷ t) (unmask_all-mask_all next hs step.1 f.1))
