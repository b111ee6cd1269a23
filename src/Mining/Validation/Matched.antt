-- ===== src/Mining/Validation/Matched.antt =====
-- Which blocks a gateway's transactions complete.
use c_datum_prime.Common.{ℕ, ◌+◌, ◌*◌, ◌<◌, ◌≡◌, refl, ap, ◌⊎◌, inl, inr}
use c_datum_prime.Common.{
  Bool, true, not, ◌&&◌, ◌||◌, ◌==◌, ltb, leb, if◌then◌else◌, Bool-cases, Option-cases, none, some,
}
use c_datum_prime.Common.{List, ◌∷◌, length, take, drop}
use c_datum_prime.Common.{arith}
use c_datum_prime.Wire.{u32, rd_u32, byte_at, bytes_eq, rd_u16}
use c_datum_prime.Wire.Compare.{eq_of_bytes_eq}
use c_datum_prime.Pow.{zeros, serialize_block}
use c_datum_prime.Mining.{Mining, Pending, Opts, clear_pending_block}
use c_datum_prime.Mining.Block.{Node, World, on_pool, submit}
use c_datum_prime.Mining.Merkle.{merkle_of_txns}
use c_datum_prime.Mining.Validation.{
  validation, val_resp_block_txns, val_resp_parent, message_txns, submit_raw, on_parent,
  on_block_txns, complete_block, submit_pending, on_validation,
}

module _ (sha256 : List ℕ → List ℕ) (gets : ℕ → Bool) (node : Node) (w : World) (st : Mining)
    (opt : Opts) (now : ℕ) where
  -- The message submits the pending block `b`, once: it names the block's job and carries
  -- transactions whose root, with the coinbase, is the one in the block's header.
  pub record IsMatched (plain : List ℕ) (after : World × Mining × Bool) : Type 0 where
    pub b : Pending
    pub waits : st.pending ≡ some b
    pub named : byte_at plain 2 ≡ b.job_id
    pub txns : List (List ℕ)
    pub carried : message_txns plain ≡ some txns
    pub root : merkle_of_txns sha256 gets b.coinbase txns ≡ some b.merkle
    pub block : List ℕ
    pub whole : serialize_block sha256 gets b.header b.coinbase txns ≡ some block
    pub submitted :
        after.0.submitted
        ≡ record { block = block; block_len = length block; hash = b.hash } ∷ w.submitted
    pub cleared : after.1 ≡ clear_pending_block st

  complete_block-root :
      (b : Pending) (txns : List (List ℕ))
      → (complete_block sha256 gets b txns ≡ none)
        ⊎ ((block : List ℕ) × (complete_block sha256 gets b txns ≡ some block)
            × (merkle_of_txns sha256 gets b.coinbase txns ≡ some b.merkle)
            × (serialize_block sha256 gets b.header b.coinbase txns ≡ some block))
  unfolding complete_block
  complete_block-root b txns = elim (Option-cases (merkle_of_txns sha256 gets b.coinbase txns)) [
    | inl bad ↦ rw (bad, complete_block) (inl refl)
    | inr (root, e) ↦ elim (Bool-cases (bytes_eq root b.merkle)) [
      | inl same ↦ elim (Option-cases (serialize_block sha256 gets b.header b.coinbase txns)) [
        | inl bad ↦ rw (e, complete_block, same, bad) (inl refl)
        | inr (block, whole) ↦
            rw (e, complete_block, same, whole)
              (inr (block, refl, ap some (eq_of_bytes_eq root b.merkle same), refl))
      ]
      | inr other ↦ rw (e, complete_block, other) (inl refl)
    ]
  ]

  -- Nothing was submitted, and the pool is as it was.
  abbrev pub IsQuiet : World × Mining × Bool → Type 0
  IsQuiet after = (after.0.submitted ≡ w.submitted) × (after.0.pool ≡ w.pool)

  -- The message gives the node the parent's block that it carries, whatever the block is: as many of its
  -- bytes from the 40th on as it says, under a hash of zeros. The pool and the connection stay as they were.
  pub record IsParent (plain : List ℕ) (after : World × Mining × Bool) : Type 0 where
    pub kind : byte_at plain 1 ≡ val_resp_parent
    pub status : byte_at plain 3 ≡ 1
    pub has_node : opt.has_datadir ≡ true
    pub blen : ℕ
    pub said : rd_u32 (drop 36 plain) ≡ blen
    pub inside : u32 (40 + blen) < length plain
    pub submitted :
        after.0.submitted
        ≡ record { block = take blen (drop 40 plain); block_len = blen; hash = zeros 32 }
          ∷ w.submitted
    pub pool : after.0.pool ≡ w.pool
    pub kept : after.1 ≡ st

  on_parent_lem :
      (plain : List ℕ)
      → byte_at plain 1 ≡ val_resp_parent
      → IsQuiet (on_parent w opt plain, st, true) ⊎ IsParent plain (on_parent w opt plain, st, true)
  unfolding on_parent submit_raw
  on_parent_lem plain kind =
      let blen : ℕ = rd_u32 (drop 36 plain) in
      let is_passed : Bool =
        leb 42 (length plain)
        && byte_at plain 3 == 1
        && not (blen == 0)
        && ltb (u32 (40 + blen)) (length plain)
        && opt.has_datadir in
      elim (Bool-cases is_passed) [
        | inl passed ↦
            let status : byte_at plain 3 ≡ 1 = ground arith in
            let has_node : opt.has_datadir ≡ true = ground arith in
            let inside : u32 (40 + blen) < length plain = ground arith in
            rw passed (
              inr (record {
                kind = kind;
                status = status;
                has_node = has_node;
                blen = blen;
                said = refl;
                inside = inside;
                submitted = refl;
                pool = refl;
                kept = refl;
              }))
        | inr kept ↦ rw kept (inl (refl, refl))
      ]

  on_block_txns_lem :
      (b : Pending) (plain : List ℕ)
      → st.pending ≡ some b
      → byte_at plain 2 ≡ b.job_id
      → let after = on_block_txns sha256 gets node w st opt now b plain in
        IsQuiet after ⊎ IsMatched plain after
  unfolding on_block_txns submit_pending on_pool submit
  on_block_txns_lem b plain waits named =
      let stated : ℕ = rd_u16 (drop 4 plain) in
      elim (Bool-cases (not (byte_at plain 3 == 1) || ltb (length plain) 6)) [
        | inl refused ↦ rw refused (inl (refl, refl))
        | inr sent ↦ elim (Bool-cases (gets ((if stated == 0 then 1 else stated) * 8))) [
          | inl room ↦ elim (Option-cases (message_txns plain)) [
            | inl bad ↦ rw (sent, room, bad) (inl (refl, refl))
            | inr (txns, carried) ↦ elim (complete_block-root b txns) [
              | inl bad ↦ rw (sent, room, carried, bad) (inl (refl, refl))
              | inr (block, complete, root, whole) ↦
                  rw (sent, room, carried, complete)
                    (inr (record {
                      b = b;
                      waits = waits;
                      named = named;
                      txns = txns;
                      carried = carried;
                      root = root;
                      block = block;
                      whole = whole;
                      submitted = refl;
                      cleared = refl;
                    }))
            ]
          ]
          | inr full ↦ rw (sent, full) (inl (refl, refl))
        ]
      ]

  -- A message submits no block and leaves the pool as it is, or gives the node a parent's block that it
  -- carries, as `IsParent` says, or submits the pending block, as `IsMatched` says.
  pub on_validation_lem :
      (plain : List ℕ)
      → let after = on_validation sha256 gets node w st opt now plain in
        IsQuiet after ⊎ (IsParent plain after ⊎ IsMatched plain after)
  unfolding on_validation
  on_validation_lem plain =
      elim (Bool-cases (ltb (length plain) 4 || not (byte_at plain 0 == validation))) [
        | inl other ↦ rw other (inl (refl, refl))
        | inr ours ↦ elim (Bool-cases (byte_at plain 1 == val_resp_parent)) [
          | inl parent ↦
              rw (ours, parent)
                (elim (on_parent_lem plain (ground arith)) [
                  | inl quiet ↦ inl quiet
                  | inr passed ↦ inr (inl passed)
                ])
          | inr no_parent ↦ elim (Bool-cases (byte_at plain 1 == val_resp_block_txns)) [
            | inl txns ↦ elim (Option-cases st.pending) [
              | inl nothing ↦ rw (ours, no_parent, txns, nothing) (inl (refl, refl))
              | inr (b, waits) ↦ elim (Bool-cases (b.job_id == byte_at plain 2)) [
                | inl same ↦
                    simp (ours, no_parent, txns, waits, same)
                      (elim (on_block_txns_lem b plain waits (ground arith)) [
                        | inl quiet ↦ inl quiet
                        | inr matched ↦ inr (inr matched)
                      ])
                | inr other ↦ rw (ours, no_parent, txns, waits, other) (inl (refl, refl))
              ]
            ]
            | inr no_txns ↦ rw (ours, no_parent, no_txns) (inl (refl, refl))
          ]
        ]
      ]
