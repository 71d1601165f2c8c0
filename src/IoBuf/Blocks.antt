-- ===== src/IoBuf/Blocks.antt =====
-- The thread's cache of blocks and appending of bytes (src-common/fast_iobuf.cc). The chain of cached
-- blocks is a list of their addresses, the head first. `pool s` is what the block pool gives:
-- `BlockAllocate`, from inc/fast_block_pool.h.
pub mod Share
pub mod Write
pub mod Data
mod Tests
use light_rpc.Prelude.{
  ℕ, zero, suc, ◌+◌, ◌-◌, ◌^◌, min, Bool, true, false, List, [], ◌∷◌, Option, none, some, ltb, leb,
  ◌==◌, ◌||◌, if◌then◌else◌, length, take, drop, get_or, update,
}
use light_rpc.Prelude.Bits.{add32, sub64, add64}
use light_rpc.IoBuf.Store.{Store, dec_ref, full, left_space}
use light_rpc.IoBuf.View.{BlockRef, IoBuf}
use light_rpc.IoBuf.Refs.{push_back_ref}

pub record Tls : Type 0 where
  pub chain : List ℕ
  pub num_blocks : ℕ
  pub registered : Bool

abbrev pub max_blocks_per_thread : ℕ
max_blocks_per_thread = 8

-- DEFAULT_BLOCK_SIZE less the block's header.
abbrev pub block_cap : ℕ
block_cap = 8192 - 32

-- The constructor of a block.
abbrev pub new_block : ℕ → Store → Store
new_block p s = record s {
  nshared = update s.nshared p 1;
  user_data = update s.user_data p false;
  size = update s.size p 0;
  cap = update s.cap p block_cap;
}

-- Full blocks at the head of the chain are given up.
unfoldable pub drop_full : List ℕ → ℕ → Store → List ℕ × ℕ × Store
drop_full [] num s = ([], num, s)
drop_full (p ∷ ps) num s =
    let rest = drop_full ps (sub64 num 1) (dec_ref p s) in
    if full p s then rest else (p ∷ ps, num, s)

unfoldable pub clear_tls_block_chain : Tls → Store → Tls × Store
clear_tls_block_chain t s = (record t { chain = []; num_blocks = 0 }, clear_loop t.chain s)
  where
    clear_loop : List ℕ → Store → Store
    clear_loop [] s = s
    clear_loop (p ∷ ps) s = clear_loop ps (dec_ref p s)

-- `release_tls_block`, of a block that is not null
unfoldable pub release_tls_block : ℕ → Tls → Store → Tls × Store
release_tls_block p t s =
    if full p s || leb max_blocks_per_thread t.num_blocks
    then (t, dec_ref p s)
    else (record { chain = p ∷ t.chain; num_blocks = add64 t.num_blocks 1; registered = true }, s)

abbrev pub no_chain : List ℕ → Bool
no_chain [] = true
no_chain (p ∷ ps) = false

module _ (pool : Store → Option ℕ) where
  abbrev pub create_block : List ℕ → ℕ → Bool → Option ℕ → Store → Option ℕ × Tls × Store
  create_block chain num registered none s =
      (none, record { chain = []; num_blocks = num; registered = registered }, s)
  create_block chain num registered (some p) s = (
    some p,
    record { chain = p ∷ []; num_blocks = add64 num 1; registered = registered },
    new_block p s,
  )

  abbrev pub take_head : Bool → List ℕ → ℕ → Store → Option ℕ × Tls × Store
  take_head registered [] num s = create_block [] num registered (pool s) s
  take_head registered (p ∷ ps) num s =
      (some p, record { chain = p ∷ ps; num_blocks = num; registered = registered }, s)

  -- `share_tls_block`: the block, or `none` where the pool has none.
  unfoldable pub share_tls_block : Tls → Store → Option ℕ × Tls × Store
  share_tls_block t s =
      let (chain, num, s') = drop_full t.chain t.num_blocks s in
      take_head (t.registered || no_chain t.chain) chain num s'

-- `memcpy` to a block's memory from `at` on.
unfoldable pub write_bytes : (ℕ → ℕ) → ℕ → List ℕ → ℕ → ℕ
write_bytes d at [] = d
write_bytes d at (x ∷ xs) = write_bytes (update d at x) (at + 1) xs

abbrev pub store_bytes : ℕ → List ℕ → Store → Store
store_bytes p xs s = record s { bytes = update s.bytes p (write_bytes (s.bytes p) (s.size p) xs) }

abbrev pub grow_size : ℕ → ℕ → Store → Store
grow_size p n s = record s { size = update s.size p (add32 (s.size p) n) }

-- The buffer, the thread's cache and the store after an append; `ok` for the result 0.
pub record Appended : Type 0 where
  pub ok : Bool
  pub buf : IoBuf
  pub tls : Tls
  pub store : Store

-- One round: the bytes written, the reference pushed, the block's size advanced.
abbrev pub append_round : List ℕ → ℕ → IoBuf → Store → IoBuf × Store
append_round xs p b s =
    let r : BlockRef = record { offset = s.size p; length = length xs; block = p } in
    let (b', s') = push_back_ref false b r (store_bytes p xs s) in (b', grow_size p (length xs) s')

module _ (pool : Store → Option ℕ) where
  -- What follows `share_tls_block`, for the bytes `xs` that are left.
  abbrev pub after_share :
      List ℕ
      → IoBuf
      → Option ℕ × Tls × Store
      → (List ℕ → IoBuf → Tls → Store → Option Appended)
      → Option Appended
  after_share xs b (none, t, s) next = some (record { ok = false; buf = b; tls = t; store = s })
  after_share xs b (some p, t, s) next =
      let nc = min (length xs) (left_space p s) in
      let (b', s') = append_round (take nc xs) p b s in next (drop nc xs) b' t s'

  unfoldable pub append_loop : ℕ → List ℕ → IoBuf → Tls → Store → Option Appended
  append_loop zero xs b t s = none
  append_loop (suc fuel) [] b t s = some (record { ok = true; buf = b; tls = t; store = s })
  append_loop (suc fuel) (x ∷ xs) b t s =
      after_share (x ∷ xs) b (share_tls_block pool t s) (append_loop fuel)

  -- `append(void const *, size_t)` of the bytes `xs`, and `push_back` for one of them; the two do the same
  -- for one byte.
  unfoldable pub append_data : List ℕ → IoBuf → Tls → Store → Option Appended
  append_data xs b t s = append_loop (suc (length xs)) xs b t s
