-- ===== src/LargeBlock/Tests.antt =====
-- A cache of two blocks, one of eight, and the theorems applied to them.
use light_rpc.Prelude.{
  All, replicate, ℕ, zero, suc, ◌*◌, ◌≤◌, ◌<◌, ◌≡◌, ◌⊎◌, refl, Bool, true, List, [], ◌∷◌, Option,
  none, some, arith,
}
use light_rpc.LargeBlock.{
  Mr, LargeBlockNode, LargeBlocks, max_cached, large_block_alloc, return_large_block,
}
use light_rpc.LargeBlock.Sorted.{SortedBySize, IsWhole, IsCache}
use light_rpc.LargeBlock.Take.{Hit, TooSmall, registered, large_block_alloc_lem}
use light_rpc.LargeBlock.Give.{node_of, Kept, Evicted, return_large_block_lem}

abbrev region : ℕ → Mr
region k = record { addr = 4096 * k; length = 8192 * k; key = k }

abbrev cache_of : List LargeBlockNode → ℕ → LargeBlocks
cache_of ns n = record { list = ns; num = n; inited = true; deregistered = []; freed = [] }

abbrev two_cached : LargeBlocks
two_cached = cache_of (node_of (region 1) ∷ node_of (region 3) ∷ []) 2

two_cached-IsCache : IsCache two_cached
two_cached-IsCache = record {
  sorted = ((omega arith, tt), (tt, tt));
  counted = refl;
  few = omega arith;
  each = ((refl, refl), ((refl, refl), tt));
}

abbrev same_size : LargeBlockNode
same_size = node_of (region 2)

abbrev eight_cached : LargeBlocks
eight_cached = cache_of (replicate 8 same_size) 8

-- No memory is left.
abbrev no_memory : ℕ → Option ℕ
no_memory size = none

abbrev register_at : ℕ → ℕ → Option Mr
register_at buf size = some (record { addr = buf; length = size; key = 0 })

abbrev dereg_ok : Mr → Bool
dereg_ok mr = true

large_block_alloc_lem_example :
    let (result, c') = large_block_alloc no_memory register_at 9000 two_cached in
    ((mr : Mr) × (result ≡ some mr) × Hit 9000 two_cached c' mr)
    ⊎ (TooSmall 9000 two_cached.list
        × (result ≡ registered register_at 9000 (no_memory 9000))
        × IsCache c'
        × (c'.list ≡ two_cached.list))
large_block_alloc_lem_example =
    large_block_alloc_lem no_memory register_at 9000 two_cached two_cached-IsCache

replicate-All :
    (P : LargeBlockNode → Type 0) (n : LargeBlockNode) (k : ℕ) → P n → All P (replicate k n)
replicate-All P n zero p = tt
replicate-All P n (suc k) p = (p, replicate-All P n k p)

replicate-SortedBySize : (n : LargeBlockNode) (k : ℕ) → SortedBySize (replicate k n)
replicate-SortedBySize n zero = tt
replicate-SortedBySize n (suc k) = (
  replicate-All (λ (m : LargeBlockNode). n.size ≤ m.size) n k (omega arith),
  replicate-SortedBySize n k,
)

eight_cached-IsCache : IsCache eight_cached
eight_cached-IsCache = record {
  sorted = replicate-SortedBySize same_size 8;
  counted = refl;
  few = omega arith;
  each = replicate-All IsWhole same_size 8 (refl, refl);
}

return_large_block_lem_example :
    (c' : LargeBlocks) × (return_large_block dereg_ok (some (region 2)) eight_cached ≡ some c')
    × IsCache c'
    × (((eight_cached.num < max_cached) × Kept (region 2) eight_cached c')
        ⊎ ((eight_cached.num ≡ max_cached) × Evicted (region 2) eight_cached c'))
return_large_block_lem_example =
    return_large_block_lem dereg_ok (λ mr. refl) (region 2) eight_cached eight_cached-IsCache
