-- ===== src/BlockPool/Tests.antt =====
-- A pool of one region, and the theorems applied to it.
use light_rpc.Prelude.{
  ℕ, ◌+◌, ◌^◌, ◌<◌, ◌≡◌, ◌≢◌, refl, Bool, true, false, [], ◌∷◌, All, Option, none, some, leb, arith,
}
use light_rpc.BlockPool.{
  Pool, get_region, find_region, return_to, alloc_block_from, block_allocate, block_deallocate,
  no_error,
}
use light_rpc.BlockPool.Cover.{held, free_at, grid, sum_to}
use light_rpc.BlockPool.Well.{IsPool, region_at}
use light_rpc.BlockPool.Extend.{Places}
use light_rpc.BlockPool.From.{AllocOutcome, block_allocate_lem}
use light_rpc.BlockPool.Dealloc.{Returned, block_deallocate_lem}
use light_rpc.BlockPool.Recycle.{InRegion}
use light_rpc.BlockPool.Trace.{
  block, Reach, IsApart, allocate, give_back, here, next, Reach-IsApart,
}

-- The first page of memory is what posix_memalign gives.
abbrev page_if : Bool → Option ℕ
page_if true = some 4096
page_if false = none

abbrev first_page : ℕ → Option ℕ
first_page size = page_if (leb size (2 ^ 40))

page_if_fits :
    (size base : ℕ) (b : Bool)
    → leb size (2 ^ 40) ≡ b
    → page_if b ≡ some base
    → (base ≢ 0) × (base + size < 2 ^ 64)
page_if_fits size base true small e =
    let same : 4096 ≡ base = cc in (omega (arith, same), ground (arith, same))
page_if_fits size base false long e = absurd cc

first_page-Places : Places first_page
first_page-Places size base e = page_if_fits size base (leb size (2 ^ 40)) refl e

abbrev key_seven : ℕ → ℕ → Option ℕ
key_seven base size = some 7

abbrev no_pool : Pool
no_pool = record {
  regions = [];
  idle = λ t i. [];
  idle_size = λ t i. 0;
  region_num = λ t. 0;
  expansion = λ t i. [];
  expansion_size = λ t i. 0;
  freed = [];
  tls_idle = [];
  tls_idle_num = 0;
  tls_inited = false;
}

no_pool-IsPool : IsPool no_pool
no_pool-IsPool = record {
  idle = λ t i. tt;
  expansion = λ t i. tt;
  cache = tt;
  counted = refl;
  bounded = omega arith;
  regions = tt;
}

-- A region of four blocks, with none idle and none out.
abbrev one_region : Pool
one_region = record no_pool {
  regions = record { start = 4096; size = 32768; block_type = 0; lkey = 7; rkey = 7 } ∷ [];
}

one_region-IsPool : IsPool one_region
one_region-IsPool = record {
  idle = λ t i. tt;
  expansion = λ t i. tt;
  cache = tt;
  counted = refl;
  bounded = omega arith;
  regions = (record { used = omega arith; in_word = omega arith; typed = omega arith }, tt);
}

block_allocate_lem_example :
    AllocOutcome false 5000 2 no_pool (block_allocate first_page key_seven 2 0 5000 no_pool)
block_allocate_lem_example =
    block_allocate_lem first_page key_seven first_page-Places 2 0 5000 no_pool (omega arith)
      no_pool-IsPool

block_deallocate_lem_example :
    Returned 12288 (get_region one_region 12288) one_region (block_deallocate 12288 one_region)
block_deallocate_lem_example = block_deallocate_lem one_region 12288 one_region-IsPool (omega arith)

abbrev one_cached : Pool
one_cached = record one_region { tls_idle = block 12288 0 ∷ []; tls_idle_num = 1 }

one_cached-IsPool : IsPool one_cached
one_cached-IsPool = record {
  idle = λ t i. tt;
  expansion = λ t i. tt;
  cache = (refl, tt);
  counted = refl;
  bounded = omega arith;
  regions = (record { used = omega arith; in_word = omega arith; typed = omega arith }, tt);
}

one_cached-InRegion : All (InRegion one_cached.regions) one_cached.tls_idle
unfolding find_region
one_cached-InRegion = ((omega arith, _, refl), tt)

-- The cached block is taken.
one_cached-IsApart : IsApart one_cached []
unfolding free_at held region_at grid sum_to
one_cached-IsApart = record { valid = one_cached-IsPool; once = λ a. ground arith }

taken_and_back :
    Reach first_page key_seven one_cached []
      (record one_region { tls_idle = block 12288 0 ∷ []; tls_idle_num = 1; tls_inited = true })
      []
unfolding block_allocate alloc_block_from block_deallocate get_region find_region return_to
taken_and_back =
    next (next here (allocate 5000 2 0 12288 one_cached one_region [] (omega arith) refl)) (
      give_back 12288 (record { start = 4096; size = 32768; block_type = 0; lkey = 7; rkey = 7 })
        no_error one_region
        (record one_region { tls_idle = block 12288 0 ∷ []; tls_idle_num = 1; tls_inited = true })
        [] [] (omega arith) refl refl)

Reach-IsApart_example :
    IsApart
      (record one_region { tls_idle = block 12288 0 ∷ []; tls_idle_num = 1; tls_inited = true })
      []
Reach-IsApart_example =
    Reach-IsApart first_page key_seven first_page-Places one_cached-IsApart taken_and_back
