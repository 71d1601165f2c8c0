-- ===== src/BlockPool/Recycle.antt =====
-- The recycling of a thread's cache (RecycleAll).
use light_rpc.Prelude.{
  ℕ, ◌+◌, ◌<◌, ◌≡◌, ◌≢◌, refl, sym, ap, subst, ◌∙◌, false, List, [], ◌∷◌, All, some, ◌==◌, arith,
}
use light_rpc.BlockPool.{
  IdleNode, Region, Pool, update2, find_region, get_region, bucket_of, recycle_node, recycle_nodes,
  recycle_all,
}
use light_rpc.BlockPool.Cover.{held, free_at, grid-update2}
use light_rpc.BlockPool.Well.{IsOneBlock, IsPool, All-update2, IsOneBlock-IsExtent}
use light_rpc.BlockPool.Dealloc.{find_region-Holds, bucket_of_bound}

-- A node whose region is in the table.
abbrev pub InRegion : List Region → IdleNode → Type 0
InRegion rs n = (n.start ≢ 0) × (r : Region) × (find_region rs n.start ≡ some r)

-- Nodes put in the buckets.
record Recycles (ns : List IdleNode) (p p' : Pool) : Type 0 where
  valid : IsPool p'
  free : (a : ℕ) → free_at a p' ≡ free_at a p + held a ns
  regions : p'.regions ≡ p.regions
  cache : p'.tls_idle ≡ p.tls_idle

in_bucket :
    (p : Pool) (n : IdleNode) (i : ℕ)
    → IsPool p
    → IsOneBlock n
    → i < 4
    → Recycles (n ∷ []) p (record p { idle = update2 p.idle 0 i (n ∷ p.idle 0 i) })
unfolding free_at held
in_bucket p n i v one h = record {
  valid = record {
    idle = All-update2 p.idle 0 i (n ∷ p.idle 0 i) v.idle (IsOneBlock-IsExtent n one, v.idle 0 i);
    expansion = v.expansion;
    cache = v.cache;
    counted = v.counted;
    bounded = v.bounded;
    regions = v.regions;
  };
  free = λ a. omega (arith, grid-update2 a p.idle 0 i (n ∷ p.idle 0 i) (omega arith) h);
  regions = refl;
  cache = refl;
}

recycle_node_lem :
    (p : Pool) (n : IdleNode)
    → IsPool p
    → IsOneBlock n
    → InRegion p.regions n
    → Recycles (n ∷ []) p (recycle_node n (get_region p n.start) p)
unfolding get_region
recycle_node_lem p n v one (used, r, e) =
    let there : (n.start == 0) ≡ false = ground arith in
    rw (there, e)
      (in_bucket p n (bucket_of n.start r) v one
        (bucket_of_bound r n.start (find_region-Holds p.regions n.start r v.regions e)))

recycle_nodes_lem :
    (ns : List IdleNode) (p : Pool)
    → IsPool p
    → All IsOneBlock ns
    → All (InRegion p.regions) ns
    → Recycles ns p (recycle_nodes ns p)
unfolding recycle_nodes held
recycle_nodes_lem [] p v a b = record {
  valid = v;
  free = λ a. omega arith;
  regions = refl;
  cache = refl;
}
recycle_nodes_lem (n ∷ ns) p v a b =
    let q = recycle_node n (get_region p n.start) p in
    let first = recycle_node_lem p n v a.0 b.0 in
    let known = subst (λ rs. All (InRegion rs) ns) (sym first.regions) b.1 in
    let later = recycle_nodes_lem ns q first.valid a.1 known in
    record {
      valid = later.valid;
      free = λ a. omega (arith, first.free a, later.free a);
      regions = later.regions ∙ first.regions;
      cache = later.cache ∙ first.cache;
    }

-- When a thread ends, its cache goes back whole: where the nodes of the cache lie in regions,
-- recycling leaves the pool well-formed with the cache empty, and every address is free as often as
-- it was.
pub recycle_all_lem :
    (p : Pool)
    → IsPool p
    → All (InRegion p.regions) p.tls_idle
    → IsPool (recycle_all p)
      × ((recycle_all p).tls_idle ≡ [])
      × ((a : ℕ) → free_at a (recycle_all p) ≡ free_at a p)
unfolding recycle_all free_at held
recycle_all_lem p v b =
    let q = recycle_nodes p.tls_idle p in
    let d = recycle_nodes_lem p.tls_idle p v v.cache b in
    (
      record {
        idle = d.valid.idle;
        expansion = d.valid.expansion;
        cache = tt;
        counted = refl;
        bounded = omega arith;
        regions = d.valid.regions;
      },
      refl,
      λ a. omega (arith, d.free a, ap (held a) d.cache),
    )
