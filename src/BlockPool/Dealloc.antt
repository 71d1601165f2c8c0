-- ===== src/BlockPool/Dealloc.antt =====
-- Return of a block (BlockDeallocate) and of a thread's cache (RecycleAll).
use light_rpc.Prelude.{
  ℕ, zero, suc, ◌+◌, ◌/◌, ◌≤◌, ◌<◌, ◌≡◌, ◌≢◌, refl, ap, subst, inl, inr, Bool, true, false, ◌&&◌,
  Bool-cases, List, [], ◌∷◌, ◌++◌, All, Option, none, some, length, take, drop, take-append-drop,
  length-drop, ltb, leb, ◌==◌, arith,
}
use light_rpc.Prelude.Bits.{add64}
use light_rpc.BlockPool.{
  IdleNode, Region, Pool, block_size, tls_cache_num, update2, find_region, get_region, bucket_of,
  split_nodes, prepend_node, give_half, return_to, return_block, block_deallocate, DeallocError,
  no_error, out_of_range,
}
use light_rpc.BlockPool.Cover.{covers, held, held-append, free_at, grid-update2}
use light_rpc.BlockPool.Well.{
  IsExtent, IsOneBlock, IsRegion, IsPool, All-take, All-update2, All-both, All-weaken,
  IsOneBlock-IsExtent,
}

-- A region that holds an address.
pub record Holds (r : Region) (addr : ℕ) : Type 0 where
  pub region : IsRegion r
  low : r.start ≤ addr
  high : addr < r.start + r.size

pub find_region-Holds :
    (rs : List Region) (addr : ℕ) (r : Region)
    → All IsRegion rs
    → find_region rs addr ≡ some r
    → Holds r addr
unfolding find_region
find_region-Holds [] addr r a e = absurd cc
find_region-Holds (q ∷ rs) addr r a e = elim (Bool-cases (q.start == 0)) [
  | inl z ↦ absurd (a.0.used (ground arith))
  | inr z ↦ elim (Bool-cases (leb q.start addr && ltb addr (add64 q.start q.size))) [
    | inl i ↦ let same : q ≡ r = cc in subst (λ x. Holds x addr) same (here i a.0)
    | inr o ↦ find_region-Holds rs addr r a.1 cc
  ]
]
  where
    here : leb q.start addr && ltb addr (add64 q.start q.size) ≡ true → IsRegion q → Holds q addr
    here i v = record { region = v; low = ground arith; high = ground (arith, v.in_word) }

pub bucket_of_bound : (r : Region) (addr : ℕ) → Holds r addr → bucket_of addr r < 4
bucket_of_bound r addr h = grind (arith, h.low, h.high)

split_nodes_lem :
    (k : ℕ) (ns : List IdleNode) → k ≤ length ns → split_nodes k ns ≡ some (take k ns, drop k ns)
unfolding split_nodes
split_nodes_lem zero ns h = refl
split_nodes_lem (suc k) [] h = absurd (omega arith)
split_nodes_lem (suc k) (n ∷ ns) h = ap (prepend_node n) (split_nodes_lem k ns (omega arith))

All-drop : (P : IdleNode → Type 0) (k : ℕ) (ns : List IdleNode) → All P ns → All P (drop k ns)
All-drop P zero ns a = a
All-drop P (suc k) [] a = tt
All-drop P (suc k) (n ∷ ns) a = All-drop P k ns a.1

-- A return that adds the block to what is free.
pub record Returns (buf len : ℕ) (p p' : Pool) : Type 0 where
  pub valid : IsPool p'
  pub free : (a : ℕ) → free_at a p' ≡ free_at a p + covers buf len a
  pub regions : p'.regions ≡ p.regions

module _ (p : Pool) (v : IsPool p) (buf : ℕ) where
  to_cache :
      (inited : Bool)
      → ltb p.tls_idle_num tls_cache_num ≡ true
      → Returns buf (block_size 0) p (record p {
        tls_inited = inited;
        tls_idle = record { start = buf; len = block_size 0 } ∷ p.tls_idle;
        tls_idle_num = add64 p.tls_idle_num 1;
      })
  unfolding free_at held
  to_cache inited h = record {
    valid = record {
      idle = v.idle;
      expansion = v.expansion;
      cache = (refl, v.cache);
      counted = ground (arith, v.counted);
      bounded = ground (arith, v.counted);
      regions = v.regions;
    };
    free = λ a. omega arith;
    regions = refl;
  }

  to_bucket :
      (t i : ℕ)
      → t < 3
      → i < 4
      → let node : IdleNode = record { start = buf; len = block_size t } in
        Returns buf (block_size t) p (record p {
          idle = update2 p.idle t i (node ∷ p.idle t i);
          idle_size = update2 p.idle_size t i (add64 (p.idle_size t i) (block_size t));
        })
  unfolding free_at held
  to_bucket t i ht hi =
      let node : IdleNode = record { start = buf; len = block_size t } in
      record {
        valid = record {
          idle = All-update2 p.idle t i (node ∷ p.idle t i) v.idle ((0, omega arith), v.idle t i);
          expansion = v.expansion;
          cache = v.cache;
          counted = v.counted;
          bounded = v.bounded;
          regions = v.regions;
        };
        free = λ a. omega (arith, grid-update2 a p.idle t i (node ∷ p.idle t i) ht hi);
        regions = refl;
      }

  -- The cache is full: half of it goes before the block.
  half_back :
      (i : ℕ)
      → i < 4
      → ltb p.tls_idle_num tls_cache_num ≡ false
      → let node : IdleNode = record { start = buf; len = block_size 0 } in
        (p' : Pool) × (give_half node i (split_nodes (tls_cache_num / 2) p.tls_idle) p ≡ some p')
        × Returns buf (block_size 0) p p'
  unfolding free_at held
  half_back i hi full =
      let node : IdleNode = record { start = buf; len = block_size 0 } in
      let half = take 64 p.tls_idle in
      let rest = drop 64 p.tls_idle in
      let back = half ++ node ∷ p.idle 0 i in
      let enough : 64 ≤ length p.tls_idle = ground (arith, v.counted) in
      let half_blocks =
        All-weaken IsOneBlock (IsExtent 0) half IsOneBlock-IsExtent
          (All-take IsOneBlock 64 p.tls_idle v.cache) in
      (
        _,
        ap (λ s. give_half node i s p) (split_nodes_lem 64 p.tls_idle enough),
        record {
          valid = record {
            idle = All-update2 p.idle 0 i back v.idle (
                All-both (IsExtent 0) half (node ∷ p.idle 0 i) half_blocks
                  ((0, omega arith), v.idle 0 i));
            expansion = v.expansion;
            cache = All-drop IsOneBlock 64 p.tls_idle v.cache;
            counted = ground (arith, v.counted, v.bounded, length-drop 64 p.tls_idle);
            bounded = omega (arith, v.bounded, length-drop 64 p.tls_idle);
            regions = v.regions;
          };
          free = λ a. omega (
            arith,
            grid-update2 a p.idle 0 i back (omega arith) hi,
            held-append a half (node ∷ p.idle 0 i),
            held-append a half rest,
            ap (held a) (take-append-drop 64 p.tls_idle),
          );
          regions = refl;
        },
      )

-- What a return makes of the pool, by the region of the address.
abbrev pub Returned : ℕ → Option Region → Pool → Option (DeallocError × Pool) → Type 0
Returned buf none p run = run ≡ some (out_of_range, p)
Returned buf (some r) p run =
    (p' : Pool) × (run ≡ some (no_error, p')) × Returns buf (block_size r.block_type) p p'

return_to-Returns :
    (p : Pool) (v : IsPool p) (t i buf : ℕ)
    → t < 3
    → i < 4
    → (p' : Pool) × (return_to t i buf p ≡ some (no_error, p')) × Returns buf (block_size t) p p'
unfolding return_to
return_to-Returns p v zero i buf ht hi = elim (Bool-cases (ltb p.tls_idle_num tls_cache_num)) [
  | inl room ↦ rw room (_, refl, to_cache p v buf true room)
  | inr full ↦
      let (p', e, returned) = half_back p v buf i hi full in rw (full, e) (p', refl, returned)
]
return_to-Returns p v (suc t) i buf ht hi = (_, refl, to_bucket p v buf (suc t) i ht hi)

by_region :
    (p : Pool) (buf : ℕ) (o : Option Region)
    → IsPool p
    → find_region p.regions buf ≡ o
    → Returned buf o p (return_block buf o p)
by_region p buf none v e = refl
by_region p buf (some r) v e =
    let h = find_region-Holds p.regions buf r v.regions e in
    return_to-Returns p v r.block_type (bucket_of buf r) buf h.region.typed
      (bucket_of_bound r buf h)

-- In a well-formed pool the return of an address that is not null never stops: outside of every
-- region it is an ERANGE error that changes nothing; inside of one it gives a well-formed pool in
-- which exactly one block of the region's size is free in addition, also where the thread's cache is
-- full and half of it goes back to the bucket.
pub block_deallocate_lem :
    (p : Pool) (buf : ℕ)
    → IsPool p
    → buf ≢ 0
    → Returned buf (get_region p buf) p (block_deallocate buf p)
unfolding block_deallocate get_region
block_deallocate_lem p buf v h =
    let used : (buf == 0) ≡ false = ground arith in
    rw used (by_region p buf (find_region p.regions buf) v refl)
