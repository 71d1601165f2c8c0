-- ===== src/BlockPool/Trace.antt =====
-- Sequences of allocations and returns, with the blocks that are out.
use light_rpc.Prelude.{
  ℕ, ◌+◌, ◌≤◌, ◌<◌, ◌≡◌, ◌≢◌, ap, subst, Bool, true, false, List, [], ◌∷◌, ◌++◌, Option, none, some,
  length, ltb, arith,
}
use light_rpc.BlockPool.{
  IdleNode, Region, Pool, block_size, get_region, init_block_pool, initial_region_size,
  extend_block_pool, block_allocate, block_deallocate, DeallocError,
}
use light_rpc.BlockPool.Cover.{held, held-append, free_at, grid, sum_to}
use light_rpc.BlockPool.Well.{IsPool, region_at}
use light_rpc.BlockPool.Extend.{Places, Extended, Extension, extend_block_pool-Extension}
use light_rpc.BlockPool.From.{type_of, Allocated, AllocOutcome, block_allocate_lem}
use light_rpc.BlockPool.Dealloc.{Returned, Returns, block_deallocate_lem}

abbrev pub block : ℕ → ℕ → IdleNode
block ptr t = record { start = ptr; len = block_size t }

-- A pool with the blocks that its clients have. A client may give back any block it has, to the
-- region of the block's type.
pub data Step (memalign : ℕ → Option ℕ) (reg_mr : ℕ → ℕ → Option ℕ)
    : Pool → List IdleNode → Pool → List IdleNode → Type 0 where
  allocate :
      (len index stale ptr : ℕ) (p p' : Pool) (used : List IdleNode)
      → index < 4
      → block_allocate memalign reg_mr index stale len p ≡ some (some ptr, p')
      → Step memalign reg_mr p used p' (block ptr (type_of len) ∷ used)
  refuse :
      (len index stale : ℕ) (p p' : Pool) (used : List IdleNode)
      → index < 4
      → block_allocate memalign reg_mr index stale len p ≡ some (none, p')
      → Step memalign reg_mr p used p' used
  give_back :
      (ptr : ℕ) (r : Region) (error : DeallocError) (p p' : Pool) (xs ys : List IdleNode)
      → ptr ≢ 0
      → get_region p ptr ≡ some r
      → block_deallocate ptr p ≡ some (error, p')
      → Step memalign reg_mr p (xs ++ block ptr r.block_type ∷ ys) p' (xs ++ ys)

pub data Reach (memalign : ℕ → Option ℕ) (reg_mr : ℕ → ℕ → Option ℕ) (p : Pool)
    (used : List IdleNode) : Pool → List IdleNode → Type 0 where
  here : Reach memalign reg_mr p used p used
  next :
      {q r : Pool} {qs rs : List IdleNode}
      → Reach memalign reg_mr p used q qs
      → Step memalign reg_mr q qs r rs
      → Reach memalign reg_mr p used r rs

-- No address is free or out more often than it is in a region.
pub record IsApart (p : Pool) (used : List IdleNode) : Type 0 where
  pub valid : IsPool p
  pub once : (a : ℕ) → free_at a p + held a used ≤ region_at a p.regions

nothing_free :
    (a : ℕ) (p : Pool)
    → p.tls_idle ≡ []
    → free_at a (record p {
      idle = λ t i. [];
      idle_size = λ t i. 0;
      region_num = λ t. 0;
      expansion = λ t i. [];
      expansion_size = λ t i. 0;
    })
      ≡ 0
unfolding free_at held grid sum_to
nothing_free a p c = omega (arith, ap (held a) c)

same_result :
    {A : Type 0} {x y : A} {p q : Pool} {run : Option (A × Pool)}
    → run ≡ some (x, p)
    → run ≡ some (y, q)
    → (x ≡ y) × (p ≡ q)
same_result e f = (cc, cc)

allocated :
    (b : Bool) (len index : ℕ) (p p' : Pool) (r : Option ℕ) (run : Option (Option ℕ × Pool))
    → AllocOutcome b len index p run
    → run ≡ some (r, p')
    → IsPool p
    → Allocated (type_of len) p r p'
allocated true len index p p' r run o e v =
    let (null, same) = same_result o e in
    subst (λ x. Allocated (type_of len) p x p') null
      (subst (Allocated (type_of len) p none) same (record { valid = v; block = λ a. omega arith }))
allocated false len index p p' r run (fits, (r2, q, e2, served, d)) e v =
    let (s, same) = same_result e2 e in
    subst (λ x. Allocated (type_of len) p x p') s (subst (Allocated (type_of len) p r2) same d)

returned :
    (p : Pool) (ptr : ℕ) (r : Region) (error : DeallocError) (p' : Pool)
    → get_region p ptr ≡ some r
    → Returned ptr (get_region p ptr) p (block_deallocate ptr p)
    → block_deallocate ptr p ≡ some (error, p')
    → Returns ptr (block_size r.block_type) p p'
returned p ptr r error p' known o e =
    let (q, e2, d) = subst (λ x. Returned ptr x p (block_deallocate ptr p)) known o in
    let (_, same) = same_result e2 e in subst (Returns ptr (block_size r.block_type) p) same d

module _ (memalign : ℕ → Option ℕ) (reg_mr : ℕ → ℕ → Option ℕ) (places : Places memalign) where
  Step-IsApart :
      {p p' : Pool} {used used' : List IdleNode}
      → Step memalign reg_mr p used p' used'
      → IsApart p used
      → IsApart p' used'
  unfolding held
  Step-IsApart (allocate len index stale ptr p p' used hi e) h =
      let d =
        allocated _ len index p p' (some ptr) _
          (block_allocate_lem memalign reg_mr places index stale len p hi h.valid) e h.valid in
      record { valid = d.valid; once = λ a. omega (arith, h.once a, d.block a) }
  Step-IsApart (refuse len index stale p p' used hi e) h =
      let d =
        allocated _ len index p p' none _
          (block_allocate_lem memalign reg_mr places index stale len p hi h.valid) e h.valid in
      record { valid = d.valid; once = λ a. omega (arith, h.once a, d.block a) }
  Step-IsApart (give_back ptr r error p p' xs ys used known e) h =
      let d = returned p ptr r error p' known (block_deallocate_lem p ptr h.valid used) e in
      record {
        valid = d.valid;
        once = λ a. omega (
          arith,
          h.once a,
          d.free a,
          ap (region_at a) d.regions,
          held-append a xs (block ptr r.block_type ∷ ys),
          held-append a xs ys,
        );
      }

  -- From a pool in which no address is free more often than it is in a region, the blocks
  -- that are out included, every sequence of allocations and returns, where a client returns only blocks that it has, leaves
  -- a well-formed pool in which no address is free and in blocks that are out more often, all
  -- together, than it is in a region: where the regions do not overlap, no byte is in two blocks that
  -- are out, and none is both out and free.
  pub Reach-IsApart :
      {p : Pool} {used : List IdleNode} {p' : Pool} {used' : List IdleNode}
      → IsApart p used
      → Reach memalign reg_mr p used p' used'
      → IsApart p' used'
  Reach-IsApart h here = h
  Reach-IsApart h (next steps step) = Step-IsApart step (Reach-IsApart h steps)

  extended :
      {t index : ℕ} {p : Pool} (r : Option ℕ × Pool)
      → Extension t index p r
      → Extended t index p r.1
  extended (none, q) (d, same) = d
  extended (some base, q) (d, spare) = d

  -- The pool starts in order: where the protection domain is set, nothing was registered and the
  -- thread's cache is empty, `InitBlockPool` leaves a well-formed pool with no block out in which no
  -- address is free more often than it is in a region.
  pub init_block_pool-IsApart :
      (p : Pool)
      → p.regions ≡ []
      → p.tls_idle ≡ []
      → p.tls_idle_num ≡ 0
      → IsApart (init_block_pool memalign reg_mr true p).1 []
  unfolding init_block_pool held
  init_block_pool-IsApart p r c n =
      let fresh : Pool = record p {
        idle = λ t i. [];
        idle_size = λ t i. 0;
        region_num = λ t. 0;
        expansion = λ t i. [];
        expansion_size = λ t i. 0;
      } in
      let valid : IsPool fresh = record {
        idle = λ t i. tt;
        expansion = λ t i. tt;
        cache = rw c tt;
        counted = omega (arith, n, ap length c);
        bounded = omega (arith, ap length c);
        regions = rw r tt;
      } in
      let first : ltb 0 (length p.regions) ≡ false = ground (arith, ap length r) in
      let run = extend_block_pool memalign reg_mr initial_region_size 0 fresh in
      let d = extended run (
        extend_block_pool-Extension memalign reg_mr places 0 0 (omega arith) (omega arith) fresh
          valid) in
      rw first (record { valid = d.valid; once = λ a. omega (arith, d.free a, nothing_free a p c) })
