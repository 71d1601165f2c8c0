-- ===== src/BlockPool/From.antt =====
-- `AllocBlockFrom` and `BlockAllocate` as a whole.
use light_rpc.Prelude.{
  ℕ, zero, suc, ◌+◌, ◌≤◌, ◌<◌, ◌≡◌, refl, ap, subst, ◌∙◌, ◌⊎◌, inl, inr, Bool, true, false, ◌||◌,
  Bool-cases, List, [], ◌∷◌, All, Option, none, some, length, ltb, leb, ◌==◌, if◌then◌else◌, arith,
}
use light_rpc.Prelude.Bits.{sub64}
use light_rpc.BlockPool.{
  IdleNode, Pool, block_size, is_default, move_expansion, take_block, after_extend, from_expansion,
  from_bucket, from_tls, alloc_block_from, block_allocate, extend_block_pool, initial_region_size,
}
use light_rpc.BlockPool.Cover.{covers, held, free_at}
use light_rpc.BlockPool.Well.{IsOneBlock, IsPool, region_at}
use light_rpc.BlockPool.Alloc.{Taken, take_block-Taken}
use light_rpc.BlockPool.Extend.{Places, Extension, extend_block_pool-Extension, move_expansion_lem}

abbrev pub given : ℕ → Option ℕ → ℕ → ℕ
given t none a = 0
given t (some ptr) a = covers ptr (block_size t) a

-- What an allocation of type `t` leaves: the block was free, in the pool or in a new region.
pub record Allocated (t : ℕ) (p : Pool) (r : Option ℕ) (p' : Pool) : Type 0 where
  pub valid : IsPool p'
  pub block :
      (a : ℕ)
      → free_at a p' + given t r a + region_at a p.regions ≤ free_at a p + region_at a p'.regions

-- A block is given.
abbrev Gives : ℕ → Pool → Option (Option ℕ × Pool) → Type 0
Gives t p run = (ptr : ℕ) × (p' : Pool) × (run ≡ some (some ptr, p')) × Allocated t p (some ptr) p'

-- A block is given, or null where the bucket has none.
abbrev pub Served : ℕ → ℕ → Pool → Option ℕ → Type 0
Served t index p r =
    ((ptr : ℕ) × (r ≡ some ptr)) ⊎ ((p.idle t index ≡ []) × (p.expansion t index ≡ []))

abbrev pub Allocates : ℕ → ℕ → Pool → Option (Option ℕ × Pool) → Type 0
Allocates t index p run =
    (r : Option ℕ) × (p' : Pool) × (run ≡ some (r, p')) × Served t index p r × Allocated t p r p'

Gives-Allocates :
    (t index : ℕ) (p : Pool) (run : Option (Option ℕ × Pool))
    → Gives t p run
    → Allocates t index p run
Gives-Allocates t index p run (ptr, p', e, d) = (some ptr, p', e, inl (ptr, refl), d)

-- First other steps that lose nothing, then the allocation.
after_steps :
    (t : ℕ) (p q : Pool) (run : Option (Option ℕ × Pool))
    → ((a : ℕ) → free_at a q + region_at a p.regions ≡ free_at a p + region_at a q.regions)
    → Gives t q run
    → Gives t p run
after_steps t p q run h (ptr, p', e, d) =
    (ptr, p', e, record { valid = d.valid; block = λ a. omega (arith, d.block a, h a) })

from_taken :
    (stale t i : ℕ) (ns : List IdleNode) (p : Pool)
    → (n : IdleNode) × (rest : List IdleNode) × (ns ≡ n ∷ rest)
    → Taken stale t i ns p
    → Gives t p (take_block stale t i ns p)
from_taken stale t i [] p (n, rest, e) taken = absurd (omega (arith, ap length e))
from_taken stale t i (n ∷ ns) p e (p', run, valid, less, regions) = (
  n.start,
  p',
  run,
  record { valid = valid; block = λ a. omega (arith, less a, ap (region_at a) regions) },
)

module _ (memalign : ℕ → Option ℕ) (reg_mr : ℕ → ℕ → Option ℕ) (places : Places memalign)
    (index stale : ℕ) (hi : index < 4) (t : ℕ) (ht : t < 3) where
  -- An extent taken over from the expansion list.
  moved :
      (p : Pool) (n : IdleNode) (ns : List IdleNode)
      → IsPool p
      → p.idle t index ≡ []
      → (is_default t ≡ true → p.tls_idle ≡ [])
      → p.expansion t index ≡ n ∷ ns
      → let p' = move_expansion t index p in
        Gives t p (take_block stale t index (p'.idle t index) p')
  moved p n ns v e c s =
      let p' = move_expansion t index p in
      let (valid, free, here) = move_expansion_lem t index p v ht hi e in
      after_steps t p p' (take_block stale t index (p'.idle t index) p')
        (λ a. omega (arith, free a))
        (from_taken stale t index (p'.idle t index) p' (n, ns, here ∙ s)
          (take_block-Taken stale t index (p'.idle t index) p' valid ht hi refl c))

  after_extend-Allocates :
      (p : Pool) (r : Option ℕ × Pool)
      → p.idle t index ≡ []
      → p.expansion t index ≡ []
      → (is_default t ≡ true → p.tls_idle ≡ [])
      → Extension t index p r
      → Allocates t index p (after_extend memalign reg_mr index stale t r)
  after_extend-Allocates p (none, q) e x c (ext, same) = (
    none,
    q,
    refl,
    inr (e, x),
    record { valid = ext.valid; block = λ a. omega (arith, ext.free a) },
  )
  after_extend-Allocates p (some base, q) e x c (ext, (n, ns, s)) = Gives-Allocates t index p _ (
      after_steps t p q _ ext.free
        (moved q n ns ext.valid (ap (λ f. f t index) ext.idle ∙ e) (λ d. ext.cache ∙ c d) s))

  from_expansion-Allocates :
      (p : Pool) (ns : List IdleNode)
      → IsPool p
      → p.idle t index ≡ []
      → (is_default t ≡ true → p.tls_idle ≡ [])
      → p.expansion t index ≡ ns
      → Allocates t index p (from_expansion memalign reg_mr index stale t ns p)
  from_expansion-Allocates p [] v e c s =
      after_extend-Allocates p (extend_block_pool memalign reg_mr initial_region_size t p) e s c
        (extend_block_pool-Extension memalign reg_mr places t index ht hi p v)
  from_expansion-Allocates p (n ∷ ns) v e c s =
      let p' = move_expansion t index p in
      let here = (move_expansion_lem t index p v ht hi e).2 ∙ s in
      Gives-Allocates t index p _
        (subst (λ l. Gives t p (take_block stale t index l p')) here (moved p n ns v e c s))

  from_bucket-Allocates :
      (p : Pool) (ns : List IdleNode)
      → IsPool p
      → (is_default t ≡ true → p.tls_idle ≡ [])
      → p.idle t index ≡ ns
      → Allocates t index p (from_bucket memalign reg_mr index stale t ns p)
  from_bucket-Allocates p [] v c e = from_expansion-Allocates p (p.expansion t index) v e c refl
  from_bucket-Allocates p (n ∷ ns) v c e = Gives-Allocates t index p _ (
      from_taken stale t index (n ∷ ns) p (n, ns, refl)
        (take_block-Taken stale t index (n ∷ ns) p v ht hi e c))

  -- A block of the thread's cache.
  cached :
      (p : Pool) (n : IdleNode) (ns : List IdleNode)
      → IsPool p
      → t ≡ 0
      → p.tls_idle ≡ n ∷ ns
      → Allocated t p
          (some n.start)
          (record p { tls_idle = ns; tls_idle_num = sub64 p.tls_idle_num 1 })
  unfolding free_at held
  cached p n ns v t0 e =
      let (one, rest) = subst (All IsOneBlock) e v.cache in
      record {
        valid = record {
          idle = v.idle;
          expansion = v.expansion;
          cache = rest;
          counted = omega (arith, v.counted, v.bounded, ap length e);
          bounded = omega (arith, v.bounded, ap length e);
          regions = v.regions;
        };
        block = λ a. rw t0 (omega (arith, ap (held a) e, ap (λ (l : ℕ). covers n.start l a) one));
      }

  from_tls-Allocates :
      (p : Pool) (ns : List IdleNode)
      → IsPool p
      → p.tls_idle ≡ ns
      → Allocates t index p (from_tls memalign reg_mr index stale t ns p)
  from_tls-Allocates p [] v e = from_bucket-Allocates p (p.idle t index) v (λ d. e) refl
  from_tls-Allocates p (n ∷ ns) v e = elim (Bool-cases (is_default t)) [
    | inl d ↦
        rw d (some n.start, _, refl, inl (n.start, refl), cached p n ns v (default_zero t d) e)
    | inr d ↦ rw d (from_bucket-Allocates p (p.idle t index) v (λ d'. cc) refl)
  ]
    where
      default_zero : (t : ℕ) → is_default t ≡ true → t ≡ 0
      default_zero zero h = refl
      default_zero (suc t) h = cc

  alloc_block_from-Allocates :
      (p : Pool) → IsPool p → Allocates t index p (alloc_block_from memalign reg_mr index stale t p)
  unfolding alloc_block_from
  alloc_block_from-Allocates p v = from_tls-Allocates p p.tls_idle v refl

-- The type of the blocks that an allocation of `len` bytes gives.
abbrev pub type_of : ℕ → ℕ
type_of len = if leb len (block_size 0) then 0 else if leb len (block_size 1) then 1 else 2

-- What comes of an allocation, by whether the number of bytes is refused.
abbrev pub AllocOutcome : Bool → ℕ → ℕ → Pool → Option (Option ℕ × Pool) → Type 0
AllocOutcome true len index p run = run ≡ some (none, p)
AllocOutcome false len index p run =
    (len ≤ block_size (type_of len)) × Allocates (type_of len) index p run

-- Where posix_memalign gives memory within the word, an allocation in a well-formed pool never
-- stops. No bytes, or more than the largest block, give null and the same pool. Otherwise the block's
-- size is enough for the bytes asked for; null is given only where the bucket chosen has no idle node
-- and none kept for an expansion; and each address that is free afterwards or in the block was free
-- before, or is in a region that is new.
pub block_allocate_lem :
    (memalign : ℕ → Option ℕ) (reg_mr : ℕ → ℕ → Option ℕ)
    → Places memalign
    → (index stale len : ℕ) (p : Pool) → index < 4
    → IsPool p
    → AllocOutcome
        (len == 0 || ltb (block_size 2) len)
        len
        index
        p
        (block_allocate memalign reg_mr index stale len p)
unfolding block_allocate
block_allocate_lem memalign reg_mr places index stale len p hi v = elim (Bool-cases (len == 0)) [
  | inl z ↦ rw z refl
  | inr nz ↦ elim (Bool-cases (ltb (block_size 2) len)) [
    | inl long ↦ rw (nz, long) refl
    | inr fits ↦ elim (Bool-cases (leb len (block_size 0))) [
      | inl small ↦ rw (nz, fits, small) (ground arith, alloc 0 (omega arith))
      | inr more ↦ elim (Bool-cases (leb len (block_size 1))) [
        | inl medium ↦ rw (nz, fits, more, medium) (ground arith, alloc 1 (omega arith))
        | inr large ↦ rw (nz, fits, more, large) (ground arith, alloc 2 (omega arith))
      ]
    ]
  ]
]
  where
    alloc : (t : ℕ) → t < 3 → Allocates t index p (alloc_block_from memalign reg_mr index stale t p)
    alloc t ht = alloc_block_from-Allocates memalign reg_mr places index stale hi t ht p v
