-- ===== src/BlockPool/Extend.antt =====
-- A new region, and the extents kept for an expansion.
use light_rpc.Prelude.{
  ℕ, zero, suc, ◌+◌, ◌*◌, ◌/◌, ◌^◌, ◌<◌, ◌≡◌, ◌≢◌, refl, ap, subst, ◌∙◌, inl, inr, true, Bool-cases,
  List, [], ◌∷◌, ◌++◌, All, Option, none, some, length, ◌==◌, arith,
}
use light_rpc.BlockPool.{
  IdleNode, Region, Pool, block_size, buckets, max_regions, initial_region_size, add_extent,
  add_region, with_key, with_base, extend_impl, region_bytes, extend_block_pool, move_expansion,
}
use light_rpc.BlockPool.Cover.{covers, held, free_at, grid-update2, update2_self}
use light_rpc.BlockPool.Well.{IsPool, IsRegion, All-update2, region_at, region_at-append}

-- 1 GB, in the four buckets; a quarter is a number of whole blocks.
abbrev pub region_size : ℕ
region_size = 1073741824

region_bytes_lem : (t : ℕ) → region_bytes initial_region_size t ≡ region_size
region_bytes_lem zero = refl
region_bytes_lem (suc zero) = refl
region_bytes_lem (suc (suc t)) = refl

quarter_blocks : (t : ℕ) → (k : ℕ) × (region_size / buckets ≡ suc k * block_size t)
quarter_blocks zero = (32767, omega arith)
quarter_blocks (suc zero) = (4095, omega arith)
quarter_blocks (suc (suc t)) = (127, omega arith)

-- A bucket has an extent for an expansion.
abbrev Spare : ℕ → ℕ → Pool → Type 0
Spare t j p = (n : IdleNode) × (ns : List IdleNode) × (p.expansion t j ≡ n ∷ ns)

-- An operation that adds `more` to the free lists, the idle lists and the cache as they were.
record Adds (more : ℕ → ℕ) (p p' : Pool) : Type 0 where
  valid : IsPool p'
  free : (a : ℕ) → free_at a p' ≡ free_at a p + more a
  cache : p'.tls_idle ≡ p.tls_idle
  idle : p'.idle ≡ p.idle

abbrev quarter : ℕ → ℕ → IdleNode
quarter base i = record { start = base + i * (region_size / buckets); len = region_size / buckets }

module _ (base t i : ℕ) (p : Pool) where
  add_extent-Adds :
      IsPool p
      → t < 3
      → i < 4
      → Adds
          (covers (base + i * (region_size / buckets)) (region_size / buckets))
          p
          (add_extent base region_size t i p)
  unfolding free_at held
  add_extent-Adds v ht hi = record {
    valid = record {
      idle = v.idle;
      expansion =
          All-update2 p.expansion t i (quarter base i ∷ p.expansion t i) v.expansion
            (quarter_blocks t, v.expansion t i);
      cache = v.cache;
      counted = v.counted;
      bounded = v.bounded;
      regions = v.regions;
    };
    free =
        λ a. omega (arith, grid-update2 a p.expansion t i (quarter base i ∷ p.expansion t i) ht hi);
    cache = refl;
    idle = refl;
  }

  add_extent-Spare_self : Spare t i (add_extent base region_size t i p)
  add_extent-Spare_self = (
    quarter base i,
    p.expansion t i,
    update2_self p.expansion t i (quarter base i ∷ p.expansion t i),
  )

  add_extent-Spare : (j : ℕ) → Spare t j p → Spare t j (add_extent base region_size t i p)
  add_extent-Spare j s = elim (Bool-cases (i == j)) [
    | inl e ↦
        let same : i ≡ j = ground arith in
        subst (λ k. Spare t k (add_extent base region_size t i p)) same add_extent-Spare_self
    | inr e ↦ let here : (t == t) ≡ true = ground arith in rw (here, e) s
  ]

Adds-trans : {f g : ℕ → ℕ} {p q r : Pool} → Adds f p q → Adds g q r → Adds (λ a. f a + g a) p r
Adds-trans d e = record {
  valid = e.valid;
  free = λ a. omega (arith, d.free a, e.free a);
  cache = e.cache ∙ d.cache;
  idle = e.idle ∙ d.idle;
}

-- Each bucket has its quarter.
spares :
    (base t index : ℕ) (p : Pool)
    → index < 4
    → Spare t index (
        add_extent base region_size t 3 (
          add_extent base region_size t 2
            (add_extent base region_size t 1 (add_extent base region_size t 0 p))))
spares base t index p h = by_index index h
  where
    q1 : Pool
    q1 = add_extent base region_size t 0 p

    q2 : Pool
    q2 = add_extent base region_size t 1 q1

    q3 : Pool
    q3 = add_extent base region_size t 2 q2

    by_index : (index : ℕ) → index < 4 → Spare t index (add_extent base region_size t 3 q3)
    by_index zero h = add_extent-Spare base t 3 q3 0 (
        add_extent-Spare base t 2 q2 0
          (add_extent-Spare base t 1 q1 0 (add_extent-Spare_self base t 0 p)))
    by_index (suc zero) h =
        add_extent-Spare base t 3 q3 1
          (add_extent-Spare base t 2 q2 1 (add_extent-Spare_self base t 1 q1))
    by_index (suc (suc zero)) h = add_extent-Spare base t 3 q3 2 (add_extent-Spare_self base t 2 q2)
    by_index (suc (suc (suc zero))) h = add_extent-Spare_self base t 3 q3
    by_index (suc (suc (suc (suc k)))) h = absurd (omega arith)

-- What an extension of the pool leaves: a new region whose bytes are all free, with an extent for each
-- bucket, or nothing new.
pub record Extended (t index : ℕ) (p p' : Pool) : Type 0 where
  pub valid : IsPool p'
  pub free : (a : ℕ) → free_at a p' + region_at a p.regions ≡ free_at a p + region_at a p'.regions
  pub cache : p'.tls_idle ≡ p.tls_idle
  pub idle : p'.idle ≡ p.idle

abbrev pub Extension : ℕ → ℕ → Pool → Option ℕ × Pool → Type 0
Extension t index p (none, p') = Extended t index p p' × (p'.regions ≡ p.regions)
Extension t index p (some base, p') = Extended t index p p' × Spare t index p'

-- The four quarters are the region.
quarters :
    (base a : ℕ)
    → covers (base + 0 * (region_size / buckets)) (region_size / buckets) a
        + covers (base + 1 * (region_size / buckets)) (region_size / buckets) a
        + covers (base + 2 * (region_size / buckets)) (region_size / buckets) a
        + covers (base + 3 * (region_size / buckets)) (region_size / buckets) a
      ≡ covers base region_size a
quarters base a = ground arith

All-region :
    (rs : List Region) (r : Region) → All IsRegion rs → IsRegion r → All IsRegion (rs ++ r ∷ [])
All-region [] r a h = (h, tt)
All-region (x ∷ rs) r a h = (a.0, All-region rs r a.1 h)

-- The documented behaviour of posix_memalign: not null, and within the address space.
abbrev pub Places : (ℕ → Option ℕ) → Type 0
Places memalign = (size base : ℕ) → memalign size ≡ some base → (base ≢ 0) × (base + size < 2 ^ 64)

freed_Extended :
    (t index base : ℕ) (p : Pool)
    → IsPool p
    → Extended t index p (record p { freed = base ∷ p.freed })
unfolding free_at
freed_Extended t index base p v = record {
  valid = record {
    idle = v.idle;
    expansion = v.expansion;
    cache = v.cache;
    counted = v.counted;
    bounded = v.bounded;
    regions = v.regions;
  };
  free = λ a. refl;
  cache = refl;
  idle = refl;
}

add_region-free :
    (base t key a : ℕ) (p : Pool)
    → (free_at a (add_region base region_size t key p) ≡ free_at a p)
      × (region_at a (add_region base region_size t key p).regions
          ≡ region_at a p.regions + covers base region_size a)
unfolding free_at region_at
add_region-free base t key a p = (
  refl,
  omega (
    arith,
    region_at-append a p.regions
        (record { start = base; size = region_size; block_type = t; lkey = key; rkey = key } ∷ []),
  ),
)

add_region-IsPool :
    (base t key : ℕ) (p : Pool)
    → IsPool p
    → t < 3
    → base ≢ 0
    → base + region_size < 2 ^ 64
    → IsPool (add_region base region_size t key p)
add_region-IsPool base t key p v ht h f = record {
  idle = v.idle;
  expansion = v.expansion;
  cache = v.cache;
  counted = v.counted;
  bounded = v.bounded;
  regions = All-region p.regions _ v.regions (record { used = h; in_word = f; typed = ht });
}

module _ (memalign : ℕ → Option ℕ) (reg_mr : ℕ → ℕ → Option ℕ) (places : Places memalign)
    (t index : ℕ) (ht : t < 3) (hi : index < 4) (p : Pool) (v : IsPool p) where
  with_key-Extension :
      (base : ℕ) (key : Option ℕ)
      → base ≢ 0
      → base + region_size < 2 ^ 64
      → Extension t index p (with_key memalign reg_mr base region_size t key p)
  with_key-Extension base none h f = (freed_Extended t index base p v, refl)
  with_key-Extension base (some key) h f = elim (Bool-cases (key == 0)) [
    | inl e ↦ rw e (freed_Extended t index base p v, refl)
    | inr e ↦
        let p0 = add_region base region_size t key p in
        let p1 = add_extent base region_size t 0 p0 in
        let p2 = add_extent base region_size t 1 p1 in
        let p3 = add_extent base region_size t 2 p2 in
        let d0 =
          add_extent-Adds base t 0 p0 (add_region-IsPool base t key p v ht h f) ht (omega arith) in
        let d1 = add_extent-Adds base t 1 p1 d0.valid ht (omega arith) in
        let d2 = add_extent-Adds base t 2 p2 d1.valid ht (omega arith) in
        let d3 = add_extent-Adds base t 3 p3 d2.valid ht (omega arith) in
        let all = Adds-trans (Adds-trans (Adds-trans d0 d1) d2) d3 in
        rw e (
          record {
            valid = all.valid;
            free = λ a. omega (
              arith,
              all.free a,
              quarters base a,
              (add_region-free base t key a p).0,
              (add_region-free base t key a p).1,
            );
            cache = all.cache;
            idle = all.idle;
          },
          spares base t index p0 hi,
        )
  ]

  with_base-Extension :
      (base : Option ℕ)
      → memalign region_size ≡ base
      → Extension t index p (with_base memalign reg_mr region_size t base p)
  unfolding extend_impl free_at
  with_base-Extension none e =
      (record { valid = v; free = λ a. refl; cache = refl; idle = refl }, refl)
  with_base-Extension (some base) e =
      let (named, in_word) = places region_size base e in
      elim (Bool-cases (length p.regions == max_regions)) [
        | inl full ↦ rw full (freed_Extended t index base p v, refl)
        | inr room ↦ rw room (with_key-Extension base (reg_mr base region_size) named in_word)
      ]

  pub extend_block_pool-Extension :
      Extension t index p (extend_block_pool memalign reg_mr initial_region_size t p)
  unfolding extend_block_pool
  extend_block_pool-Extension =
      rw (region_bytes_lem t) (with_base-Extension (memalign region_size) refl)

-- Moving the extents kept for an expansion to an empty idle list changes nothing that is free.
pub move_expansion_lem :
    (t i : ℕ) (p : Pool)
    → IsPool p
    → t < 3
    → i < 4
    → p.idle t i ≡ []
    → IsPool (move_expansion t i p)
      × ((a : ℕ) → free_at a (move_expansion t i p) ≡ free_at a p)
      × ((move_expansion t i p).idle t i ≡ p.expansion t i)
unfolding free_at held
move_expansion_lem t i p v ht hi e = (
  record {
    idle = All-update2 p.idle t i (p.expansion t i) v.idle (v.expansion t i);
    expansion = All-update2 p.expansion t i [] v.expansion tt;
    cache = v.cache;
    counted = v.counted;
    bounded = v.bounded;
    regions = v.regions;
  },
  λ a. omega (
    arith,
    grid-update2 a p.idle t i (p.expansion t i) ht hi,
    grid-update2 a p.expansion t i [] ht hi,
    ap (held a) e,
  ),
  update2_self p.idle t i (p.expansion t i),
)
