-- ===== src/BlockPool/Alloc.antt =====
-- Allocation: what it takes out of the free lists.
use light_rpc.Prelude.{
  ℕ, zero, suc, ◌+◌, ◌-◌, ◌*◌, ◌/◌, ◌≤◌, ◌<◌, ◌≡◌, refl, sym, ap, subst, ◌∙◌, inl, inr, true, false,
  Bool-cases, List, [], ◌∷◌, ◌++◌, All, some, length, take, ltb, leb, ◌==◌, if◌then◌else◌, arith,
}
use light_rpc.Prelude.Bits.{sub64}
use light_rpc.BlockPool.{
  is_default, IdleNode, Pool, block_size, tls_cache_num, update2, split_small, fill_tls, take_block,
}
use light_rpc.BlockPool.Cover.{
  covers, covers_split, held, held-take, held-append, free_at, grid-update2, update2_self,
}
use light_rpc.BlockPool.Well.{IsExtent, IsOneBlock, IsPool, All-update2, block_size_pos, All-take}

-- What moves to the cache and what stays.
record Moves (t num : ℕ) (ns : List IdleNode) (moved rest : List IdleNode) (num' : ℕ) : Type 0 where
  all : moved ++ rest ≡ ns
  count : num' ≡ num + length moved
  small : All IsOneBlock moved
  left : All (IsExtent 0) rest
  half : num ≤ 64 → num' ≤ 64

split_small-Moves :
    (num : ℕ) (ns : List IdleNode)
    → All (IsExtent 0) ns
    → let (moved, rest, num') = split_small 0 num ns in Moves 0 num ns moved rest num'
unfolding split_small
split_small-Moves num [] a = record {
  all = refl;
  count = omega arith;
  small = tt;
  left = tt;
  half = λ h. h;
}
split_small-Moves num (n ∷ ns) a = elim (Bool-cases (leb (tls_cache_num / 2) num)) [
  | inl full ↦
      rw full (record { all = refl; count = omega arith; small = tt; left = a; half = λ h. h })
  | inr room ↦ elim (Bool-cases (ltb (block_size 0) n.len)) [
    | inl long ↦
        rw (room, long)
          (record { all = refl; count = omega arith; small = tt; left = a; half = λ h. h })
    | inr one ↦
        let later = split_small-Moves (num + 1) ns a.1 in
        rw (room, one)
          (record {
            all = ap (◌∷◌ n) later.all;
            count = omega (arith, later.count);
            small = (one_block n a.0 one, later.small);
            left = later.left;
            half = λ h. later.half (ground arith);
          })
  ]
]
  where
    one_block : (n : IdleNode) → IsExtent 0 n → ltb (block_size 0) n.len ≡ false → IsOneBlock n
    one_block n (k, e) h = ground arith

-- An operation that leaves a well-formed pool with nothing free that was not, `taken` included.
record Takes (taken : ℕ → ℕ) (p p' : Pool) : Type 0 where
  valid : IsPool p'
  less : (a : ℕ) → free_at a p' + taken a ≤ free_at a p
  regions : p'.regions ≡ p.regions

fill_tls-Takes :
    (i : ℕ) (p : Pool) (moved rest : List IdleNode) (num' : ℕ)
    → IsPool p
    → p.tls_idle ≡ []
    → i < 4
    → Moves 0 p.tls_idle_num (p.idle 0 i) moved rest num'
    → Takes (λ a. 0) p (fill_tls 0 i (moved, rest, num') p)
unfolding free_at held
fill_tls-Takes i p [] rest num' v e h m =
    let none_there : num' ≡ 0 = omega (arith, m.count, v.counted, ap length e) in
    let cache_there : (num' == 0) ≡ true = ground arith in
    rw cache_there (record {
      valid = record {
        idle = All-update2 p.idle 0 i (take 1 rest) v.idle (All-take (IsExtent 0) 1 rest m.left);
        expansion = v.expansion;
        cache = tt;
        counted = none_there;
        bounded = omega arith;
        regions = v.regions;
      };
      less = λ a. omega (
        arith,
        grid-update2 a p.idle 0 i (take 1 rest) (omega arith) h,
        held-take a 1 rest,
        ap (held a) m.all,
        ap (held a) e,
      );
      regions = refl;
    })
fill_tls-Takes i p (n ∷ moved) rest num' v e h m =
    let half = m.half (omega (arith, v.counted, ap length e)) in
    record {
      valid = record {
        idle = All-update2 p.idle 0 i rest v.idle m.left;
        expansion = v.expansion;
        cache = m.small;
        counted = omega (arith, m.count, v.counted, ap length e);
        bounded = omega (arith, half, m.count, v.counted, ap length e);
        regions = v.regions;
      };
      less = λ a. omega (
        arith,
        grid-update2 a p.idle 0 i rest (omega arith) h,
        held-append a (n ∷ moved) rest,
        ap (held a) m.all,
        ap (held a) e,
      );
      regions = refl;
    }

-- What is left of the bucket once a block is cut off its first node, and the block.
abbrev cut_first : ℕ → IdleNode → List IdleNode → List IdleNode
cut_first t n ns =
    if ltb (block_size t) n.len
    then record { start = n.start + block_size t; len = n.len - block_size t } ∷ ns
    else ns

-- `stale` in place of the length of a deleted node.
abbrev cut_len : ℕ → ℕ → IdleNode → ℕ
cut_len stale t n = if ltb (block_size t) n.len then n.len - block_size t else stale

module _ (t : ℕ) (n : IdleNode) (ns : List IdleNode) (a0 : All (IsExtent t) (n ∷ ns)) where
  cut_first-IsExtent : All (IsExtent t) (cut_first t n ns)
  cut_first-IsExtent = elim (Bool-cases (ltb (block_size t) n.len)) [
    | inr e ↦ rw e a0.1
    | inl e ↦ rw e (shorter a0.0 e, a0.1)
  ]
    where
      shorter :
          (k : ℕ) × (n.len ≡ suc k * block_size t)
          → ltb (block_size t) n.len ≡ true
          → (k : ℕ) × (n.len - block_size t ≡ suc k * block_size t)
      shorter (zero, e) h = absurd (ground arith)
      shorter (suc k, e) h = (k, grind arith)

  held-cut_first :
      (a : ℕ) → held a (cut_first t n ns) + covers n.start (block_size t) a ≡ held a (n ∷ ns)
  unfolding held
  held-cut_first a = elim (Bool-cases (ltb (block_size t) n.len)) [
    | inl e ↦ rw e (omega (arith, covers_split n.start n.len (block_size t) a (ground arith)))
    | inr e ↦
        let whole : n.len ≡ block_size t = one a0.0 e in
        rw e (omega (arith, ap (λ (l : ℕ). covers n.start l a) whole))
  ]
    where
      one :
          (k : ℕ) × (n.len ≡ suc k * block_size t)
          → ltb (block_size t) n.len ≡ false
          → n.len ≡ block_size t
      one (zero, e) h = omega arith
      one (suc k, e) h = absurd (grind (arith, block_size_pos t))

Takes-trans : {f : ℕ → ℕ} {p q r : Pool} → Takes f p q → Takes (λ a. 0) q r → Takes f p r
Takes-trans d e = record {
  valid = e.valid;
  less = λ a. omega (arith, d.less a, e.less a);
  regions = e.regions ∙ d.regions;
}

-- The outcome of `take_block`.
abbrev pub Taken : ℕ → ℕ → ℕ → List IdleNode → Pool → Type 0
Taken stale t i [] p = Unit
Taken stale t i (n ∷ ns) p =
    (p' : Pool) × (take_block stale t i (n ∷ ns) p ≡ some (some n.start, p'))
    × IsPool p'
    × ((a : ℕ) → free_at a p' + covers n.start (block_size t) a ≤ free_at a p)
    × (p'.regions ≡ p.regions)

-- The block cut off, in the bucket alone.
abbrev cut_bucket : ℕ → ℕ → ℕ → IdleNode → List IdleNode → Pool → Pool
cut_bucket stale t i n ns p = record p {
  idle = update2 p.idle t i (cut_first t n ns);
  idle_size = update2 p.idle_size t i (sub64 (p.idle_size t i) (cut_len stale t n));
}

cut_bucket-Takes :
    (stale t i : ℕ) (n : IdleNode) (ns : List IdleNode) (p : Pool)
    → IsPool p
    → t < 3
    → i < 4
    → p.idle t i ≡ n ∷ ns
    → All (IsExtent t) (n ∷ ns)
    → Takes (covers n.start (block_size t)) p (cut_bucket stale t i n ns p)
unfolding free_at
cut_bucket-Takes stale t i n ns p v ht hi e a0 = record {
  valid = record {
    idle = All-update2 p.idle t i (cut_first t n ns) v.idle (cut_first-IsExtent t n ns a0);
    expansion = v.expansion;
    cache = v.cache;
    counted = v.counted;
    bounded = v.bounded;
    regions = v.regions;
  };
  less = λ a. omega (
    arith,
    grid-update2 a p.idle t i (cut_first t n ns) ht hi,
    held-cut_first t n ns a0 a,
    ap (held a) e,
  );
  regions = refl;
}

pub take_block-Taken :
    (stale t i : ℕ) (ns : List IdleNode) (p : Pool)
    → IsPool p
    → t < 3
    → i < 4
    → p.idle t i ≡ ns
    → (is_default t ≡ true → p.tls_idle ≡ [])
    → Taken stale t i ns p
unfolding take_block
take_block-Taken stale t i [] p v ht hi e c = tt
take_block-Taken stale (suc t) i (n ∷ ns) p v ht hi e c =
    let cut =
      cut_bucket-Takes stale (suc t) i n ns p v ht hi e
        (subst (All (IsExtent (suc t))) e (v.idle (suc t) i)) in
    (cut_bucket stale (suc t) i n ns p, refl, cut.valid, cut.less, cut.regions)
take_block-Taken stale zero i (n ∷ ns) p v ht hi e c =
    let cut =
      cut_bucket-Takes stale 0 i n ns p v ht hi e (subst (All (IsExtent 0)) e (v.idle 0 i)) in
    let q : Pool = cut_bucket stale 0 i n ns p in
    let (moved, rest, num') = split_small 0 q.tls_idle_num (cut_first 0 n ns) in
    let here : q.idle 0 i ≡ cut_first 0 n ns = update2_self p.idle 0 i (cut_first 0 n ns) in
    let moves : Moves 0 q.tls_idle_num (q.idle 0 i) moved rest num' =
      subst (λ l. Moves 0 q.tls_idle_num l moved rest num') (sym here)
        (split_small-Moves q.tls_idle_num (cut_first 0 n ns)
          (subst (All (IsExtent 0)) here (cut.valid.idle 0 i))) in
    let filled = fill_tls-Takes i q moved rest num' cut.valid (c refl) hi moves in
    let all = Takes-trans cut filled in
    (fill_tls 0 i (moved, rest, num') q, refl, all.valid, all.less, all.regions)
