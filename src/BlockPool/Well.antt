-- ===== src/BlockPool/Well.antt =====
-- The well-formed pool: extents of whole blocks, a counted cache, regions that do not wrap.
use light_rpc.Prelude.{
  ℕ, zero, suc, ◌+◌, ◌*◌, ◌^◌, ◌≤◌, ◌<◌, ◌≡◌, ◌≢◌, subst, inl, inr, true, Bool-cases, List, [], ◌∷◌,
  ◌++◌, All, length, take, ◌==◌, arith,
}
use light_rpc.BlockPool.{IdleNode, Region, Pool, block_size, tls_cache_num, update2}
use light_rpc.BlockPool.Cover.{covers}

-- An extent of one or more blocks of type `t`.
abbrev pub IsExtent : ℕ → IdleNode → Type 0
IsExtent t n = (k : ℕ) × (n.len ≡ suc k * block_size t)

abbrev pub IsOneBlock : IdleNode → Type 0
IsOneBlock n = n.len ≡ block_size 0

pub record IsRegion (r : Region) : Type 0 where
  pub used : r.start ≢ 0
  pub in_word : r.start + r.size < 2 ^ 64
  pub typed : r.block_type < 3

pub record IsPool (p : Pool) : Type 0 where
  pub idle : (t i : ℕ) → All (IsExtent t) (p.idle t i)
  pub expansion : (t i : ℕ) → All (IsExtent t) (p.expansion t i)
  pub cache : All IsOneBlock p.tls_idle
  pub counted : p.tls_idle_num ≡ length p.tls_idle
  pub bounded : length p.tls_idle ≤ tls_cache_num
  pub regions : All IsRegion p.regions

-- How many regions hold an address.
unfoldable pub region_at : ℕ → List Region → ℕ
region_at a [] = 0
region_at a (r ∷ rs) = covers r.start r.size a + region_at a rs

pub region_at-append :
    (a : ℕ) (xs ys : List Region) → region_at a (xs ++ ys) ≡ region_at a xs + region_at a ys
unfolding region_at
region_at-append a [] ys = omega arith
region_at-append a (x ∷ xs) ys = omega (arith, region_at-append a xs ys)

pub All-update2 :
    (f : ℕ → ℕ → List IdleNode) (t i : ℕ) (ns : List IdleNode)
    → ((t' i' : ℕ) → All (IsExtent t') (f t' i'))
    → All (IsExtent t) ns
    → (t' i' : ℕ) → All (IsExtent t') (update2 f t i ns t' i')
All-update2 f t i ns a b t' i' = elim (Bool-cases (t == t')) [
  | inr e ↦ rw e (a t' i')
  | inl e ↦ elim (Bool-cases (i == i')) [
    | inr e' ↦ rw (e, e') (subst (λ k. All (IsExtent k) (f t i')) (same t t' e) (a t i'))
    | inl e' ↦ rw (e, e') (subst (λ k. All (IsExtent k) ns) (same t t' e) b)
  ]
]
  where
    same : (x y : ℕ) → (x == y) ≡ true → x ≡ y
    same x y h = ground arith

pub block_size_pos : (t : ℕ) → 0 < block_size t
block_size_pos zero = omega arith
block_size_pos (suc zero) = omega arith
block_size_pos (suc (suc t)) = omega arith

pub All-take : (P : IdleNode → Type 0) (k : ℕ) (ns : List IdleNode) → All P ns → All P (take k ns)
All-take P zero ns a = tt
All-take P (suc k) [] a = tt
All-take P (suc k) (n ∷ ns) a = (a.0, All-take P k ns a.1)

pub All-both :
    (P : IdleNode → Type 0) (xs ys : List IdleNode) → All P xs → All P ys → All P (xs ++ ys)
All-both P [] ys a b = b
All-both P (x ∷ xs) ys a b = (a.0, All-both P xs ys a.1 b)

pub All-weaken :
    (P Q : IdleNode → Type 0) (xs : List IdleNode)
    → ((n : IdleNode) → P n → Q n)
    → All P xs
    → All Q xs
All-weaken P Q [] f a = tt
All-weaken P Q (x ∷ xs) f a = (f x a.0, All-weaken P Q xs f a.1)

pub IsOneBlock-IsExtent : (n : IdleNode) → IsOneBlock n → IsExtent 0 n
IsOneBlock-IsExtent n h = (0, omega (arith, h))
