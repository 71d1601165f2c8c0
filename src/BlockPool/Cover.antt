-- ===== src/BlockPool/Cover.antt =====
-- How often an address stands in the free lists of the pool.
use light_rpc.Prelude.{
  ℕ, zero, suc, ◌+◌, ◌-◌, ◌≤◌, ◌<◌, ◌≡◌, ◌≢◌, refl, ap, ap₂, inl, inr, true, false, ◌&&◌,
  Bool-cases, List, [], ◌∷◌, ◌++◌, ltb, leb, ◌==◌, if◌then◌else◌, take, arith,
}
use light_rpc.BlockPool.{IdleNode, Pool, update2}

-- Does an extent hold the address?
abbrev pub covers : ℕ → ℕ → ℕ → ℕ
covers start len a = if leb start a && ltb a (start + len) then 1 else 0

unfoldable pub held : ℕ → List IdleNode → ℕ
held a [] = 0
held a (n ∷ ns) = covers n.start n.len a + held a ns

pub held-append : (a : ℕ) (xs ys : List IdleNode) → held a (xs ++ ys) ≡ held a xs + held a ys
unfolding held
held-append a [] ys = omega arith
held-append a (x ∷ xs) ys = omega (arith, held-append a xs ys)

pub held-take : (a k : ℕ) (ns : List IdleNode) → held a (take k ns) ≤ held a ns
unfolding held
held-take a zero ns = omega arith
held-take a (suc k) [] = omega arith
held-take a (suc k) (n ∷ ns) = omega (arith, held-take a k ns)

-- An extent that is cut in two.
pub covers_split :
    (start len k a : ℕ)
    → k ≤ len
    → covers start len a ≡ covers start k a + covers (start + k) (len - k) a
covers_split start len k a h = ground arith

unfoldable pub sum_to : ℕ → (ℕ → ℕ) → ℕ
sum_to zero f = 0
sum_to (suc n) f = sum_to n f + f n

sum_to_ext : (n : ℕ) (f g : ℕ → ℕ) → ((j : ℕ) → j < n → g j ≡ f j) → sum_to n g ≡ sum_to n f
unfolding sum_to
sum_to_ext zero f g h = refl
sum_to_ext (suc n) f g h = ap₂ ◌+◌ (sum_to_ext n f g (λ j l. h j (omega arith))) (h n (omega arith))

sum_to_change :
    (n : ℕ) (f g : ℕ → ℕ) (k : ℕ)
    → k < n
    → ((j : ℕ) → j ≢ k → g j ≡ f j)
    → sum_to n g + f k ≡ sum_to n f + g k
unfolding sum_to
sum_to_change zero f g k l h = absurd (omega arith)
sum_to_change (suc n) f g k l h = elim (Bool-cases (k == n)) [
  | inl e ↦
      let last : k ≡ n = ground arith in
      let same = sum_to_ext n f g (λ j m. h j (λ q. omega (arith, q, last))) in
      rw last (omega (arith, same))
  | inr e ↦
      let other : n ≢ k = ground arith in
      omega (arith, h n other, sum_to_change n f g k (ground arith) h)
]

-- Over the three block types and the four buckets of each.
unfoldable pub grid : (ℕ → ℕ → ℕ) → ℕ
grid f = sum_to 3 (λ t. sum_to 4 (f t))

pub update2_self {ℓ} : {A : Type ℓ} (f : ℕ → ℕ → A) (t i : ℕ) (v : A) → update2 f t i v t i ≡ v
update2_self f t i v =
    let here : (t == t) ≡ true = ground arith in
    let there : (i == i) ≡ true = ground arith in rw (here, there)

pub update2_row {ℓ} :
    {A : Type ℓ} (f : ℕ → ℕ → A) (t i : ℕ) (v : A) (t' : ℕ) → t' ≢ t → update2 f t i v t' ≡ f t'
update2_row f t i v t' h = let other : (t == t') ≡ false = ground arith in rw other

pub update2_column {ℓ} :
    {A : Type ℓ} (f : ℕ → ℕ → A) (t i : ℕ) (v : A) (i' : ℕ) → i' ≢ i → update2 f t i v t i' ≡ f t i'
update2_column f t i v i' h =
    let here : (t == t) ≡ true = ground arith in
    let other : (i == i') ≡ false = ground arith in rw (here, other)

-- A change of one list counts as the list that it puts in the other's place.
pub grid-update2 :
    (a : ℕ) (f : ℕ → ℕ → List IdleNode) (t i : ℕ) (ns : List IdleNode)
    → t < 3
    → i < 4
    → grid (λ t' i'. held a (update2 f t i ns t' i')) + held a (f t i)
      ≡ grid (λ t' i'. held a (f t' i')) + held a ns
unfolding grid
grid-update2 a f t i ns ht hi =
    let g = update2 f t i ns in
    let row =
      sum_to_change 4 (λ i'. held a (f t i')) (λ i'. held a (g t i')) i hi
        (λ j h. ap (held a) (update2_column f t i ns j h)) in
    let rows =
      sum_to_change 3 (λ t'. sum_to 4 (λ i'. held a (f t' i')))
        (λ t'. sum_to 4 (λ i'. held a (g t' i'))) t ht
        (λ j h. ap (λ r. sum_to 4 (λ i'. held a (r i'))) (update2_row f t i ns j h)) in
    omega (arith, row, rows, ap (held a) (update2_self f t i ns))

-- The free lists of a pool and the thread's cache.
unfoldable pub free_at : ℕ → Pool → ℕ
free_at a p =
    held a p.tls_idle + grid (λ t i. held a (p.idle t i)) + grid (λ t i. held a (p.expansion t i))
