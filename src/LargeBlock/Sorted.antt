-- ===== src/LargeBlock/Sorted.antt =====
-- The order of the cached blocks, and what insertion and eviction do to it.
use light_rpc.Prelude.{
  suc, ◌≤◌, ◌<◌, ◌≡◌, refl, sym, ap, subst, inl, inr, Bool-cases, ltb, leb, List, [], ◌∷◌, ◌++◌,
  some, All, length, length-append, arith,
}
use light_rpc.LargeBlock.{
  LargeBlockNode, LargeBlocks, max_cached, keep_front, insert_past, insert_sorted, pop_last,
}

abbrev pub SortedBySize : List LargeBlockNode → Type 0
SortedBySize [] = Unit
SortedBySize (n ∷ ns) = All (λ (m : LargeBlockNode). n.size ≤ m.size) ns × SortedBySize ns

abbrev pub IsWhole : LargeBlockNode → Type 0
IsWhole n = (n.size ≡ n.mr.length) × (n.buf ≡ n.mr.addr)

-- A cache as the operations keep it.
pub record IsCache (c : LargeBlocks) : Type 0 where
  pub sorted : SortedBySize c.list
  pub counted : c.num ≡ length c.list
  pub few : length c.list ≤ max_cached
  pub each : All IsWhole c.list

-- `node` stands somewhere in `rs`, the others as in `ns`.
pub record Inserted (node : LargeBlockNode) (ns rs : List LargeBlockNode) : Type 0 where
  pub before : List LargeBlockNode
  pub after : List LargeBlockNode
  pub others : ns ≡ before ++ after
  pub all : rs ≡ before ++ node ∷ after

pub All-append :
    (P : LargeBlockNode → Type 0) (xs ys : List LargeBlockNode)
    → All P xs
    → All P ys
    → All P (xs ++ ys)
All-append P [] ys a b = b
All-append P (x ∷ xs) ys a b = (a.0, All-append P xs ys a.1 b)

pub All-map :
    {P Q : LargeBlockNode → Type 0} (xs : List LargeBlockNode)
    → ((n : LargeBlockNode) → P n → Q n)
    → All P xs
    → All Q xs
All-map [] f a = tt
All-map (x ∷ xs) f a = (f x a.0, All-map xs f a.1)

pub All-split :
    (P : LargeBlockNode → Type 0) (xs ys : List LargeBlockNode)
    → All P (xs ++ ys)
    → All P xs × All P ys
All-split P [] ys a = (tt, a)
All-split P (x ∷ xs) ys a = let (l, r) = All-split P xs ys a.1 in ((a.0, l), r)

insert_past-Inserted :
    (node : LargeBlockNode) (ns : List LargeBlockNode) → Inserted node ns (insert_past node ns)
unfolding insert_past
insert_past-Inserted node [] = record { before = []; after = []; others = refl; all = refl }
insert_past-Inserted node (n ∷ ns) = elim (Bool-cases (leb n.size node.size)) [
  | inl e ↦
      let later = insert_past-Inserted node ns in
      rw e (record {
        before = n ∷ later.before;
        after = later.after;
        others = ap (◌∷◌ n) later.others;
        all = ap (◌∷◌ n) later.all;
      })
  | inr e ↦ rw e (record { before = []; after = n ∷ ns; others = refl; all = refl })
]

pub insert_sorted-Inserted :
    (ns : List LargeBlockNode) (node : LargeBlockNode) → Inserted node ns (insert_sorted ns node)
unfolding insert_sorted
insert_sorted-Inserted [] node = record { before = []; after = []; others = refl; all = refl }
insert_sorted-Inserted (n ∷ ns) node = elim (Bool-cases (ltb node.size n.size)) [
  | inl e ↦ rw e (record { before = []; after = n ∷ ns; others = refl; all = refl })
  | inr e ↦
      let later = insert_past-Inserted node ns in
      rw e (record {
        before = n ∷ later.before;
        after = later.after;
        others = ap (◌∷◌ n) later.others;
        all = ap (◌∷◌ n) later.all;
      })
]

pub Inserted-All :
    (P : LargeBlockNode → Type 0) {node : LargeBlockNode} {ns rs : List LargeBlockNode}
    → Inserted node ns rs
    → P node
    → All P ns
    → All P rs
Inserted-All P {node} i p a =
    let (l, r) = All-split P i.before i.after (subst (All P) i.others a) in
    subst (All P) (sym i.all) (All-append P i.before (node ∷ i.after) l (p, r))

pub length-Inserted :
    {node : LargeBlockNode} {ns rs : List LargeBlockNode}
    → Inserted node ns rs
    → length rs ≡ suc (length ns)
length-Inserted {node} i = omega (
  arith,
  ap length i.all,
  ap length i.others,
  length-append i.before (node ∷ i.after),
  length-append i.before i.after,
)

insert_past-SortedBySize :
    (node : LargeBlockNode) (ns : List LargeBlockNode)
    → SortedBySize ns
    → SortedBySize (insert_past node ns)
unfolding insert_past
insert_past-SortedBySize node [] s = (tt, tt)
insert_past-SortedBySize node (n ∷ ns) s = elim (Bool-cases (leb n.size node.size)) [
  | inl e ↦ rw e (
    Inserted-All (λ (m : LargeBlockNode). n.size ≤ m.size) (insert_past-Inserted node ns)
        (ground arith) s.0,
    insert_past-SortedBySize node ns s.1,
  )
  | inr e ↦
      let lower : node.size ≤ n.size = ground arith in
      rw e ((lower, All-map ns (λ m h. omega arith) s.0), s)
]

pub insert_sorted-SortedBySize :
    (ns : List LargeBlockNode) (node : LargeBlockNode)
    → SortedBySize ns
    → SortedBySize (insert_sorted ns node)
unfolding insert_sorted
insert_sorted-SortedBySize [] node s = (tt, tt)
insert_sorted-SortedBySize (n ∷ ns) node s = elim (Bool-cases (ltb node.size n.size)) [
  | inl e ↦
      let lower : node.size ≤ n.size = ground arith in
      rw e ((lower, All-map ns (λ m h. omega arith) s.0), s)
  | inr e ↦ rw e (
    Inserted-All (λ (m : LargeBlockNode). n.size ≤ m.size) (insert_past-Inserted node ns)
        (ground arith) s.0,
    insert_past-SortedBySize node ns s.1,
  )
]

-- The last of two or more nodes is a largest one.
pub pop_last_lem :
    (ns : List LargeBlockNode)
    → 1 < length ns
    → SortedBySize ns
    → (init : List LargeBlockNode) × (last : LargeBlockNode) × (pop_last ns ≡ some (init, last))
      × (ns ≡ init ++ (last ∷ []))
      × SortedBySize init
      × All (λ (m : LargeBlockNode). m.size ≤ last.size) init
unfolding pop_last
pop_last_lem [] h s = absurd (omega arith)
pop_last_lem (n ∷ []) h s = absurd (omega arith)
pop_last_lem (n ∷ m ∷ []) h s = (n ∷ [], m, refl, refl, (tt, tt), (s.0.0, tt))
pop_last_lem (n ∷ m ∷ k ∷ ms) h s =
    let (init, last, run, same, sorted, below) = pop_last_lem (m ∷ k ∷ ms) (omega arith) s.1 in
    let (above, at_end) =
      All-split _ init (last ∷ [])
        (subst (All (λ (x : LargeBlockNode). n.size ≤ x.size)) same s.0) in
    (n ∷ init, last, ap (keep_front n) run, ap (◌∷◌ n) same, (above, sorted), (at_end.0, below))
