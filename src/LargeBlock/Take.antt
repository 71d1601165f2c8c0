-- ===== src/LargeBlock/Take.antt =====
-- Taking a block out of the cache.
use light_rpc.Prelude.{
  ℕ, suc, ◌≤◌, ◌<◌, ◌≡◌, refl, sym, ap, subst, ◌⊎◌, inl, inr, true, Bool-cases, ltb, List, [], ◌∷◌,
  ◌++◌, Option, none, some, All, length, length-append, arith,
}
use light_rpc.Prelude.Bits.{sub64}
use light_rpc.LargeBlock.{
  Mr, LargeBlockNode, LargeBlocks, behind, unlink_fit, large_block_alloc, allocate, register,
}
use light_rpc.LargeBlock.Sorted.{SortedBySize, IsWhole, IsCache, All-append, All-split}

abbrev pub TooSmall : ℕ → List LargeBlockNode → Type 0
TooSmall size ns = All (λ (m : LargeBlockNode). m.size < size) ns

-- `node` is the first of `ns` that is large enough, and `rs` the others.
pub record Fit (size : ℕ) (node : LargeBlockNode) (ns rs : List LargeBlockNode) : Type 0 where
  pub before : List LargeBlockNode
  pub after : List LargeBlockNode
  pub all : ns ≡ before ++ node ∷ after
  pub others : rs ≡ before ++ after
  pub small : TooSmall size before
  pub enough : size ≤ node.size

abbrev pub FitCase : ℕ → List LargeBlockNode → Type 0
FitCase size ns =
    ((unlink_fit ns size ≡ none) × TooSmall size ns)
    ⊎ ((node : LargeBlockNode) × (rs : List LargeBlockNode) × (unlink_fit ns size ≡ some (node, rs))
        × Fit size node ns rs)

pub unlink_fit-cases : (size : ℕ) (ns : List LargeBlockNode) → FitCase size ns
unfolding unlink_fit
unlink_fit-cases size [] = inl (refl, tt)
unlink_fit-cases size (n ∷ ns) = elim (Bool-cases (ltb n.size size)) [
  | inl e ↦ rw e (elim (unlink_fit-cases size ns) [
    | inl no_fit ↦ inl (ap (behind n) no_fit.0, (ground arith, no_fit.1))
    | inr fit ↦ inr (
      fit.0,
      n ∷ fit.1,
      ap (behind n) fit.2,
      record {
        before = n ∷ fit.3.before;
        after = fit.3.after;
        all = ap (◌∷◌ n) fit.3.all;
        others = ap (◌∷◌ n) fit.3.others;
        small = (ground arith, fit.3.small);
        enough = fit.3.enough;
      },
    )
  ])
  | inr e ↦ rw e (
      inr (
        n,
        ns,
        refl,
        record {
          before = [];
          after = ns;
          all = refl;
          others = refl;
          small = tt;
          enough = ground arith;
        },
      ))
]

-- Nothing behind the first fit is smaller.
sorted-least :
    (before : List LargeBlockNode) (node : LargeBlockNode) (after : List LargeBlockNode)
    → SortedBySize (before ++ node ∷ after)
    → All (λ (m : LargeBlockNode). node.size ≤ m.size) after × SortedBySize (before ++ after)
sorted-least [] node after s = s
sorted-least (b ∷ before) node after s =
    let (least, rest) = sorted-least before node after s.1 in
    let (low, high) = All-split _ before (node ∷ after) s.0 in
    (least, (All-append _ before after low high.1, rest))

-- What a large enough cached block leaves.
pub record Hit (size : ℕ) (c c' : LargeBlocks) (mr : Mr) : Type 0 where
  pub node : LargeBlockNode
  pub region : mr ≡ node.mr
  pub fit : Fit size node c.list c'.list
  pub enough : size ≤ mr.length
  pub least : All (λ (m : LargeBlockNode). mr.length ≤ m.size) fit.after
  pub valid : IsCache c'

abbrev pub registered : (ℕ → ℕ → Option Mr) → ℕ → Option ℕ → Option Mr
registered reg_mr size none = none
registered reg_mr size (some buf) = reg_mr buf size

-- `LargeBlockAlloc` on a well-formed cache: if a cached block is large enough, it returns the
-- memory region of a smallest such one, of `size` bytes or more, and unlinks that block alone, so that the cache stays well-formed;
-- otherwise every cached block is too small, the list and the count stay, and what it returns is a
-- new registration, or null where memory or registration failed.
pub large_block_alloc_lem :
    (memalign : ℕ → Option ℕ) (reg_mr : ℕ → ℕ → Option Mr) (size : ℕ) (c : LargeBlocks)
    → IsCache c
    → let (result, c') = large_block_alloc memalign reg_mr size c in
      ((mr : Mr) × (result ≡ some mr) × Hit size c c' mr)
      ⊎ (TooSmall size c.list
          × (result ≡ registered reg_mr size (memalign size))
          × IsCache c'
          × (c'.list ≡ c.list))
unfolding large_block_alloc
large_block_alloc_lem memalign reg_mr size c v = elim (unlink_fit-cases size c.list) [
  | inr fit ↦ rw fit.2 (inl (fit.0.mr, refl, hit fit.0 fit.1 fit.3))
  | inl no_fit ↦ rw no_fit.0 (
      let (result, valid, same) = allocate-registered (memalign size) in
      inr (no_fit.1, result, valid, same))
]
  where
    kept : (freed : List ℕ) → IsCache (record c { inited = true; freed = freed })
    kept freed = record { sorted = v.sorted; counted = v.counted; few = v.few; each = v.each }

    allocate-registered :
        (buf : Option ℕ)
        → let (result, c') = allocate memalign reg_mr size buf (record c { inited = true }) in
          (result ≡ registered reg_mr size buf) × IsCache c' × (c'.list ≡ c.list)
    allocate-registered none = (refl, kept c.freed, refl)
    allocate-registered (some buf) = by_result (reg_mr buf size)
      where
        by_result :
            (mr : Option Mr)
            → let (result, c') =
                register memalign reg_mr buf size mr (record c { inited = true }) in
              (result ≡ mr) × IsCache c' × (c'.list ≡ c.list)
        by_result none = (refl, kept (buf ∷ c.freed), refl)
        by_result (some mr) = (refl, kept c.freed, refl)

    hit :
        (node : LargeBlockNode) (rs : List LargeBlockNode)
        → Fit size node c.list rs
        → Hit size c (record c { list = rs; num = sub64 c.num 1; inited = true }) node.mr
    hit node rs f =
        let (least, sorted) =
          sorted-least f.before node f.after (subst SortedBySize f.all v.sorted) in
        let (low, high) =
          All-split IsWhole f.before (node ∷ f.after) (subst (All IsWhole) f.all v.each) in
        let size_is : node.size ≡ node.mr.length = high.0.0 in
        let longer : length c.list ≡ suc (length rs) = omega (
          arith,
          ap length f.all,
          ap length f.others,
          length-append f.before (node ∷ f.after),
          length-append f.before f.after,
        ) in
        record {
          node = node;
          region = refl;
          fit = f;
          enough = omega (arith, f.enough);
          least = subst (λ k. All (λ (m : LargeBlockNode). k ≤ m.size) f.after) size_is least;
          valid = record {
            sorted = subst SortedBySize (sym f.others) sorted;
            counted = omega (arith, v.counted, v.few);
            few = omega (arith, v.few);
            each =
                subst (All IsWhole) (sym f.others) (All-append IsWhole f.before f.after low high.1);
          };
        }
