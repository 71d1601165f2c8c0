-- ===== src/LargeBlock/Give.antt =====
-- Giving a block to the cache, and emptying it.
use light_rpc.Prelude.{
  ℕ, suc, ◌+◌, ◌≤◌, ◌<◌, ◌≡◌, refl, ap, subst, ◌∙◌, ◌⊎◌, inl, inr, Bool, true, Bool-cases, ltb,
  List, [], ◌∷◌, ◌++◌, some, All, length, length-append, arith,
}
use light_rpc.Prelude.Bits.{add64}
use light_rpc.LargeBlock.{
  Mr, LargeBlockNode, LargeBlocks, max_cached, release_node, insert_sorted, return_large_block,
  recycle_loop, recycle,
}
use light_rpc.LargeBlock.Sorted.{
  IsWhole, IsCache, Inserted, All-split, insert_sorted-Inserted, Inserted-All, length-Inserted,
  insert_sorted-SortedBySize, pop_last_lem,
}

abbrev pub node_of : Mr → LargeBlockNode
node_of mr = record { buf = mr.addr; size = mr.length; mr = mr }

-- The block stays in the cache with all the others.
pub record Kept (mr : Mr) (c c' : LargeBlocks) : Type 0 where
  pub place : Inserted (node_of mr) c.list c'.list
  pub regions : c'.deregistered ≡ c.deregistered
  pub memory : c'.freed ≡ c.freed

-- One block more than the cache holds: a largest of them goes.
pub record Evicted (mr : Mr) (c c' : LargeBlocks) : Type 0 where
  pub last : LargeBlockNode
  pub place : Inserted (node_of mr) c.list (c'.list ++ (last ∷ []))
  pub largest : All (λ (m : LargeBlockNode). m.size ≤ last.size) c'.list
  pub regions : c'.deregistered ≡ last.mr ∷ c.deregistered
  pub memory : c'.freed ≡ last.mr.addr ∷ c.freed

-- The regions and the addresses of `ns` put in front one by one.
abbrev pub given : List LargeBlockNode → List Mr → List Mr
given [] seen = seen
given (n ∷ ns) seen = given ns (n.mr ∷ seen)

abbrev pub addresses : List LargeBlockNode → List ℕ → List ℕ
addresses [] seen = seen
addresses (n ∷ ns) seen = addresses ns (n.mr.addr ∷ seen)

module _ (dereg_mr : Mr → Bool) (succeeds : (mr : Mr) → dereg_mr mr ≡ true) where
  -- `ReturnLargeBlock` of a memory region to a well-formed cache ends with a well-formed one, of eight blocks at
  -- most by ascending size: with fewer than eight blocks before, the region is cached beside them;
  -- with eight, a largest of the nine is deregistered and freed, and nothing else. It supposes that deregistering succeeds.
  pub return_large_block_lem :
      (mr : Mr) (c : LargeBlocks)
      → IsCache c
      → (c' : LargeBlocks) × (return_large_block dereg_mr (some mr) c ≡ some c')
        × IsCache c'
        × (((c.num < max_cached) × Kept mr c c') ⊎ ((c.num ≡ max_cached) × Evicted mr c c'))
  unfolding return_large_block
  return_large_block_lem mr c v = elim (Bool-cases (ltb max_cached (add64 c.num 1))) [
    | inr fits ↦ rw fits (
      _,
      refl,
      record {
        sorted = insert_sorted-SortedBySize c.list (node_of mr) v.sorted;
        counted = omega (arith, counted, v.few, v.counted);
        few = ground (arith, counted, v.few, v.counted);
        each = each;
      },
      inl (
        ground (arith, v.few, v.counted),
        record { place = place; regions = refl; memory = refl },
      ),
    )
    | inl over ↦
        let (init, last, run, same, sorted, below) =
          pop_last_lem (insert_sorted c.list (node_of mr))
            (ground (arith, counted, v.few, v.counted))
            (insert_sorted-SortedBySize c.list (node_of mr) v.sorted) in
        let (whole, at_end) = All-split IsWhole init (last ∷ []) (subst (All IsWhole) same each) in
        let size : length (insert_sorted c.list (node_of mr)) ≡ length init + 1 =
          ap length same ∙ length-append init (last ∷ []) in
        rw (over, run, succeeds last.mr)
          (
            _,
            refl,
            record {
              sorted = sorted;
              counted = omega (arith, counted, size, v.few, v.counted);
              few = omega (arith, counted, size, v.few, v.counted);
              each = whole;
            },
            inr (
              ground (arith, v.few, v.counted),
              record {
                last = last;
                place = subst (Inserted (node_of mr) c.list) same place;
                largest = below;
                regions = refl;
                memory = ap (λ a. a ∷ c.freed) at_end.0.1;
              },
            ),
          )
  ]
    where
      place : Inserted (node_of mr) c.list (insert_sorted c.list (node_of mr))
      place = insert_sorted-Inserted c.list (node_of mr)

      counted : length (insert_sorted c.list (node_of mr)) ≡ suc (length c.list)
      counted = length-Inserted place

      each : All IsWhole (insert_sorted c.list (node_of mr))
      each = Inserted-All IsWhole place (refl, refl) v.each

  recycle_loop_lem :
      (ns : List LargeBlockNode) (c : LargeBlocks)
      → All IsWhole ns
      → (c' : LargeBlocks) × (recycle_loop dereg_mr ns c ≡ some c')
        × IsCache c'
        × (c'.list ≡ [])
        × (c'.deregistered ≡ given ns c.deregistered)
        × (c'.freed ≡ addresses ns c.freed)
  unfolding recycle_loop
  recycle_loop_lem [] c a = (
    _,
    refl,
    record { sorted = tt; counted = refl; few = omega arith; each = tt },
    refl,
    refl,
    refl,
  )
  recycle_loop_lem (n ∷ ns) c a =
      let (c', run, valid, empty, regions, freed) =
        recycle_loop_lem ns (release_node n (record c { list = ns })) a.1 in
      rw (succeeds n.mr)
        (c', run, valid, empty, regions, freed ∙ ap (λ b. addresses ns (b ∷ c.freed)) a.0.1)

  -- At the thread's end `RecycleTLSLargeBlocks` ends, deregisters and frees every cached block once,
  -- in order, and leaves an empty, well-formed cache. It supposes that deregistering succeeds.
  pub recycle_lem :
      (c : LargeBlocks)
      → IsCache c
      → (c' : LargeBlocks) × (recycle dereg_mr c ≡ some c')
        × IsCache c'
        × (c'.list ≡ [])
        × (c'.deregistered ≡ given c.list c.deregistered)
        × (c'.freed ≡ addresses c.list c.freed)
  unfolding recycle
  recycle_lem c v = recycle_loop_lem c.list c v.each
