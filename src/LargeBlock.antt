-- ===== src/LargeBlock.antt =====
-- The per-thread cache of registered large blocks (src-common/fast_large_block.cc): a list of free
-- memory regions by ascending size, eight at most. `posix_memalign`, `ibv_reg_mr` and
-- `ibv_dereg_mr` are parameters; `freed` and `deregistered` are what was given back, the
-- latest first, and `none` is an abort by a failed CHECK or a null dereference.
pub mod Sorted
pub mod Take
pub mod Give
mod Tests
use light_rpc.Prelude.{
  ℕ, ◌+◌, Bool, true, false, List, [], ◌∷◌, Option, none, some, ltb, leb, if◌then◌else◌,
}
use light_rpc.Prelude.Bits.{add64, sub64}

-- What the code reads of an `ibv_mr`, and its identity.
pub record Mr : Type 0 where
  pub addr : ℕ
  pub length : ℕ
  pub key : ℕ

pub record LargeBlockNode : Type 0 where
  pub buf : ℕ
  pub size : ℕ
  pub mr : Mr

pub record LargeBlocks : Type 0 where
  pub list : List LargeBlockNode
  pub num : ℕ
  pub inited : Bool
  pub deregistered : List Mr
  pub freed : List ℕ

-- kMaxCachedLargeBlocks
abbrev pub max_cached : ℕ
max_cached = 8

-- The thread-exit callback runs `recycle` of what the list then holds.
abbrev pub init_thread : LargeBlocks → LargeBlocks
init_thread c = record c { inited = true }

abbrev pub release_node : LargeBlockNode → LargeBlocks → LargeBlocks
release_node n c = record c { deregistered = n.mr ∷ c.deregistered; freed = n.buf ∷ c.freed }

-- `LargeBlockFindBestFit`
unfoldable pub find_best_fit : List LargeBlockNode → ℕ → Option LargeBlockNode
find_best_fit [] size = none
find_best_fit (n ∷ ns) size =
    let later = find_best_fit ns size in if ltb n.size size then later else some n

abbrev pub behind :
    LargeBlockNode
    → Option (LargeBlockNode × List LargeBlockNode)
    → Option (LargeBlockNode × List LargeBlockNode)
behind n none = none
behind n (some (cur, ns)) = some (cur, n ∷ ns)

-- The search of `LargeBlockAlloc`, with the list after `cur` is unlinked.
unfoldable pub unlink_fit : List LargeBlockNode → ℕ → Option (LargeBlockNode × List LargeBlockNode)
unlink_fit [] size = none
unlink_fit (n ∷ ns) size =
    let later = behind n (unlink_fit ns size) in if ltb n.size size then later else some (n, ns)

unfoldable pub insert_past : LargeBlockNode → List LargeBlockNode → List LargeBlockNode
insert_past node [] = node ∷ []
insert_past node (n ∷ ns) =
    let later = n ∷ insert_past node ns in if leb n.size node.size then later else node ∷ n ∷ ns

-- `LargeBlockInsertSorted`
unfoldable pub insert_sorted : List LargeBlockNode → LargeBlockNode → List LargeBlockNode
insert_sorted [] node = node ∷ []
insert_sorted (n ∷ ns) node =
    let later = n ∷ insert_past node ns in if ltb node.size n.size then node ∷ n ∷ ns else later

abbrev pub keep_front :
    LargeBlockNode
    → Option (List LargeBlockNode × LargeBlockNode)
    → Option (List LargeBlockNode × LargeBlockNode)
keep_front n none = none
keep_front n (some (ms, last)) = some (n ∷ ms, last)

-- `LargeBlockPopLast`: the list without its last node, and that node, if it has two at least.
unfoldable pub pop_last : List LargeBlockNode → Option (List LargeBlockNode × LargeBlockNode)
pop_last [] = none
pop_last (n ∷ []) = none
pop_last (n ∷ m ∷ []) = some (n ∷ [], m)
pop_last (n ∷ m ∷ k ∷ ms) = keep_front n (pop_last (m ∷ k ∷ ms))

module _ (memalign : ℕ → Option ℕ) (reg_mr : ℕ → ℕ → Option Mr) where
  -- A registration that fails gives the memory back.
  abbrev pub register : ℕ → ℕ → Option Mr → LargeBlocks → Option Mr × LargeBlocks
  register buf size none c = (none, record c { freed = buf ∷ c.freed })
  register buf size (some mr) c = (some mr, c)

  abbrev pub allocate : ℕ → Option ℕ → LargeBlocks → Option Mr × LargeBlocks
  allocate size none c = (none, c)
  allocate size (some buf) c = register buf size (reg_mr buf size) c

  abbrev pub from_list :
      ℕ → Option (LargeBlockNode × List LargeBlockNode) → LargeBlocks → Option Mr × LargeBlocks
  from_list size none c = allocate size (memalign size) c
  from_list size (some (cur, ns)) c = (some cur.mr, record c { list = ns; num = sub64 c.num 1 })

  -- `LargeBlockAlloc`
  unfoldable pub large_block_alloc : ℕ → LargeBlocks → Option Mr × LargeBlocks
  large_block_alloc size c = from_list size (unlink_fit c.list size) (init_thread c)

module _ (dereg_mr : Mr → Bool) where
  abbrev pub evict :
      Option (List LargeBlockNode × LargeBlockNode) → LargeBlocks → Option LargeBlocks
  evict none c = none
  evict (some (ns, last)) c =
      if dereg_mr last.mr
      then some (release_node last (record c { list = ns; num = sub64 c.num 1 }))
      else none

  -- `ReturnLargeBlock`; `none` is the null pointer.
  unfoldable pub return_large_block : Option Mr → LargeBlocks → Option LargeBlocks
  return_large_block none c = some c
  return_large_block (some mr) c =
      let node : LargeBlockNode = record { buf = mr.addr; size = mr.length; mr = mr } in
      let c1 : LargeBlocks = record c {
        list = insert_sorted c.list node;
        num = add64 c.num 1;
        inited = true;
      } in
      if ltb max_cached c1.num then evict (pop_last c1.list) c1 else some c1

  unfoldable pub recycle_loop : List LargeBlockNode → LargeBlocks → Option LargeBlocks
  recycle_loop [] c = some (record c { list = []; num = 0 })
  recycle_loop (n ∷ ns) c =
      let rest = recycle_loop ns (release_node n (record c { list = ns })) in
      if dereg_mr n.mr then rest else none

  -- `RecycleTLSLargeBlocks`
  unfoldable pub recycle : LargeBlocks → Option LargeBlocks
  recycle c = recycle_loop c.list c
