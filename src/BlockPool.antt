-- ===== src/BlockPool.antt =====
-- The pool of registered memory (src-common/fast_block_pool.cc). A list of idle nodes is a list of
-- extents, the head first; the global lists are maps from a block type and a bucket, and the other
-- fields of the record are the thread's cache. The locks are held around each operation, so that one
-- operation is one step. Outside are `memalign` (posix_memalign), `reg_mr` (ibv_reg_mr, with the
-- local key), the random bucket `index`, and `stale`, what the length of a deleted node reads as.
-- `none` of an outer Option is an abort by a failed CHECK or a null dereference.
pub mod Cover
pub mod Well
pub mod Extend
pub mod Alloc
pub mod From
pub mod Dealloc
pub mod Recycle
pub mod Trace
mod Tests
use light_rpc.Prelude.{
  ℕ, zero, suc, ◌+◌, ◌-◌, ◌*◌, ◌/◌, Bool, true, false, not, ◌&&◌, List, [], ◌∷◌, ◌++◌, Option, none,
  some, ltb, leb, ◌==◌, if◌then◌else◌, length, take, update,
}
use light_rpc.Prelude.Bits.{add64, sub64}

pub record IdleNode : Type 0 where
  pub start : ℕ
  pub len : ℕ

pub record Region : Type 0 where
  pub start : ℕ
  pub size : ℕ
  pub block_type : ℕ
  pub lkey : ℕ
  pub rkey : ℕ

-- `regions` has the entries of g_regions that are in use, the first first.
pub record Pool : Type 0 where
  pub regions : List Region
  pub idle : ℕ → ℕ → List IdleNode
  pub idle_size : ℕ → ℕ → ℕ
  pub region_num : ℕ → ℕ
  pub expansion : ℕ → ℕ → List IdleNode
  pub expansion_size : ℕ → ℕ → ℕ
  pub freed : List ℕ
  pub tls_idle : List IdleNode
  pub tls_idle_num : ℕ
  pub tls_inited : Bool

-- RDMA_MEMPOOL_BUCKETS, RDMA_MEMPOOL_MAX_REGIONS, RDMA_MEMPOOL_TLS_CACHE_NUM, BYTES_IN_MB,
-- RDMA_INITIAL_REGION_SIZE
abbrev pub buckets : ℕ
buckets = 4

abbrev pub max_regions : ℕ
max_regions = 16

abbrev pub tls_cache_num : ℕ
tls_cache_num = 128

abbrev pub bytes_in_mb : ℕ
bytes_in_mb = 1048576

abbrev pub initial_region_size : ℕ
initial_region_size = 1024

-- g_block_size
abbrev pub block_size : ℕ → ℕ
block_size zero = 8192
block_size (suc zero) = 65536
block_size (suc (suc t)) = 2 * bytes_in_mb

-- `block_type == 0`
abbrev pub is_default : ℕ → Bool
is_default zero = true
is_default (suc t) = false

abbrev pub update2 {ℓ} : {A : Type ℓ} → (ℕ → ℕ → A) → ℕ → ℕ → A → ℕ → ℕ → A
update2 f t i v = update f t (update (f t) i v)

-- `GetRegion`, of an address that is not null
unfoldable pub find_region : List Region → ℕ → Option Region
find_region [] addr = none
find_region (r ∷ rs) addr =
    let rest = find_region rs addr in
    if r.start == 0
    then none
    else if leb r.start addr && ltb addr (add64 r.start r.size)
    then some r
    else rest

unfoldable pub get_region : Pool → ℕ → Option Region
get_region p buf = if buf == 0 then none else find_region p.regions buf

abbrev pub lkey_of : Option Region → ℕ
lkey_of none = 0
lkey_of (some r) = r.lkey

unfoldable pub get_region_id : Pool → ℕ → ℕ
get_region_id p buf = lkey_of (get_region p buf)

-- The bucket of an address in its region.
abbrev pub bucket_of : ℕ → Region → ℕ
bucket_of addr r = (addr - r.start) * buckets / r.size

-- One bucket's part of a new region, put in front of the extents kept for an expansion.
abbrev pub add_extent : ℕ → ℕ → ℕ → ℕ → Pool → Pool
add_extent base region_size t i p =
    let n : IdleNode = record {
      start = base + i * (region_size / buckets);
      len = region_size / buckets;
    } in
    record p {
      expansion = update2 p.expansion t i (n ∷ p.expansion t i);
      expansion_size = update2 p.expansion_size t i (add64 (p.expansion_size t i) n.len);
    }

abbrev pub add_region : ℕ → ℕ → ℕ → ℕ → Pool → Pool
add_region base region_size t key p = record p {
  regions =
      p.regions
      ++ record { start = base; size = region_size; block_type = t; lkey = key; rkey = key } ∷ [];
  region_num = update p.region_num t (p.region_num t + 1);
}

-- The size in bytes of a region of `mb` megabytes, in whole blocks for each bucket.
abbrev pub region_bytes : ℕ → ℕ → ℕ
region_bytes mb t = mb * bytes_in_mb / block_size t / buckets * (block_size t * buckets)

abbrev pub is_some {ℓ} : {A : Type ℓ} → Option A → Bool
is_some none = false
is_some (some a) = true

module _ (memalign : ℕ → Option ℕ) (reg_mr : ℕ → ℕ → Option ℕ) where
  abbrev pub free_base : ℕ → Pool → Option ℕ × Pool
  free_base base p = (none, record p { freed = base ∷ p.freed })

  abbrev pub with_key : ℕ → ℕ → ℕ → Option ℕ → Pool → Option ℕ × Pool
  with_key base region_size t none p = free_base base p
  with_key base region_size t (some key) p =
      let add = λ (i : ℕ) (q : Pool). add_extent base region_size t i q in
      if key == 0
      then free_base base p
      else (some base, add 3 (add 2 (add 1 (add 0 (add_region base region_size t key p)))))

  -- `ExtendBlockPoolImpl`
  unfoldable pub extend_impl : ℕ → ℕ → ℕ → Pool → Option ℕ × Pool
  extend_impl base region_size t p =
      if length p.regions == max_regions
      then free_base base p
      else with_key base region_size t (reg_mr base region_size) p

  abbrev pub with_base : ℕ → ℕ → Option ℕ → Pool → Option ℕ × Pool
  with_base region_size t none p = (none, p)
  with_base region_size t (some base) p = extend_impl base region_size t p

  unfoldable pub extend_block_pool : ℕ → ℕ → Pool → Option ℕ × Pool
  extend_block_pool mb t p =
      if ltb mb 1
      then (none, p)
      else with_base (region_bytes mb t) t (memalign (region_bytes mb t)) p

  -- `InitBlockPool`, with the protection domain set or not.
  unfoldable pub init_block_pool : Bool → Pool → Bool × Pool
  init_block_pool pd p =
      let fresh = record p {
        idle = λ t i. [];
        idle_size = λ t i. 0;
        region_num = λ t. 0;
        expansion = λ t i. [];
        expansion_size = λ t i. 0;
      } in
      let (base, p') = extend_block_pool initial_region_size 0 fresh in
      if not pd
      then (false, p)
      else if ltb 0 (length p.regions)
      then (false, p)
      else (is_some base, p')

-- `MoveExpansionList2EmptyIdleList`, of an idle list that is empty
abbrev pub move_expansion : ℕ → ℕ → Pool → Pool
move_expansion t i p = record p {
  idle = update2 p.idle t i (p.expansion t i);
  idle_size = update2 p.idle_size t i (add64 (p.idle_size t i) (p.expansion_size t i));
  expansion = update2 p.expansion t i [];
  expansion_size = update2 p.expansion_size t i 0;
}

-- The nodes of one block each that go to the thread's cache, up to half of it, those that stay, and
-- the count.
unfoldable pub split_small : ℕ → ℕ → List IdleNode → List IdleNode × List IdleNode × ℕ
split_small t num [] = ([], [], num)
split_small t num (n ∷ ns) =
    let (moved, rest, num') = split_small t (num + 1) ns in
    if leb (tls_cache_num / 2) num
    then ([], n ∷ ns, num)
    else if ltb (block_size t) n.len
    then ([], n ∷ ns, num)
    else (n ∷ moved, rest, num')

-- Filling the thread's cache from the bucket, and `last_node->next = nullptr`: where no node moves,
-- that is the next of the bucket's first node.
abbrev pub fill_tls : ℕ → ℕ → List IdleNode × List IdleNode × ℕ → Pool → Pool
fill_tls t i ([], rest, num) p = record p {
  tls_idle = if num == 0 then [] else take 1 rest;
  idle = update2 p.idle t i (take 1 rest);
  tls_idle_num = num;
}
fill_tls t i (n ∷ moved, rest, num) p = record p {
  tls_idle = n ∷ moved;
  idle = update2 p.idle t i rest;
  tls_idle_num = num;
}

-- From the bucket's first node on.
unfoldable pub take_block : ℕ → ℕ → ℕ → List IdleNode → Pool → Option (Option ℕ × Pool)
take_block stale t i [] p = none
take_block stale t i (n ∷ ns) p =
    let longer = ltb (block_size t) n.len in
    let rest =
      if longer
      then record { start = n.start + block_size t; len = n.len - block_size t } ∷ ns
      else ns in
    let left = if longer then n.len - block_size t else stale in
    let p' : Pool = record p {
      idle = update2 p.idle t i rest;
      idle_size = update2 p.idle_size t i (sub64 (p.idle_size t i) left);
    } in
    some (
      some n.start,
      if is_default t then fill_tls t i (split_small t p.tls_idle_num rest) p' else p',
    )

module _ (memalign : ℕ → Option ℕ) (reg_mr : ℕ → ℕ → Option ℕ) (index stale : ℕ) where
  abbrev pub after_extend : ℕ → Option ℕ × Pool → Option (Option ℕ × Pool)
  after_extend t (none, p) = some (none, p)
  after_extend t (some base, p) =
      let p' = move_expansion t index p in take_block stale t index (p'.idle t index) p'

  -- With no idle node in the bucket: those kept for an expansion, or a new region.
  abbrev pub from_expansion : ℕ → List IdleNode → Pool → Option (Option ℕ × Pool)
  from_expansion t [] p = after_extend t (extend_block_pool memalign reg_mr initial_region_size t p)
  from_expansion t (n ∷ ns) p =
      let p' = move_expansion t index p in take_block stale t index (n ∷ ns) p'

  abbrev pub from_bucket : ℕ → List IdleNode → Pool → Option (Option ℕ × Pool)
  from_bucket t [] p = from_expansion t (p.expansion t index) p
  from_bucket t (n ∷ ns) p = take_block stale t index (n ∷ ns) p

  abbrev pub from_tls : ℕ → List IdleNode → Pool → Option (Option ℕ × Pool)
  from_tls t [] p = from_bucket t (p.idle t index) p
  from_tls t (n ∷ ns) p =
      if is_default t
      then some (some n.start, record p { tls_idle = ns; tls_idle_num = sub64 p.tls_idle_num 1 })
      else from_bucket t (p.idle t index) p

  unfoldable pub alloc_block_from : ℕ → Pool → Option (Option ℕ × Pool)
  alloc_block_from t p = from_tls t p.tls_idle p

  unfoldable pub block_allocate : ℕ → Pool → Option (Option ℕ × Pool)
  block_allocate len p =
      if len == 0
      then some (none, p)
      else if ltb (block_size 2) len
      then some (none, p)
      else if leb len (block_size 0)
      then alloc_block_from 0 p
      else if leb len (block_size 1)
      then alloc_block_from 1 p
      else alloc_block_from 2 p

abbrev pub prepend_node :
    IdleNode → Option (List IdleNode × List IdleNode) → Option (List IdleNode × List IdleNode)
prepend_node n none = none
prepend_node n (some (xs, ys)) = some (n ∷ xs, ys)

-- The first `n` nodes, taken one by one, and the rest; `none` where there are fewer.
unfoldable pub split_nodes : ℕ → List IdleNode → Option (List IdleNode × List IdleNode)
split_nodes zero ns = some ([], ns)
split_nodes (suc k) [] = none
split_nodes (suc k) (n ∷ ns) = prepend_node n (split_nodes k ns)

abbrev pub total_len : List IdleNode → ℕ
total_len [] = 0
total_len (n ∷ ns) = add64 n.len (total_len ns)

-- Half of the thread's cache goes back to the bucket of the block that is returned, before it.
abbrev pub give_half : IdleNode → ℕ → Option (List IdleNode × List IdleNode) → Pool → Option Pool
give_half node i none p = none
give_half node i (some (half, rest)) p = some (record p {
  idle = update2 p.idle 0 i (half ++ node ∷ p.idle 0 i);
  idle_size = update2 p.idle_size 0 i (add64 (p.idle_size 0 i) (total_len half));
  tls_idle = rest;
  tls_idle_num = sub64 p.tls_idle_num (tls_cache_num / 2);
})

-- The error is ERANGE, for an address outside of every region.
pub data DeallocError : Type 0 where
  no_error out_of_range : DeallocError

abbrev pub no_errors : Option Pool → Option (DeallocError × Pool)
no_errors none = none
no_errors (some p) = some (no_error, p)

-- To the thread's cache or to bucket `i` of type `t`.
unfoldable pub return_to : ℕ → ℕ → ℕ → Pool → Option (DeallocError × Pool)
return_to t i buf p =
    let node : IdleNode = record { start = buf; len = block_size t } in
    if is_default t && ltb p.tls_idle_num tls_cache_num
    then some (
      no_error,
      record p {
        tls_inited = true;
        tls_idle = node ∷ p.tls_idle;
        tls_idle_num = add64 p.tls_idle_num 1;
      },
    )
    else if is_default t
    then no_errors (give_half node i (split_nodes (tls_cache_num / 2) p.tls_idle) p)
    else some (
      no_error,
      record p {
        idle = update2 p.idle t i (node ∷ p.idle t i);
        idle_size = update2 p.idle_size t i (add64 (p.idle_size t i) node.len);
      },
    )

abbrev pub return_block : ℕ → Option Region → Pool → Option (DeallocError × Pool)
return_block buf none p = some (out_of_range, p)
return_block buf (some r) p = return_to r.block_type (bucket_of buf r) buf p

unfoldable pub block_deallocate : ℕ → Pool → Option (DeallocError × Pool)
block_deallocate buf p =
    if buf == 0 then some (no_error, p) else return_block buf (get_region p buf) p

abbrev pub recycle_node : IdleNode → Option Region → Pool → Pool
recycle_node n none p = p
recycle_node n (some r) p =
    let i = bucket_of n.start r in record p { idle = update2 p.idle 0 i (n ∷ p.idle 0 i) }

unfoldable pub recycle_nodes : List IdleNode → Pool → Pool
recycle_nodes [] p = p
recycle_nodes (n ∷ ns) p = recycle_nodes ns (recycle_node n (get_region p n.start) p)

-- `RecycleAll`
unfoldable pub recycle_all : Pool → Pool
recycle_all p = record (recycle_nodes p.tls_idle p) { tls_idle = []; tls_idle_num = 0 }
