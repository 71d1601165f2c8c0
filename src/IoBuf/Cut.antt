-- ===== src/IoBuf/Cut.antt =====
-- Reading and cutting: clear, pop_front, pop_back, cutn, cut1, copy_to and append of src-common/fast_iobuf.cc.
-- A `while (n)` loop runs on fuel, one round more than there are references; `none` means that the
-- fuel ran out. Bytes copied out are returned as a list.
pub mod Trim
pub mod Lists
pub mod Drops
pub mod Clear
pub mod Front
pub mod Back
pub mod Into
pub mod Out
use light_rpc.Prelude.{
  ℕ, zero, suc, ◌+◌, ◌-◌, Bool, true, false, List, [], ◌∷◌, ◌++◌, Option, none, some, min, leb, ltb,
  ◌==◌, if◌then◌else◌, set, collect,
}
use light_rpc.Prelude.Bits.{add32, sub32, sub64}
use light_rpc.IoBuf.Store.{Store, inc_ref, dec_ref}
use light_rpc.IoBuf.View.{
  BlockRef, null_ref, BigView, IoBuf, small, big, empty_buf, ref_index, ring_ref_at, buf_length,
  ref_num, front_ref, back_ref, ref_at, is_empty,
}
use light_rpc.IoBuf.Refs.{push_back_ref, pop_front_ref, pop_back_ref}
use light_rpc.IoBuf.Bytes.{slice}

-- Give up the shares of references, first to last.
unfoldable pub dec_refs : List BlockRef → Store → Store
dec_refs [] s = s
dec_refs (r ∷ rs) s = dec_refs rs (dec_ref r.block s)

unfoldable pub clear : IoBuf → Store → IoBuf × Store
clear (small r0 r1) s =
    if r0.block == 0
    then (small r0 r1, s)
    else if r1.block == 0
    then (small null_ref r1, dec_ref r0.block s)
    else (small null_ref null_ref, dec_ref r1.block (dec_ref r0.block s))
clear (big v) s = (empty_buf, dec_refs (collect (ring_ref_at v) v.nref) s)

-- `r.offset += n; r.length -= n;` on the first reference, and on `nbytes`
unfoldable pub trim_front : ℕ → IoBuf → IoBuf
trim_front n (small r0 r1) =
    small (record r0 { offset = add32 r0.offset n; length = sub32 r0.length n }) r1
trim_front n (big v) =
    let r = front_ref (big v) in
    big (record v {
      refs = set v.refs v.start (record r { offset = add32 r.offset n; length = sub32 r.length n });
      nbytes = sub64 v.nbytes n;
    })

-- `r.length -= n;` on the last reference, and on `nbytes`
unfoldable pub trim_back : ℕ → IoBuf → IoBuf
trim_back n (small r0 r1) =
    if r1.block == 0
    then small (record r0 { length = sub32 r0.length n }) r1
    else small r0 (record r1 { length = sub32 r1.length n })
trim_back n (big v) =
    let r = back_ref (big v) in
    big (record v {
      refs = set v.refs (ref_index v (v.nref - 1)) (record r { length = sub32 r.length n });
      nbytes = sub64 v.nbytes n;
    })

unfoldable pub pop_front_loop : ℕ → ℕ → IoBuf → Store → Option (IoBuf × Store)
pop_front_loop zero n b s = none
pop_front_loop (suc fuel) n b s =
    let r = front_ref b in
    let popped = pop_front_ref false b s in
    let rest = pop_front_loop fuel (n - r.length) popped.1 popped.2 in
    if n == 0 then some (b, s) else if ltb n r.length then some (trim_front n b, s) else rest

abbrev pub with_count : ℕ → Option (IoBuf × Store) → Option (ℕ × IoBuf × Store)
with_count n none = none
with_count n (some (b, s)) = some (n, b, s)

-- Returns the number of bytes taken off.
unfoldable pub pop_front : ℕ → IoBuf → Store → Option (ℕ × IoBuf × Store)
pop_front n b s =
    let (b', s') = clear b s in
    if leb (buf_length b) n
    then some (buf_length b, b', s')
    else with_count n (pop_front_loop (suc (ref_num b)) n b s)

unfoldable pub pop_back_loop : ℕ → ℕ → IoBuf → Store → Option (IoBuf × Store)
pop_back_loop zero n b s = none
pop_back_loop (suc fuel) n b s =
    let r = back_ref b in
    let popped = pop_back_ref b s in
    let rest = pop_back_loop fuel (n - r.length) popped.1 popped.2 in
    if n == 0 then some (b, s) else if ltb n r.length then some (trim_back n b, s) else rest

unfoldable pub pop_back : ℕ → IoBuf → Store → Option (ℕ × IoBuf × Store)
pop_back n b s =
    let (b', s') = clear b s in
    if leb (buf_length b) n
    then some (buf_length b, b', s')
    else with_count n (pop_back_loop (suc (ref_num b)) n b s)

-- The two buffers and the store after a cut into `out`.
pub record Cut : Type 0 where
  pub self : IoBuf
  pub out : IoBuf
  pub store : Store

-- The loop of `cutn(IOBuf *out, size_t n)`, for `out` another buffer than this one.
unfoldable pub cut_loop : ℕ → ℕ → IoBuf → IoBuf → Store → Option Cut
cut_loop zero n b out s = none
cut_loop (suc fuel) n b out s =
    let r = front_ref b in
    let moved = push_back_ref true out r s in
    let popped = pop_front_ref true b moved.1 in
    let rest = cut_loop fuel (n - r.length) popped.1 moved.0 popped.2 in
    let shared = push_back_ref false out (record r { length = n }) s in
    if n == 0
    then some (record { self = b; out = out; store = s })
    else if leb r.length n
    then rest
    else some (record { self = trim_front n b; out = shared.0; store = shared.1 })

abbrev pub with_cut : ℕ → Option Cut → Option (ℕ × Cut)
with_cut n none = none
with_cut n (some c) = some (n, c)

unfoldable pub cutn : ℕ → IoBuf → IoBuf → Store → Option (ℕ × Cut)
cutn n b out s =
    let n' = if ltb (buf_length b) n then buf_length b else n in
    with_cut n' (cut_loop (suc (ref_num b)) n' b out s)

abbrev pub prepend : List ℕ → Option (List ℕ × IoBuf × Store) → Option (List ℕ × IoBuf × Store)
prepend bs none = none
prepend bs (some (more, b', s')) = some (bs ++ more, b', s')

-- The loop of `cutn(void *out, size_t n)`: the bytes written to `out`, and what is left.
unfoldable pub cut_bytes_loop : ℕ → ℕ → IoBuf → Store → Option (List ℕ × IoBuf × Store)
cut_bytes_loop zero n b s = none
cut_bytes_loop (suc fuel) n b s =
    let r = front_ref b in
    let popped = pop_front_ref false b s in
    let rest = cut_bytes_loop fuel (n - r.length) popped.1 popped.2 in
    let written = prepend (slice (s.bytes r.block) r.offset r.length) rest in
    if n == 0
    then some ([], b, s)
    else if leb r.length n
    then written
    else some (slice (s.bytes r.block) r.offset n, trim_front n b, s)

unfoldable pub cut_bytes : ℕ → IoBuf → Store → Option (List ℕ × IoBuf × Store)
cut_bytes n b s =
    let n' = if ltb (buf_length b) n then buf_length b else n in
    cut_bytes_loop (suc (ref_num b)) n' b s

-- `cut1`: the first byte, if there is one.
unfoldable pub cut1 : IoBuf → Store → Option ℕ × IoBuf × Store
cut1 b s =
    let r = front_ref b in
    let popped = pop_front_ref false b s in
    if is_empty b
    then (none, b, s)
    else if ltb 1 r.length
    then (some (s.bytes r.block r.offset), trim_front 1 b, s)
    else (some (s.bytes r.block r.offset), popped.1, popped.2)
