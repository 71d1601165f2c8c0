-- ===== src/IoBuf/Refs.antt =====
-- Taking references into a buffer and out of it: the templates `_push_or_move_back_ref_to_*view`,
-- `_pop_or_moveout_front_ref` and `_pop_back_ref` of src-common/fast_iobuf.cc. A template's Boolean
-- is an argument. Each returns the new buffer and store; `_pop_…` returns its status first, `true`
-- for 0 and `false` for -1.
use light_rpc.Prelude.{
  ℕ, ◌-◌, ◌*◌, ◌%◌, ◌^◌, Bool, true, false, not, ◌&&◌, ◌∷◌, ◌++◌, bit_and, ltb, ◌==◌, if◌then◌else◌,
  get_or, set, replicate, collect,
}
use light_rpc.Prelude.Bits.{add32, sub32, add64, sub64}
use light_rpc.IoBuf.Store.{Store, inc_ref, dec_ref}
use light_rpc.IoBuf.View.{
  BlockRef, null_ref, BigView, IoBuf, small, big, initial_cap, ref_index, ring_ref_at, capacity,
}

-- Does `r` go on where `a` ends?
unfoldable pub merges : BlockRef → BlockRef → Bool
merges a r = (a.block == r.block) && (add32 a.offset a.length == r.offset)

unfoldable pub merge : BlockRef → BlockRef → BlockRef
merge a r = record a { length = add32 a.length r.length }

-- `if (!MOVE) inc_ref`
abbrev pub share : Bool → ℕ → Store → Store
share move p s = if move then s else inc_ref p s

-- `if (MOVE) dec_ref`
abbrev pub settle : Bool → ℕ → Store → Store
settle move p s = if move then dec_ref p s else s

-- The three sums are taken in uint32_t.
unfoldable pub convert_to_big : BlockRef → BlockRef → BlockRef → BigView
convert_to_big r0 r1 r = record {
  start = 0;
  refs = r0 ∷ r1 ∷ r ∷ replicate 29 null_ref;
  nref = 3;
  cap_mask = initial_cap - 1;
  nbytes = add32 (add32 r0.length r1.length) r.length;
}

unfoldable pub push_to_small : Bool → BlockRef → BlockRef → BlockRef → Store → IoBuf × Store
push_to_small move r0 r1 r s =
    if r0.block == 0
    then (small r r1, share move r.block s)
    else if r1.block == 0
    then (if merges r0 r
        then (small (merge r0 r) r1, settle move r.block s)
        else (small r0 r, share move r.block s))
    else if merges r1 r
    then (small r0 (merge r1 r), settle move r.block s)
    else (big (convert_to_big r0 r1 r), share move r.block s)

-- The last reference grows by `r`.
unfoldable pub extend_back : BigView → BlockRef → BigView
extend_back v r = record v {
  refs = set v.refs (ref_index v (v.nref - 1)) (merge (ring_ref_at v (v.nref - 1)) r);
  nbytes = add64 v.nbytes r.length;
}

unfoldable pub store_back : BigView → BlockRef → BigView
store_back v r = record v {
  refs = set v.refs (ref_index v v.nref) r;
  nref = add32 v.nref 1;
  nbytes = add64 v.nbytes r.length;
}

-- A new array of twice the size, the references copied to its front in order.
unfoldable pub grow_back : BigView → BlockRef → BigView
grow_back v r =
    let new_cap = capacity v * 2 % 2 ^ 32 in
    let copied = collect (ring_ref_at v) v.nref ++ replicate (new_cap - v.nref) null_ref in
    record {
      start = 0;
      refs = set copied v.nref r;
      nref = add32 v.nref 1;
      cap_mask = sub32 new_cap 1;
      nbytes = add64 v.nbytes r.length;
    }

unfoldable pub push_to_big : Bool → BigView → BlockRef → Store → IoBuf × Store
push_to_big move v r s =
    if merges (ring_ref_at v (v.nref - 1)) r
    then (big (extend_back v r), settle move r.block s)
    else if not (v.nref == capacity v)
    then (big (store_back v r), share move r.block s)
    else (big (grow_back v r), share move r.block s)

-- `_push_back_ref` (move = false) and `_move_back_ref` (move = true)
unfoldable pub push_back_ref : Bool → IoBuf → BlockRef → Store → IoBuf × Store
push_back_ref move (small r0 r1) r s = push_to_small move r0 r1 r s
push_back_ref move (big v) r s = push_to_big move v r s

-- The second place of the ring onwards, or the two references that are left.
unfoldable pub advance : BigView → IoBuf
advance v =
    if ltb 2 (v.nref - 1)
    then big (record v {
      start = bit_and (add32 v.start 1) v.cap_mask;
      nref = v.nref - 1;
      nbytes = sub64 v.nbytes (get_or v.refs v.start null_ref).length;
    })
    else small (get_or v.refs (bit_and (add32 v.start 1) v.cap_mask) null_ref)
        (get_or v.refs (bit_and (add32 v.start 2) v.cap_mask) null_ref)

-- `_pop_front_ref` (move_out = false) and `_moveout_front_ref` (move_out = true)
unfoldable pub pop_front_ref : Bool → IoBuf → Store → Bool × IoBuf × Store
pop_front_ref move_out (small r0 r1) s =
    if r0.block == 0
    then (false, small r0 r1, s)
    else (true, small r1 null_ref, if move_out then s else dec_ref r0.block s)
pop_front_ref move_out (big v) s =
    let front = get_or v.refs v.start null_ref in
    (true, advance v, if move_out then s else dec_ref front.block s)

unfoldable pub retreat : BigView → IoBuf
retreat v =
    if ltb 2 (v.nref - 1)
    then big (record v {
      nref = v.nref - 1;
      nbytes = sub64 v.nbytes (ring_ref_at v (v.nref - 1)).length;
    })
    else small (get_or v.refs v.start null_ref)
        (get_or v.refs (bit_and (add32 v.start 1) v.cap_mask) null_ref)

unfoldable pub pop_back_ref : IoBuf → Store → Bool × IoBuf × Store
pop_back_ref (small r0 r1) s =
    if not (r1.block == 0)
    then (true, small r0 null_ref, dec_ref r1.block s)
    else if not (r0.block == 0)
    then (true, small null_ref r1, dec_ref r0.block s)
    else (false, small r0 r1, s)
pop_back_ref (big v) s = (true, retreat v, dec_ref (ring_ref_at v (v.nref - 1)).block s)
