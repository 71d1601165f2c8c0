-- ===== src/IoBuf/Append.antt =====
-- `append` of another buffer, copying or moving its references (src-common/fast_iobuf.cc,
-- inc/fast_iobuf_inl.h).
use light_rpc.Prelude.{
  All, ℕ, ◌+◌, ◌^◌, ◌<◌, ◌≡◌, refl, sym, ap, ap₂, ◌∙◌, inl, inr, Bool, true, false, Bool-cases,
  if◌then◌else◌, List, [], ◌∷◌, ◌++◌, append_assoc, append-nil, length, arith,
}
use light_rpc.IoBuf.Store.{Store}
use light_rpc.IoBuf.View.{
  BlockRef, IoBuf, small, big, empty_buf, is_empty, ref_num, ref_list, HasShape, IsValid, IsRef,
  total,
}
use light_rpc.IoBuf.Refs.{push_back_ref}
use light_rpc.IoBuf.Ring.{total-append_ref, length-append_ref}
use light_rpc.IoBuf.Push.{push_back_ref_appends, not_null}
use light_rpc.IoBuf.Bytes.{
  Memory, ref_bytes, bytes_of, length-bytes_of, bytes_of-append_ref, bytes-push_back_ref,
}
use light_rpc.IoBuf.Copy.{refs_in_order, refs_in_order_lem}
use light_rpc.IoBuf.Cut.Drops.{contents, ref_num-length}

-- The loop over `other._ref_at(i)`.
unfoldable pub push_refs : Bool → List BlockRef → IoBuf → Store → IoBuf × Store
push_refs move [] b s = (b, s)
push_refs move (r ∷ rs) b s = let (b', s') = push_back_ref move b r s in push_refs move rs b' s'

-- `append(const IOBuf &)`
unfoldable pub append_buf : IoBuf → IoBuf → Store → IoBuf × Store
append_buf other b s = push_refs false (refs_in_order other) b s

-- `append(const Movable &)`: this buffer, the other one afterwards, and the store.
unfoldable pub append_movable : IoBuf → IoBuf → Store → IoBuf × IoBuf × Store
append_movable other b s =
    let (b', s') = push_refs true (refs_in_order other) b s in
    if is_empty b then (other, b, s) else (b', empty_buf, s')

-- What pushing the references `rs` one by one leaves.
record Pushed (move : Bool) (rs : List BlockRef) (b : IoBuf) (s : Store) (b' : IoBuf) (s' : Store)
    : Type 0 where
  valid : IsValid b'
  bytes : contents b' s' ≡ contents b s ++ bytes_of s.bytes rs
  memory : s'.bytes ≡ s.bytes

push_refs-Pushed :
    (move : Bool) (rs : List BlockRef) (b : IoBuf) (s : Store)
    → IsValid b
    → All IsRef rs
    → total (ref_list b) + total rs < 2 ^ 32
    → length (ref_list b) + length rs < 2 ^ 30
    → Pushed move rs b s (push_refs move rs b s).0 (push_refs move rs b s).1
unfolding push_refs bytes_of total
push_refs-Pushed move [] b s v a t few = record {
  valid = v;
  bytes = sym (append-nil (contents b s));
  memory = refl;
}
push_refs-Pushed move (r ∷ rs) b s v a t few =
    let pushed =
      push_back_ref_appends move b r s v a.0 (omega arith)
        (omega (arith, ref_num-length b v.shape)) in
    let same = bytes-push_back_ref move b r s in
    let rest =
      push_refs-Pushed move rs (push_back_ref move b r s).0 (push_back_ref move b r s).1 pushed.0
        a.1 (omega (arith, ap total pushed.1, total-append_ref (ref_list b) r (omega arith)))
        (omega (arith, ap length pushed.1, length-append_ref (ref_list b) r)) in
    record {
      valid = rest.valid;
      bytes =
          rest.bytes
          ∙ ap₂ (λ m xs. bytes_of m xs ++ bytes_of m rs) same pushed.1
          ∙ ap (λ l. l ++ bytes_of s.bytes rs)
              (bytes_of-append_ref s.bytes (ref_list b) r v.each a.0)
          ∙ append_assoc (contents b s) (ref_bytes s.bytes r) (bytes_of s.bytes rs);
      memory = rest.memory ∙ same;
    }

-- Appending a copy of another valid buffer puts its bytes, in order, behind those of this one, which
-- stays valid; no byte of a block changes. It supposes fewer than 2^32 bytes and 2^30 references
-- together.
pub append_buf_lem :
    (other b : IoBuf) (s : Store)
    → IsValid other
    → IsValid b
    → total (ref_list b) + total (ref_list other) < 2 ^ 32
    → ref_num b + ref_num other < 2 ^ 30
    → IsValid (append_buf other b s).0
      × (contents (append_buf other b s).0 (append_buf other b s).1
          ≡ contents b s ++ contents other s)
      × ((append_buf other b s).1.bytes ≡ s.bytes)
unfolding append_buf
append_buf_lem other b s w v t few = rw (refs_in_order_lem other w.shape) (
    let p =
      push_refs-Pushed false (ref_list other) b s v w.each t
        (omega (arith, ref_num-length b v.shape, ref_num-length other w.shape)) in
    (p.valid, p.bytes, p.memory))

no_bytes : (l : List ℕ) → length l ≡ 0 → l ≡ []
no_bytes [] h = refl
no_bytes (x ∷ l) h = absurd (omega arith)

-- `empty()` holds of a valid buffer only if it has no byte.
is_empty-contents : (b : IoBuf) (s : Store) → IsValid b → is_empty b ≡ true → contents b s ≡ []
is_empty-contents b s v e =
    no_bytes (contents b s) (length-bytes_of s.bytes (ref_list b) ∙ by_shape b v.shape e)
  where
    by_shape : (b : IoBuf) → HasShape b → is_empty b ≡ true → total (ref_list b) ≡ 0
    by_shape (small r0 r1) (inl (e0, e1)) e = unfold ref_list total in rw e0
    by_shape (small r0 r1) (inr (inl (n0, e1))) e =
        absurd (unfold is_empty in ground (arith, not_null r0.block n0))
    by_shape (small r0 r1) (inr (inr (n0, n1))) e =
        absurd (unfold is_empty in ground (arith, not_null r0.block n0))
    by_shape (big v) w e = unfold is_empty ref_list in ground (arith, w.counted)

-- Moving another valid buffer behind this one does the same, and leaves the other one with no byte.
pub append_movable_lem :
    (other b : IoBuf) (s : Store)
    → IsValid other
    → IsValid b
    → total (ref_list b) + total (ref_list other) < 2 ^ 32
    → ref_num b + ref_num other < 2 ^ 30
    → let (b', other', s') = append_movable other b s in
      IsValid b'
      × (contents b' s' ≡ contents b s ++ contents other s)
      × (contents other' s' ≡ [])
      × (s'.bytes ≡ s.bytes)
unfolding append_movable
append_movable_lem other b s w v t few = elim (Bool-cases (is_empty b)) [
  | inl e ↦
      let none_here = is_empty-contents b s v e in
      rw e (w, ap (λ l. l ++ contents other s) (sym none_here), none_here, refl)
  | inr e ↦
      let p =
        push_refs-Pushed true (ref_list other) b s v w.each t
          (omega (arith, ref_num-length b v.shape, ref_num-length other w.shape)) in
      rw (e, refs_in_order_lem other w.shape) (p.valid, p.bytes, nothing _, p.memory)
]
  where
    nothing : (m : Memory) → bytes_of m (ref_list empty_buf) ≡ []
    nothing m = unfold ref_list bytes_of in refl
