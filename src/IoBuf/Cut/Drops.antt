-- ===== src/IoBuf/Cut/Drops.antt =====
-- What an operation that takes bytes off the front leaves, step by step.
use light_rpc.Prelude.{
  All, ℕ, ◌+◌, ◌^◌, ◌≤◌, ◌<◌, ◌≡◌, refl, sym, ap, subst, ◌∙◌, inl, inr, false, List, ◌∷◌, length,
  drop, length-collect, arith,
}
use light_rpc.IoBuf.Store.{Store, dec_ref}
use light_rpc.IoBuf.View.{
  BlockRef, IoBuf, small, big, ring_ref_at, total, IsRef, IsValid, HasShape, ref_list, ref_num,
  buf_length,
}
use light_rpc.IoBuf.Refs.{pop_front_ref}
use light_rpc.IoBuf.Push.{not_null}
use light_rpc.IoBuf.Pop.{pop_front_ref_drops, Holds-IsValid}
use light_rpc.IoBuf.Bytes.{bytes_of, bytes-pop_front_ref}
use light_rpc.IoBuf.Shares.{shares, Counted, Balanced, nshared-dec_ref, pop_front_ref-store}
use light_rpc.IoBuf.Cut.{trim_front}
use light_rpc.IoBuf.Cut.Trim.{skip, total-skip, trim_front-Holds}
use light_rpc.IoBuf.Cut.Lists.{drop-drop, bytes_of-skip, bytes_of-tail}

-- The bytes of a buffer.
abbrev pub contents : IoBuf → Store → List ℕ
contents b s = bytes_of s.bytes (ref_list b)

-- `n` bytes less at the front, the memory as it was, and every block's count moved with the
-- references to it.
pub record Drops (n : ℕ) (b : IoBuf) (s : Store) (b' : IoBuf) (s' : Store) : Type 0 where
  pub valid : IsValid b'
  pub rest : contents b' s' ≡ drop n (contents b s)
  pub memory : s'.bytes ≡ s.bytes
  pub balance : Counted s (ref_list b) → Balanced s (ref_list b) s' (ref_list b')

pub Drops-refl : (b : IoBuf) (s : Store) → IsValid b → Drops 0 b s b s
Drops-refl b s v = record { valid = v; rest = refl; memory = refl; balance = λ c p. refl }

pub Drops-trans :
    {a c : ℕ} {b b1 b2 : IoBuf} {s s1 s2 : Store}
    → Drops a b s b1 s1
    → Drops c b1 s1 b2 s2
    → Drops (a + c) b s b2 s2
Drops-trans {a} {c} {b} {b1} {b2} {s} d e = record {
  valid = e.valid;
  rest = e.rest ∙ ap (drop c) d.rest ∙ drop-drop (contents b s) a c;
  memory = e.memory ∙ d.memory;
  balance = λ counted p. omega (
    arith,
    d.balance counted p,
    e.balance (λ q. omega (arith, d.balance counted q, counted q)) p,
  );
}

-- One reference given up.
pub pop_front_ref-Drops :
    (b : IoBuf) (s : Store) (x : BlockRef) (xs : List BlockRef)
    → IsValid b
    → ref_list b ≡ x ∷ xs
    → Drops x.length b s (pop_front_ref false b s).1 (pop_front_ref false b s).2
unfolding shares
pop_front_ref-Drops b s x xs v e =
    let (done, valid, list, front) = pop_front_ref_drops false b s x xs v e in
    let store = pop_front_ref-store false b s x xs v.shape e ∙ ap (λ r. dec_ref r.block s) front in
    record {
      valid = valid;
      rest = rw (bytes-pop_front_ref false b s, list, e) (bytes_of-tail s.bytes x xs);
      memory = bytes-pop_front_ref false b s;
      balance = λ counted p. omega (
        arith,
        ap (λ (t : Store). t.nshared p) store,
        ap (shares p) list,
        ap (shares p) e,
        nshared-dec_ref x.block p s (own counted),
      );
    }
  where
    own : Counted s (ref_list b) → 1 ≤ s.nshared x.block
    own counted = ground (arith, counted x.block, ap (shares x.block) e)

pub trim_front-Drops :
    (n : ℕ) (b : IoBuf) (s : Store) (x : BlockRef) (xs : List BlockRef)
    → IsValid b
    → ref_list b ≡ x ∷ xs
    → n < x.length
    → Drops n b s (trim_front n b) s
unfolding shares
trim_front-Drops n b s x xs v e l =
    let each = subst (All IsRef) e v.each in
    let held = trim_front-Holds n b x xs v.shape each.0 v.bounded e l in
    record {
      valid =
          Holds-IsValid held (skip-IsRef each.0, each.1)
            (omega (arith, total-skip n x xs e l, v.bounded));
      rest = rw (held.1, e) (bytes_of-skip s.bytes x xs n (omega arith));
      memory = refl;
      balance = λ counted p. omega (arith, ap (shares p) held.1, ap (shares p) e);
    }
  where
    skip-IsRef : IsRef x → IsRef (skip n x)
    skip-IsRef h = ground arith

-- The length and the number of references that the code keeps are those of the reference list.
pub buf_length-total : (b : IoBuf) → IsValid b → buf_length b ≡ total (ref_list b)
unfolding buf_length ref_list total
buf_length-total b v = by_shape b v.shape v.bounded
  where
    by_shape :
        (b : IoBuf) → HasShape b → total (ref_list b) < 2 ^ 32 → buf_length b ≡ total (ref_list b)
    by_shape (small r0 r1) (inl (e0, e1)) t = rw (e0, e1)
    by_shape (small r0 r1) (inr (inl (n0, e1))) t =
        let u = rw (e1, not_null r0.block n0) at t in rw (e1, not_null r0.block n0) (omega arith)
    by_shape (small r0 r1) (inr (inr (n0, n1))) t =
        let u = rw (not_null r0.block n0, not_null r1.block n1) at t in
        rw (not_null r0.block n0, not_null r1.block n1) (omega arith)
    by_shape (big v) w t = w.counted

pub ref_num-length : (b : IoBuf) → HasShape b → ref_num b ≡ length (ref_list b)
unfolding ref_num ref_list
ref_num-length (small r0 r1) (inl (e0, e1)) = rw (e0, e1)
ref_num-length (small r0 r1) (inr (inl (n0, e1))) = rw (e1, not_null r0.block n0)
ref_num-length (small r0 r1) (inr (inr (n0, n1))) = rw (not_null r0.block n0, not_null r1.block n1)
ref_num-length (big v) w = sym (length-collect (ring_ref_at v) v.nref)

-- The same of a buffer all of whose references were counted.
pub record Dropped (n : ℕ) (b : IoBuf) (s : Store) (b' : IoBuf) (s' : Store) : Type 0 where
  pub valid : IsValid b'
  pub rest : contents b' s' ≡ drop n (contents b s)
  pub memory : s'.bytes ≡ s.bytes
  pub balance : Balanced s (ref_list b) s' (ref_list b')

pub Drops-Dropped :
    {n : ℕ} {b b' : IoBuf} {s s' : Store}
    → Drops n b s b' s'
    → Counted s (ref_list b)
    → Dropped n b s b' s'
Drops-Dropped d counted = record {
  valid = d.valid;
  rest = d.rest;
  memory = d.memory;
  balance = d.balance counted;
}
