-- ===== src/IoBuf/Cut/Into.antt =====
-- `cutn` into another buffer.
use light_rpc.Prelude.{
  All, ℕ, zero, suc, ◌+◌, ◌-◌, ◌^◌, ◌≤◌, ◌<◌, ◌≡◌, refl, sym, ap, ap₂, subst, ◌∙◌, inl, inr, true,
  false, Bool-cases, ◌==◌, ltb, leb, if◌then◌else◌, List, [], ◌∷◌, ◌++◌, some, length, drop, min,
  arith,
}
use light_rpc.IoBuf.Store.{Store}
use light_rpc.IoBuf.View.{
  BlockRef, IoBuf, total, IsRef, IsValid, ref_list, ref_num, buf_length, front_ref,
}
use light_rpc.IoBuf.Refs.{pop_front_ref}
use light_rpc.IoBuf.Pop.{pop_front_ref_drops}
use light_rpc.IoBuf.Bytes.{bytes_of, bytes-pop_front_ref}
use light_rpc.IoBuf.Shares.{shares, pop_front_ref-store}
use light_rpc.IoBuf.Cut.{trim_front}
use light_rpc.IoBuf.Cut.Trim.{trim_front-Holds}
use light_rpc.IoBuf.Cut.Lists.{drop-drop, bytes_of-tail}
use light_rpc.IoBuf.Cut.Drops.{contents, trim_front-Drops, buf_length-total, ref_num-length}
use mathlib.Core.Bool.{false≢true}
use light_rpc.Prelude.{take, append-nil, append_assoc}
use light_rpc.IoBuf.Bytes.{ref_bytes, bytes_of-append_ref, bytes-push_back_ref}
use light_rpc.IoBuf.Refs.{push_back_ref}
use light_rpc.IoBuf.Ring.{length-append_ref, total-append_ref}
use light_rpc.IoBuf.Push.{push_back_ref_appends}
use light_rpc.IoBuf.Shares.{push_back_ref-shares}
use light_rpc.IoBuf.Cut.{Cut, cut_loop, cutn}
use light_rpc.IoBuf.Cut.Lists.{take_add, take-bytes_of_within}

-- The first `n` bytes moved from `b` behind those of `out`, the memory as it was, and every
-- block's count moved with the references of the two buffers to it.
pub record Cuts (n : ℕ) (b out : IoBuf) (s : Store) (c : Cut) : Type 0 where
  pub left : IsValid c.self
  pub filled : IsValid c.out
  pub rest : contents c.self c.store ≡ drop n (contents b s)
  pub taken : contents c.out c.store ≡ contents out s ++ take n (contents b s)
  pub memory : c.store.bytes ≡ s.bytes
  pub fewer : length (ref_list c.self) ≤ length (ref_list b)
  pub more :
      length (ref_list c.out) + length (ref_list c.self)
      ≤ length (ref_list out) + length (ref_list b) + 1
  pub balance :
      ((p : ℕ) → shares p (ref_list b) + shares p (ref_list out) ≤ s.nshared p)
      → (p : ℕ)
      → c.store.nshared p + (shares p (ref_list b) + shares p (ref_list out))
        ≡ s.nshared p + (shares p (ref_list c.self) + shares p (ref_list c.out))

Cuts-refl :
    (b out : IoBuf) (s : Store)
    → IsValid b
    → IsValid out
    → Cuts 0 b out s (record { self = b; out = out; store = s })
Cuts-refl b out s v w = record {
  left = v;
  filled = w;
  rest = refl;
  taken = sym (append-nil (contents out s));
  memory = refl;
  fewer = omega arith;
  more = omega arith;
  balance = λ c p. refl;
}

Cuts-trans :
    {a k : ℕ} {b out : IoBuf} {s : Store} {c c' : Cut}
    → Cuts a b out s c
    → Cuts k c.self c.out c.store c'
    → length (ref_list c.out) + length (ref_list c.self)
      ≤ length (ref_list out) + length (ref_list b)
    → Cuts (a + k) b out s c'
Cuts-trans {a} {k} {b} {out} {s} d e h = record {
  left = e.left;
  filled = e.filled;
  rest = e.rest ∙ ap (drop k) d.rest ∙ drop-drop (contents b s) a k;
  taken =
      e.taken
      ∙ ap₂ (λ l r. l ++ take k r) d.taken d.rest
      ∙ append_assoc (contents out s) (take a (contents b s)) (take k (drop a (contents b s)))
      ∙ ap (◌++◌ (contents out s)) (sym (take_add (contents b s) a k));
  memory = e.memory ∙ d.memory;
  fewer = omega (arith, d.fewer, e.fewer);
  more = omega (arith, h, e.more);
  balance = λ own p.
      omega (arith, d.balance own p, e.balance (λ q. omega (arith, d.balance own q, own q)) p);
}

module _ (b out : IoBuf) (s : Store) (x : BlockRef) (xs : List BlockRef) (v : IsValid b)
    (w : IsValid out) (e : ref_list b ≡ x ∷ xs) (few : ref_num out < 2 ^ 30) where
  each : All IsRef (x ∷ xs)
  each = subst (All IsRef) e v.each

  -- A reference that is taken whole moves with its share.
  move-Cuts :
      total (ref_list out) + x.length < 2 ^ 32
      → Cuts x.length b out s (record {
        self = (pop_front_ref true b (push_back_ref true out x s).1).1;
        out = (push_back_ref true out x s).0;
        store = (pop_front_ref true b (push_back_ref true out x s).1).2;
      })
  unfolding shares ref_bytes
  move-Cuts fits =
      let pushed = push_back_ref_appends true out x s w each.0 fits few in
      let s1 : Store = (push_back_ref true out x s).1 in
      let popped = pop_front_ref_drops true b s1 x xs v e in
      let store = pop_front_ref-store true b s1 x xs v.shape e in
      let memory : (pop_front_ref true b s1).2.bytes ≡ s.bytes =
        bytes-pop_front_ref true b s1 ∙ bytes-push_back_ref true out x s in
      record {
        left = popped.1;
        filled = pushed.0;
        rest = rw (memory, popped.2, e) (bytes_of-tail s.bytes x xs);
        taken =
            rw (memory, pushed.1, e)
              (bytes_of-append_ref s.bytes (ref_list out) x w.each each.0
                ∙ ap (◌++◌ (bytes_of s.bytes (ref_list out)))
                    (sym (take-bytes_of_within s.bytes x xs x.length (omega arith))));
        memory = memory;
        fewer = omega (arith, ap length e, ap length popped.2);
        more = omega (
          arith,
          ap length e,
          ap length popped.2,
          ap length pushed.1,
          length-append_ref (ref_list out) x,
        );
        balance = λ own p. omega (
          arith,
          ap (λ (t : Store). t.nshared p) store,
          ap (shares p) e,
          ap (shares p) popped.2,
          ap (shares p) pushed.1,
          push_back_ref-shares true out x s p w.shape (λ t. held own),
        );
      }
    where
      held :
          ((p : ℕ) → shares p (ref_list b) + shares p (ref_list out) ≤ s.nshared p)
          → 1 ≤ s.nshared x.block
      held own = ground (arith, own x.block, ap (shares x.block) e)

  -- Of one that is cut apart both buffers have a share.
  split-Cuts :
      (n : ℕ)
      → total (ref_list out) + n < 2 ^ 32
      → n < x.length
      → Cuts n b out s (record {
        self = trim_front n b;
        out = (push_back_ref false out (record x { length = n }) s).0;
        store = (push_back_ref false out (record x { length = n }) s).1;
      })
  unfolding shares ref_bytes
  split-Cuts n fits l =
      let part : BlockRef = record x { length = n } in
      let pushed = push_back_ref_appends false out part s w part-IsRef fits few in
      let trimmed = trim_front-Drops n b s x xs v e l in
      let list = (trim_front-Holds n b x xs v.shape each.0 v.bounded e l).1 in
      let memory = bytes-push_back_ref false out part s in
      record {
        left = trimmed.valid;
        filled = pushed.0;
        rest = rw memory trimmed.rest;
        taken =
            rw (memory, pushed.1, e)
              (bytes_of-append_ref s.bytes (ref_list out) part w.each part-IsRef
                ∙ ap (◌++◌ (bytes_of s.bytes (ref_list out)))
                    (sym (take-bytes_of_within s.bytes x xs n (omega arith))));
        memory = memory;
        fewer = omega (arith, ap length e, ap length list);
        more = omega (
          arith,
          ap length e,
          ap length list,
          ap length pushed.1,
          length-append_ref (ref_list out) part,
        );
        balance = λ own p. omega (
          arith,
          ap (shares p) e,
          ap (shares p) list,
          ap (shares p) pushed.1,
          push_back_ref-shares false out part s p w.shape (λ t. absurd (false≢true t)),
        );
      }
    where
      part-IsRef : IsRef (record x { length = n })
      part-IsRef = ground (arith, each.0)

-- With more rounds than references the loop ends, `n` bytes moved.
cut_loop-Cuts :
    (fuel n : ℕ) (b out : IoBuf) (s : Store) (xs : List BlockRef)
    → IsValid b
    → IsValid out
    → ref_list b ≡ xs
    → length xs < fuel
    → n ≤ total xs
    → total (ref_list out) + n < 2 ^ 32
    → length (ref_list out) + length xs < 2 ^ 30
    → (c : Cut) × (cut_loop fuel n b out s ≡ some c) × Cuts n b out s c
unfolding cut_loop total
cut_loop-Cuts zero n b out s xs v w e f h t few = absurd (omega arith)
cut_loop-Cuts (suc fuel) n b out s [] v w e f h t few =
    let none_left : n ≡ 0 = omega arith in
    rw none_left (record { self = b; out = out; store = s }, refl, Cuts-refl b out s v w)
cut_loop-Cuts (suc fuel) n b out s (x ∷ xs) v w e f h t few = elim (Bool-cases (n == 0)) [
  | inl z ↦
      let zero_left : n ≡ 0 = ground arith in
      rw zero_left (record { self = b; out = out; store = s }, refl, Cuts-refl b out s v w)
  | inr more ↦
      rw (more, front)
        (elim (Bool-cases (leb x.length n)) [
          | inl whole ↦
              let s1 : Store = (push_back_ref true out x s).1 in
              let fits : total (ref_list out) + x.length < 2 ^ 32 = ground arith in
              let step = move-Cuts b out s x xs v w e room fits in
              let pushed = push_back_ref_appends true out x s w step_each.0 fits room in
              let rest =
                cut_loop-Cuts fuel (n - x.length) (pop_front_ref true b s1).1
                  (push_back_ref true out x s).0 (pop_front_ref true b s1).2 xs step.left
                  step.filled (pop_front_ref_drops true b s1 x xs v e).2 (omega arith)
                  (ground arith)
                  (ground (arith, ap total pushed.1, total-append_ref (ref_list out) x fits))
                  (omega (arith, ap length pushed.1, length-append_ref (ref_list out) x)) in
              rw whole (
                rest.0,
                rest.1,
                subst (λ k. Cuts k b out s rest.0) (ground arith)
                    (Cuts-trans step rest.2 (
                      omega (
                        arith,
                        ap length pushed.1,
                        length-append_ref (ref_list out) x,
                        ap length (pop_front_ref_drops true b s1 x xs v e).2,
                        ap length e,
                      ))),
              )
          | inr part ↦ rw part (_, refl, split-Cuts b out s x xs v w e room n t (ground arith))
        ])
]
  where
    front : front_ref b ≡ x
    front = (pop_front_ref_drops false b s x xs v e).3

    room : ref_num out < 2 ^ 30
    room = omega (arith, ref_num-length out w.shape)

    step_each : All IsRef (x ∷ xs)
    step_each = subst (All IsRef) e v.each

pub cutn-Cuts :
    (n : ℕ) (b out : IoBuf) (s : Store)
    → IsValid b
    → IsValid out
    → total (ref_list out) + total (ref_list b) < 2 ^ 32
    → ref_num out + ref_num b < 2 ^ 30
    → (c : Cut) × (cutn n b out s ≡ some (min n (total (ref_list b)), c))
      × Cuts (min n (total (ref_list b))) b out s c
unfolding cutn
cutn-Cuts n b out s v w t few =
    let least : (if ltb (buf_length b) n then buf_length b else n) ≡ min n (total (ref_list b)) =
      ground (arith, buf_length-total b v) in
    let (c, same, cuts) =
      cut_loop-Cuts (suc (ref_num b)) (min n (total (ref_list b))) b out s (ref_list b) v w refl
        (omega (arith, ref_num-length b v.shape)) (omega arith) (omega arith)
        (omega (arith, ref_num-length b v.shape, ref_num-length out w.shape)) in
    rw (least, same) (c, refl, cuts)

-- The first `n` bytes moved, of two buffers all of whose references were counted.
pub record Moved (n : ℕ) (b out : IoBuf) (s : Store) (c : Cut) : Type 0 where
  pub left : IsValid c.self
  pub filled : IsValid c.out
  pub rest : contents c.self c.store ≡ drop n (contents b s)
  pub taken : contents c.out c.store ≡ contents out s ++ take n (contents b s)
  pub memory : c.store.bytes ≡ s.bytes
  pub balance :
      (p : ℕ)
      → c.store.nshared p + (shares p (ref_list b) + shares p (ref_list out))
        ≡ s.nshared p + (shares p (ref_list c.self) + shares p (ref_list c.out))

-- `cutn` into another buffer ends and returns how many bytes it moved, `n` or all there are: they
-- stand, in order, behind those that `out` had, and the rest stays, in order. Both buffers are valid
-- afterwards, no byte of a block changes, and each block's count moves with the references of the
-- two buffers to it. It supposes two valid buffers with fewer than 2^32 bytes and 2^30 references
-- together, whose references are counted in their blocks.
pub cutn_lem :
    (n : ℕ) (b out : IoBuf) (s : Store)
    → IsValid b
    → IsValid out
    → total (ref_list out) + total (ref_list b) < 2 ^ 32
    → ref_num out + ref_num b < 2 ^ 30
    → ((p : ℕ) → shares p (ref_list b) + shares p (ref_list out) ≤ s.nshared p)
    → (c : Cut) × (cutn n b out s ≡ some (min n (total (ref_list b)), c))
      × Moved (min n (total (ref_list b))) b out s c
cutn_lem n b out s v w t few counted =
    let (c, run, cuts) = cutn-Cuts n b out s v w t few in
    (
      c,
      run,
      record {
        left = cuts.left;
        filled = cuts.filled;
        rest = cuts.rest;
        taken = cuts.taken;
        memory = cuts.memory;
        balance = cuts.balance counted;
      },
    )
