-- ===== src/IoBuf/Cut/Back.antt =====
-- `pop_back`: what it takes off the back of a buffer.
use light_rpc.Prelude.{
  ℕ, zero, suc, ◌+◌, ◌-◌, ◌≤◌, ◌<◌, ◌≡◌, refl, sym, ap, ap₂, subst, ◌∙◌, ◌⊎◌, inl, inr, Bool-cases,
  ◌==◌, ltb, leb, List, [], ◌∷◌, ◌++◌, append-nil, some, All, length, length-append, take, min,
  arith,
}
use light_rpc.IoBuf.Store.{Store, dec_ref}
use light_rpc.IoBuf.View.{BlockRef, IoBuf, total, IsRef, IsValid, ref_list, ref_num, buf_length}
use light_rpc.IoBuf.Refs.{pop_back_ref}
use light_rpc.IoBuf.Pop.{pop_back_ref_drops, Holds-IsValid}
use light_rpc.IoBuf.Bytes.{
  slice, ref_bytes, bytes_of, bytes_of-append, length-bytes_of, bytes-pop_back_ref,
}
use light_rpc.IoBuf.Shares.{
  shares, shares-append, Counted, Balanced, nshared-dec_ref, pop_back_ref-store,
}
use light_rpc.IoBuf.Cut.{clear, trim_back, pop_back_loop, pop_back}
use light_rpc.IoBuf.Cut.Trim.{shorten, total-shorten, trim_back-Holds}
use light_rpc.IoBuf.Cut.Lists.{take-append_within, take-append_past, take_all, take-slice, drop_all}
use light_rpc.IoBuf.Cut.Drops.{contents, buf_length-total, ref_num-length}
use light_rpc.IoBuf.Cut.Clear.{clear-Drops}

-- The first `k` bytes kept, the memory as it was, and every block's count moved with the references
-- to it.
record Keeps (k : ℕ) (b : IoBuf) (s : Store) (b' : IoBuf) (s' : Store) : Type 0 where
  valid : IsValid b'
  kept : contents b' s' ≡ take k (contents b s)
  memory : s'.bytes ≡ s.bytes
  balance : Counted s (ref_list b) → Balanced s (ref_list b) s' (ref_list b')

-- The same of a buffer all of whose references were counted.
pub record Kept (k : ℕ) (b : IoBuf) (s : Store) (b' : IoBuf) (s' : Store) : Type 0 where
  pub valid : IsValid b'
  pub kept : contents b' s' ≡ take k (contents b s)
  pub memory : s'.bytes ≡ s.bytes
  pub balance : Balanced s (ref_list b) s' (ref_list b')

take-take : (j k : ℕ) (l : List ℕ) → j ≤ k → take j (take k l) ≡ take j l
take-take zero k l h = refl
take-take (suc j) zero l h = absurd (omega arith)
take-take (suc j) (suc k) [] h = refl
take-take (suc j) (suc k) (x ∷ l) h = ap (◌∷◌ x) (take-take j k l (omega arith))

Keeps-trans :
    {k j : ℕ} {b b1 b2 : IoBuf} {s s1 s2 : Store}
    → j ≤ k
    → Keeps k b s b1 s1
    → Keeps j b1 s1 b2 s2
    → Keeps j b s b2 s2
Keeps-trans {k} {j} {b} {b1} {b2} {s} h d e = record {
  valid = e.valid;
  kept = e.kept ∙ ap (take j) d.kept ∙ take-take j k (contents b s) h;
  memory = e.memory ∙ d.memory;
  balance = λ counted p. omega (
    arith,
    d.balance counted p,
    e.balance (λ q. omega (arith, d.balance counted q, counted q)) p,
  );
}

Keeps-refl : (k : ℕ) (b : IoBuf) (s : Store) → IsValid b → total (ref_list b) ≤ k → Keeps k b s b s
Keeps-refl k b s v h = record {
  valid = v;
  kept = sym (take_all (contents b s) k (omega (arith, length-bytes_of s.bytes (ref_list b))));
  memory = refl;
  balance = λ c p. refl;
}

All-init : (xs : List BlockRef) (x : BlockRef) → All IsRef (xs ++ (x ∷ [])) → All IsRef xs × IsRef x
All-init [] x a = (tt, a.0)
All-init (y ∷ xs) x a = let (front, last) = All-init xs x a.1 in ((a.0, front), last)

All-snoc : (xs : List BlockRef) (x : BlockRef) → All IsRef xs → IsRef x → All IsRef (xs ++ (x ∷ []))
All-snoc [] x a h = (h, tt)
All-snoc (y ∷ xs) x a h = (a.0, All-snoc xs x a.1 h)

total-snoc : (xs : List BlockRef) (x : BlockRef) → total (xs ++ (x ∷ [])) ≡ total xs + x.length
unfolding total
total-snoc [] x = omega arith
total-snoc (y ∷ xs) x = omega (arith, total-snoc xs x)

module _ (b : IoBuf) (s : Store) (xs : List BlockRef) (x : BlockRef) (v : IsValid b)
    (e : ref_list b ≡ xs ++ (x ∷ [])) where
  each : All IsRef xs × IsRef x
  each = All-init xs x (subst (All IsRef) e v.each)

  whole : contents b s ≡ bytes_of s.bytes xs ++ ref_bytes s.bytes x
  unfolding bytes_of
  whole =
      ap (bytes_of s.bytes) e
      ∙ bytes_of-append s.bytes xs (x ∷ [])
      ∙ ap (◌++◌ (bytes_of s.bytes xs)) (append-nil (ref_bytes s.bytes x))

  -- The last reference given up.
  pop_back_ref-Keeps : Keeps (total xs) b s (pop_back_ref b s).1 (pop_back_ref b s).2
  unfolding shares
  pop_back_ref-Keeps =
      let (done, valid, list, last) = pop_back_ref_drops b s xs x v e in
      let store = pop_back_ref-store b s xs x v.shape e ∙ ap (λ r. dec_ref r.block s) last in
      let size = length-bytes_of s.bytes xs in
      record {
        valid = valid;
        kept =
            ap₂ (λ m l. bytes_of m l) (bytes-pop_back_ref b s) list
            ∙ sym (take_all (bytes_of s.bytes xs) (total xs) (omega arith))
            ∙ sym (
                take-append_within (bytes_of s.bytes xs) (ref_bytes s.bytes x) (total xs)
                  (omega arith))
            ∙ ap (take (total xs)) (sym whole);
        memory = bytes-pop_back_ref b s;
        balance = λ counted p. omega (
          arith,
          ap (λ (t : Store). t.nshared p) store,
          ap (shares p) list,
          ap (shares p) e,
          shares-append p xs (x ∷ []),
          nshared-dec_ref x.block p s (own counted),
        );
      }
    where
      own : Counted s (ref_list b) → 1 ≤ s.nshared x.block
      own counted =
          ground (arith, counted x.block, ap (shares x.block) e, shares-append x.block xs (x ∷ []))

  -- The last reference cut short.
  trim_back-Keeps : (n : ℕ) → n < x.length → Keeps (total xs + (x.length - n)) b s (trim_back n b) s
  unfolding shares bytes_of ref_bytes
  trim_back-Keeps n l =
      let held = trim_back-Holds n b xs x v.shape each.1 v.bounded e l in
      let k = total xs + (x.length - n) in
      let size = length-bytes_of s.bytes xs in
      let rest : k - length (bytes_of s.bytes xs) ≡ x.length - n = omega arith in
      record {
        valid =
            Holds-IsValid held (All-snoc xs (shorten n x) each.0 (ground (arith, each.1)))
              (omega (arith, total-shorten n xs x e l, v.bounded));
        kept =
            ap (bytes_of s.bytes) held.1
            ∙ bytes_of-append s.bytes xs (shorten n x ∷ [])
            ∙ ap (◌++◌ (bytes_of s.bytes xs)) (
                append-nil (ref_bytes s.bytes (shorten n x))
                ∙ sym (take-slice (s.bytes x.block) x.offset x.length (x.length - n) (omega arith))
                ∙ ap (λ j. take j (slice (s.bytes x.block) x.offset x.length)) (sym rest))
            ∙ sym (take-append_past (bytes_of s.bytes xs) (ref_bytes s.bytes x) k (omega arith))
            ∙ ap (take k) (sym whole);
        memory = refl;
        balance = λ counted p. omega (
          arith,
          ap (shares p) held.1,
          ap (shares p) e,
          shares-append p xs (x ∷ []),
          shares-append p xs (shorten n x ∷ []),
        );
      }

-- A list is empty or has a last element.
abbrev Snoc : List BlockRef → Type 0
Snoc ys = (ys ≡ []) ⊎ ((xs : List BlockRef) × (x : BlockRef) × (ys ≡ xs ++ (x ∷ [])))

Snoc-cases : (ys : List BlockRef) → Snoc ys
Snoc-cases [] = inl refl
Snoc-cases (y ∷ ys) = elim (Snoc-cases ys) [
  | inl e ↦ inr ([], y, ap (◌∷◌ y) e)
  | inr split ↦ inr (y ∷ split.0, split.1, ap (◌∷◌ y) split.2)
]

-- With more rounds than references the loop ends, the last `n` bytes gone.
pop_back_loop-Keeps :
    (fuel n : ℕ) (b : IoBuf) (s : Store)
    → IsValid b
    → length (ref_list b) < fuel
    → n ≤ total (ref_list b)
    → (b' : IoBuf) × (s' : Store) × (pop_back_loop fuel n b s ≡ some (b', s'))
      × Keeps (total (ref_list b) - n) b s b' s'
unfolding pop_back_loop
pop_back_loop-Keeps zero n b s v f h = absurd (omega arith)
pop_back_loop-Keeps (suc fuel) n b s v f h = elim (Bool-cases (n == 0)) [
  | inl z ↦
      let none_left : n ≡ 0 = ground arith in
      rw none_left (b, s, refl, Keeps-refl _ b s v (omega arith))
  | inr more ↦ elim (Snoc-cases (ref_list b)) [
    | inl e ↦ absurd (unfold total in ground (arith, ap total e))
    | inr split ↦
        let (xs, x, e) = split in
        let (done, valid, list, last) = pop_back_ref_drops b s xs x v e in
        let size = ap total e ∙ total-snoc xs x in
        let count = ap length e ∙ length-append xs (x ∷ []) in
        elim (Bool-cases (ltb n x.length)) [
          | inl within ↦
              rw (more, last, within)
                (
                  trim_back n b,
                  s,
                  refl,
                  subst (λ k. Keeps k b s (trim_back n b) s) (ground (arith, size))
                      (trim_back-Keeps b s xs x v e n (ground arith)),
                )
          | inr past ↦
              let rest =
                pop_back_loop-Keeps fuel (n - x.length) (pop_back_ref b s).1 (pop_back_ref b s).2
                  valid (omega (arith, ap length list)) (ground (arith, ap total list, size)) in
              let left : total (ref_list (pop_back_ref b s).1) - (n - x.length)
                  ≡ total (ref_list b) - n =
                ground (arith, ap total list, size) in
              rw (more, last, past)
                (
                  rest.0,
                  rest.1,
                  rest.2,
                  Keeps-trans (ground (arith, size)) (pop_back_ref-Keeps b s xs x v e) (
                      subst (λ k. Keeps k (pop_back_ref b s).1 (pop_back_ref b s).2 rest.0 rest.1)
                        left rest.3),
                )
        ]
  ]
]

-- `pop_back` ends, returns how many bytes it took (`n`, or all there are), and leaves a valid
-- buffer with the other bytes, in order; no byte of a block changes, and each block loses as many
-- shares as the buffer lost references to it. It supposes a valid buffer whose references are
-- counted in their blocks.
pub pop_back_lem :
    (n : ℕ) (b : IoBuf) (s : Store)
    → IsValid b
    → Counted s (ref_list b)
    → (b' : IoBuf) × (s' : Store) × (pop_back n b s ≡ some (min n (total (ref_list b)), b', s'))
      × Kept (total (ref_list b) - n) b s b' s'
unfolding pop_back
pop_back_lem n b s v counted = elim (Bool-cases (leb (buf_length b) n)) [
  | inl all ↦
      let gone = clear-Drops n b s v (ground (arith, buf_length-total b v)) in
      let least : buf_length b ≡ min n (total (ref_list b)) =
        ground (arith, buf_length-total b v) in
      let nothing : total (ref_list b) - n ≡ 0 = ground (arith, buf_length-total b v) in
      rw (all, nothing)
        (
          (clear b s).0,
          (clear b s).1,
          ap (λ k. some (k, (clear b s).0, (clear b s).1)) least,
          record {
            valid = gone.valid;
            kept =
                gone.rest
                ∙ drop_all (contents b s) n
                    (ground (arith, buf_length-total b v, length-bytes_of s.bytes (ref_list b)));
            memory = gone.memory;
            balance = gone.balance counted;
          },
        )
  | inr part ↦
      let (b', s', run, keeps) =
        pop_back_loop-Keeps (suc (ref_num b)) n b s v (omega (arith, ref_num-length b v.shape))
          (ground (arith, buf_length-total b v)) in
      rw (part, run)
        (
          b',
          s',
          ap (λ k. some (k, b', s')) (ground (arith, buf_length-total b v)),
          record {
            valid = keeps.valid;
            kept = keeps.kept;
            memory = keeps.memory;
            balance = keeps.balance counted;
          },
        )
]
