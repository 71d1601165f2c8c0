-- ===== src/IoBuf/Cut/Out.antt =====
-- `cutn` into raw memory, and `cut1`.
use light_rpc.Prelude.{
  ℕ, zero, suc, ◌-◌, ◌≤◌, ◌<◌, ◌≡◌, refl, sym, ap, subst, ◌∙◌, inl, inr, false, Bool-cases, ◌==◌,
  ltb, leb, if◌then◌else◌, List, [], ◌∷◌, ◌++◌, some, length, min, arith,
}
use light_rpc.IoBuf.Store.{Store}
use light_rpc.IoBuf.View.{BlockRef, IoBuf, total, IsValid, ref_list, ref_num, buf_length, front_ref}
use light_rpc.IoBuf.Refs.{pop_front_ref}
use light_rpc.IoBuf.Pop.{pop_front_ref_drops}
use light_rpc.IoBuf.Bytes.{bytes_of, bytes-pop_front_ref}
use light_rpc.IoBuf.Shares.{Counted}
use light_rpc.IoBuf.Cut.{trim_front}
use light_rpc.IoBuf.Cut.Drops.{
  contents, Drops, Dropped, Drops-Dropped, Drops-refl, Drops-trans, pop_front_ref-Drops,
  trim_front-Drops, buf_length-total, ref_num-length,
}
use light_rpc.Prelude.{take}
use light_rpc.IoBuf.Bytes.{slice, ref_bytes}
use light_rpc.IoBuf.Cut.{cut_bytes_loop, cut_bytes, prepend}
use light_rpc.IoBuf.Cut.Lists.{take-bytes_of_within, take-bytes_of_past}

cut_bytes_loop-Drops :
    (fuel n : ℕ) (b : IoBuf) (s : Store) (xs : List BlockRef)
    → IsValid b
    → ref_list b ≡ xs
    → length xs < fuel
    → n ≤ total xs
    → (b' : IoBuf) × (s' : Store) × (cut_bytes_loop fuel n b s
        ≡ some (take n (bytes_of s.bytes xs), b', s'))
      × Drops n b s b' s'
unfolding cut_bytes_loop total
cut_bytes_loop-Drops zero n b s xs v e f h = absurd (omega arith)
cut_bytes_loop-Drops (suc fuel) n b s [] v e f h =
    let none_left : n ≡ 0 = omega arith in rw none_left (b, s, refl, Drops-refl b s v)
cut_bytes_loop-Drops (suc fuel) n b s (x ∷ xs) v e f h = elim (Bool-cases (n == 0)) [
  | inl z ↦ let zero_left : n ≡ 0 = ground arith in rw zero_left (b, s, refl, Drops-refl b s v)
  | inr more ↦
      rw (more, front)
        (elim (Bool-cases (leb x.length n)) [
          | inl whole ↦
              let popped = pop_front_ref_drops false b s x xs v e in
              let s1 : Store = (pop_front_ref false b s).2 in
              let rest =
                cut_bytes_loop-Drops fuel (n - x.length) (pop_front_ref false b s).1 s1 xs popped.1
                  popped.2 (omega arith) (omega arith) in
              let bytes : slice (s.bytes x.block) x.offset x.length
                    ++ take (n - x.length) (bytes_of s1.bytes xs)
                  ≡ take n (bytes_of s.bytes (x ∷ xs)) =
                cut_whole s1 (bytes-pop_front_ref false b s) (ground arith) in
              rw whole (
                rest.0,
                rest.1,
                ap (prepend (slice (s.bytes x.block) x.offset x.length)) rest.2
                    ∙ ap (λ l. some (l, rest.0, rest.1)) bytes,
                subst (λ k. Drops k b s rest.0 rest.1) (ground arith)
                    (Drops-trans (pop_front_ref-Drops b s x xs v e) rest.3),
              )
          | inr part ↦ rw part (
            trim_front n b,
            s,
            ap (λ l. some (l, trim_front n b, s))
                (sym (take-bytes_of_within s.bytes x xs n (ground arith))),
            trim_front-Drops n b s x xs v e (ground arith),
          )
        ])
]
  where
    front : front_ref b ≡ x
    front = (pop_front_ref_drops false b s x xs v e).3

    cut_whole :
        (s1 : Store)
        → s1.bytes ≡ s.bytes
        → x.length ≤ n
        → slice (s.bytes x.block) x.offset x.length ++ take (n - x.length) (bytes_of s1.bytes xs)
          ≡ take n (bytes_of s.bytes (x ∷ xs))
    cut_whole s1 m l = rw m (unfold ref_bytes in sym (take-bytes_of_past s.bytes x xs n l))

cut_bytes-Drops :
    (n : ℕ) (b : IoBuf) (s : Store)
    → IsValid b
    → (b' : IoBuf) × (s' : Store) × (cut_bytes n b s
        ≡ some (take (min n (total (ref_list b))) (contents b s), b', s'))
      × Drops (min n (total (ref_list b))) b s b' s'
unfolding cut_bytes
cut_bytes-Drops n b s v =
    let least : (if ltb (buf_length b) n then buf_length b else n) ≡ min n (total (ref_list b)) =
      ground (arith, buf_length-total b v) in
    rw least (
      cut_bytes_loop-Drops (suc (ref_num b)) (min n (total (ref_list b))) b s (ref_list b) v refl
        (omega (arith, ref_num-length b v.shape)) (omega arith))

-- `cutn` into memory ends and writes the first `n` bytes of the buffer, or all there are, in order;
-- it leaves a valid buffer with the others, the blocks' bytes as they were, and each block loses
-- as many shares as the buffer lost references to it. It supposes a valid buffer whose references
-- are counted in their blocks.
pub cut_bytes_lem :
    (n : ℕ) (b : IoBuf) (s : Store)
    → IsValid b
    → Counted s (ref_list b)
    → (b' : IoBuf) × (s' : Store) × (cut_bytes n b s
        ≡ some (take (min n (total (ref_list b))) (contents b s), b', s'))
      × Dropped (min n (total (ref_list b))) b s b' s'
cut_bytes_lem n b s v counted =
    let (b', s', run, drops) = cut_bytes-Drops n b s v in (b', s', run, Drops-Dropped drops counted)
