-- ===== src/IoBuf/Cut/Front.antt =====
-- `pop_front`: what it takes off the front of a buffer.
use light_rpc.Prelude.{
  ℕ, zero, suc, ◌-◌, ◌≤◌, ◌<◌, ◌≡◌, refl, ap, subst, inl, inr, true, false, Bool-cases, ◌==◌, ltb,
  leb, List, [], ◌∷◌, some, length, min, arith,
}
use light_rpc.IoBuf.Store.{Store}
use light_rpc.IoBuf.View.{BlockRef, IoBuf, total, IsValid, ref_list, ref_num, buf_length, front_ref}
use light_rpc.IoBuf.Refs.{pop_front_ref}
use light_rpc.IoBuf.Pop.{pop_front_ref_drops}
use light_rpc.IoBuf.Shares.{Counted}
use light_rpc.IoBuf.Cut.{clear, trim_front, pop_front_loop, pop_front}
use light_rpc.IoBuf.Cut.Drops.{
  Drops, Dropped, Drops-Dropped, Drops-refl, Drops-trans, pop_front_ref-Drops, trim_front-Drops,
  buf_length-total, ref_num-length,
}
use light_rpc.IoBuf.Cut.Clear.{clear-Drops}

-- With more rounds than references the loop ends, `n` bytes on.
pop_front_loop-Drops :
    (fuel n : ℕ) (b : IoBuf) (s : Store) (xs : List BlockRef)
    → IsValid b
    → ref_list b ≡ xs
    → length xs < fuel
    → n ≤ total xs
    → (b' : IoBuf) × (s' : Store) × (pop_front_loop fuel n b s ≡ some (b', s')) × Drops n b s b' s'
unfolding pop_front_loop total
pop_front_loop-Drops zero n b s xs v e f h = absurd (omega arith)
pop_front_loop-Drops (suc fuel) n b s [] v e f h =
    let none_left : n ≡ 0 = omega arith in rw none_left (b, s, refl, Drops-refl b s v)
pop_front_loop-Drops (suc fuel) n b s (x ∷ xs) v e f h = elim (Bool-cases (n == 0)) [
  | inl z ↦ let zero_left : n ≡ 0 = ground arith in rw zero_left (b, s, refl, Drops-refl b s v)
  | inr more ↦ elim (Bool-cases (ltb n (front_ref b).length)) [
    | inl within ↦
        rw (more, within)
          (trim_front n b, s, refl, trim_front-Drops n b s x xs v e (shorter within))
    | inr past ↦
        let (done, valid, list, same) = pop_front_ref_drops false b s x xs v e in
        let longer : x.length ≤ n = longer past in
        let rest =
          pop_front_loop-Drops fuel (n - (front_ref b).length) (pop_front_ref false b s).1
            (pop_front_ref false b s).2 xs valid list (omega arith) (omega (arith, front_length)) in
        rw (more, past)
          (
            rest.0,
            rest.1,
            rest.2,
            subst (λ k. Drops k b s rest.0 rest.1) (omega (arith, front_length))
                (Drops-trans (pop_front_ref-Drops b s x xs v e) rest.3),
          )
  ]
]
  where
    front : front_ref b ≡ x
    front = (pop_front_ref_drops false b s x xs v e).3

    shorter : ltb n (front_ref b).length ≡ true → n < x.length
    shorter t = ground (arith, front)

    front_length : (front_ref b).length ≡ x.length
    front_length = ap (λ (r : BlockRef). r.length) front

    longer : ltb n (front_ref b).length ≡ false → x.length ≤ n
    longer t = ground (arith, front_length)

pop_front-Drops :
    (n : ℕ) (b : IoBuf) (s : Store)
    → IsValid b
    → (b' : IoBuf) × (s' : Store) × (pop_front n b s ≡ some (min n (total (ref_list b)), b', s'))
      × Drops n b s b' s'
unfolding pop_front
pop_front-Drops n b s v = elim (Bool-cases (leb (buf_length b) n)) [
  | inl all ↦ rw all (
    (clear b s).0,
    (clear b s).1,
    ap (λ k. some (k, (clear b s).0, (clear b s).1)) (ground (arith, buf_length-total b v)),
    clear-Drops n b s v (ground (arith, buf_length-total b v)),
  )
  | inr part ↦
      let n-le : n ≤ total (ref_list b) = ground (arith, buf_length-total b v) in
      let (b', s', same, drops) =
        pop_front_loop-Drops (suc (ref_num b)) n b s (ref_list b) v refl
          (omega (arith, ref_num-length b v.shape)) n-le in
      rw (part, same) (b', s', ap (λ k. some (k, b', s')) (omega arith), drops)
]

-- `pop_front` ends, returns how many bytes it took (`n`, or all there are), and leaves a valid
-- buffer with the other bytes, in order; no byte of a block changes, and each block loses as many
-- shares as the buffer lost references to it. It supposes a valid buffer whose references are
-- counted in their blocks.
pub pop_front_lem :
    (n : ℕ) (b : IoBuf) (s : Store)
    → IsValid b
    → Counted s (ref_list b)
    → (b' : IoBuf) × (s' : Store) × (pop_front n b s ≡ some (min n (total (ref_list b)), b', s'))
      × Dropped n b s b' s'
pop_front_lem n b s v counted =
    let (b', s', run, drops) = pop_front-Drops n b s v in (b', s', run, Drops-Dropped drops counted)
