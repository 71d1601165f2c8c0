-- ===== src/IoBuf/Resize.antt =====
-- IOBuf::resize of src-common/fast_iobuf.cc: bytes off the end, or copies of a byte appended. The loop of
-- the second is that of `append`.
use light_rpc.Prelude.{
  ℕ, ◌+◌, ◌-◌, ◌^◌, ◌<◌, ◌≡◌, ◌≢◌, refl, ap, ◌∙◌, inl, inr, Bool, true, false, Bool-cases, Option,
  none, some, length-replicate, replicate, take, ltb, if◌then◌else◌, arith,
}
use light_rpc.IoBuf.Store.{Store}
use light_rpc.IoBuf.View.{IoBuf, buf_length, ref_list, ref_num, total, IsValid}
use light_rpc.IoBuf.Cut.{pop_back}
use light_rpc.IoBuf.Cut.Back.{pop_back_lem}
use light_rpc.IoBuf.Cut.Drops.{contents, buf_length-total}
use light_rpc.IoBuf.Blocks.{Tls, Appended, append_data}
use light_rpc.IoBuf.Blocks.Data.{Ready, Outcome, append_data_lem}

abbrev pub shrunk : Tls → Option (ℕ × IoBuf × Store) → Option Appended
shrunk t none = none
shrunk t (some (n, b, s)) = some (record { ok = true; buf = b; tls = t; store = s })

unfoldable pub resize : (Store → Option ℕ) → ℕ → ℕ → IoBuf → Tls → Store → Option Appended
resize pool n c b t s =
    if ltb n (buf_length b)
    then shrunk t (pop_back (buf_length b - n) b s)
    else append_data pool (replicate (n - buf_length b) c) b t s

-- What is left, by whether bytes were taken off.
abbrev pub Resized : (Store → Option ℕ) → Bool → ℕ → ℕ → IoBuf → Store → Appended → Type 0
Resized pool true n c b s a = (a.ok ≡ true) × (contents a.buf a.store ≡ take n (contents b s))
Resized pool false n c b s a = Outcome pool (replicate (n - buf_length b) c) b s a

-- `resize` ends and leaves a valid buffer. Where it has more than `n` bytes, the first `n` of them are
-- left; otherwise copies of `c` stand behind them until there are `n`, or the pool had no block, the
-- result is -1, and a part of the copies does. It supposes what `append` does, for the bytes there are
-- and the copies together.
pub resize_lem :
    (pool : Store → Option ℕ)
    → ((s : Store) (p : ℕ) → pool s ≡ some p → (p ≢ 0) × (s.nshared p ≡ 0))
    → (n c : ℕ) (b : IoBuf) (t : Tls) (s : Store) → Ready b t s
    → n < 2 ^ 32
    → ref_num b + n < 2 ^ 30
    → (a : Appended) × (resize pool n c b t s ≡ some a)
      × IsValid a.buf
      × Resized pool (ltb n (buf_length b)) n c b s a
unfolding resize
resize_lem pool fresh n c b t s v h few = elim (Bool-cases (ltb n (buf_length b))) [
  | inl less ↦
      let same = buf_length-total b v.buf in
      let (b', s', run, kept) =
        pop_back_lem (buf_length b - n) b s v.buf (λ q. omega (arith, v.counted q)) in
      let left : total (ref_list b) - (buf_length b - n) ≡ n = ground (arith, same) in
      rw (less, run)
        (
          record { ok = true; buf = b'; tls = t; store = s' },
          refl,
          kept.valid,
          (refl, kept.kept ∙ ap (λ k. take k (contents b s)) left),
        )
  | inr more ↦
      let same = buf_length-total b v.buf in
      let size = length-replicate (n - buf_length b) c in
      let (a, run, ready, outcome) =
        append_data_lem pool fresh (replicate (n - buf_length b) c) b t s v
          (ground (arith, same, size, v.buf.bounded)) (omega (arith, size, few)) in
      rw (more, run) (a, refl, ready.buf, outcome)
]
