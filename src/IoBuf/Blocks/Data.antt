-- ===== src/IoBuf/Blocks/Data.antt =====
-- `append` of bytes: what it leaves.
use light_rpc.Prelude.{
  ℕ, zero, suc, ◌+◌, ◌-◌, ◌^◌, ◌≤◌, ◌<◌, ◌≡◌, ◌≢◌, ◌⊎◌, refl, sym, subst, ap, ap₂, ◌∙◌, inl, inr,
  true, false, List, [], ◌∷◌, ◌++◌, append_assoc, append-nil, Option, none, some, All, min, length,
  length-take, length-drop, take, drop, take-append-drop, ◌==◌, if◌then◌else◌, arith,
}
use mathlib.Core.Bool.{false≢true}
use light_rpc.IoBuf.Store.{Store, inc_ref, full, left_space}
use light_rpc.IoBuf.View.{BlockRef, IoBuf, small, big, IsRef, IsValid, ref_list, ref_num, total}
use light_rpc.IoBuf.Refs.{push_to_small, push_to_big, push_back_ref}
use light_rpc.IoBuf.Ring.{total-append_ref, length-append_ref}
use light_rpc.IoBuf.Push.{push_back_ref_appends}
use light_rpc.IoBuf.Bytes.{ref_bytes, bytes_of, bytes_of-append_ref, bytes-push_back_ref}
use light_rpc.IoBuf.Shares.{shares, push_back_ref-shares}
use light_rpc.IoBuf.Cut.Lists.{take_add}
use light_rpc.IoBuf.Cut.Drops.{contents, ref_num-length}
use light_rpc.IoBuf.Blocks.{
  Tls, share_tls_block, store_bytes, grow_size, Appended, append_round, after_share, append_loop,
  append_data,
}
use light_rpc.IoBuf.Blocks.Share.{
  share_tls_block-none, held, IsTls, Holding, SharedHead, share_tls_block_lem, share_tls_block-size,
  share_tls_block-cap,
}
use light_rpc.IoBuf.Blocks.Write.{
  Within, slice-write_bytes, bytes_of-store_bytes, Within-append_ref,
}

size-inc_ref : (p : ℕ) (s : Store) → (inc_ref p s).size ≡ s.size
unfolding inc_ref
size-inc_ref p s = refl

cap-inc_ref : (p : ℕ) (s : Store) → (inc_ref p s).cap ≡ s.cap
unfolding inc_ref
cap-inc_ref p s = refl

-- A pushed copy of a reference changes no block's size or capacity.
size-push_back_ref :
    (b : IoBuf) (r : BlockRef) (s : Store) → (push_back_ref false b r s).1.size ≡ s.size
unfolding push_back_ref push_to_small push_to_big
size-push_back_ref (small r0 r1) r s = ground (arith, size-inc_ref r.block s)
size-push_back_ref (big v) r s = ground (arith, size-inc_ref r.block s)

cap-push_back_ref :
    (b : IoBuf) (r : BlockRef) (s : Store) → (push_back_ref false b r s).1.cap ≡ s.cap
unfolding push_back_ref push_to_small push_to_big
cap-push_back_ref (small r0 r1) r s = ground (arith, cap-inc_ref r.block s)
cap-push_back_ref (big v) r s = ground (arith, cap-inc_ref r.block s)

-- A buffer and the thread's cache, every reference and every cached block counted, and every
-- reference to bytes that were written.
pub record Ready (b : IoBuf) (t : Tls) (s : Store) : Type 0 where
  pub buf : IsValid b
  pub tls : IsTls t
  pub counted : (q : ℕ) → shares q (ref_list b) + held q t.chain ≤ s.nshared q
  pub within : Within s.size (ref_list b)
  pub caps : (q : ℕ) → s.cap q < 2 ^ 32

Within-weaken :
    (size size' : ℕ → ℕ) (rs : List BlockRef)
    → ((q : ℕ) → 1 ≤ shares q rs → size q ≤ size' q)
    → Within size rs
    → Within size' rs
unfolding shares
Within-weaken size size' [] f w = tt
Within-weaken size size' (r ∷ rs) f w = (
  omega (arith, w.0, f r.block (ground arith)),
  Within-weaken size size' rs (λ q h. f q (omega arith)) w.1,
)

-- One round of the loop, on a block that has room for the bytes.
record Round (b : IoBuf) (t : Tls) (s : Store) (xs : List ℕ) (b' : IoBuf) (s' : Store)
    : Type 0 where
  ready : Ready b' t s'
  bytes : contents b' s' ≡ contents b s ++ xs
  total : total (ref_list b') ≡ total (ref_list b) + length xs
  few : length (ref_list b') ≤ length (ref_list b) + 1

-- The bytes that the new reference stands for.
written :
    (p : ℕ) (xs : List ℕ) (s : Store)
    → ref_bytes
        (store_bytes p xs s).bytes
        (record { offset = s.size p; length = length xs; block = p })
      ≡ xs
unfolding ref_bytes
written p xs s =
    let here : (p == p) ≡ true = ground arith in
    rw here (slice-write_bytes (s.bytes p) (s.size p) xs)

append_round-Round :
    (b : IoBuf) (t : Tls) (s : Store) (p : ℕ) (ps : List ℕ) (xs : List ℕ)
    → Ready b t s
    → t.chain ≡ p ∷ ps
    → s.size p + length xs ≤ s.cap p
    → total (ref_list b) + length xs < 2 ^ 32
    → ref_num b < 2 ^ 30
    → Round b t s xs (append_round xs p b s).0 (append_round xs p b s).1
append_round-Round b t s p ps xs v e room fits few =
    let r : BlockRef = record { offset = s.size p; length = length xs; block = p } in
    let s1 : Store = store_bytes p xs s in
    let r-IsRef : IsRef r = record {
      to_block = (subst (All (λ q. q ≢ 0)) e v.tls.named).0;
      in_word = omega (arith, v.caps p);
    } in
    let pushed = push_back_ref_appends false b r s1 v.buf r-IsRef fits few in
    let size = size-push_back_ref b r s1 in
    let bigger : (q : ℕ)
        → (grow_size p (length xs) (push_back_ref false b r s1).1).size q
          ≡ (if p == q then s.size p + length xs else s.size q) =
      λ q. grown q (push_back_ref false b r s1).1 size in
    let grown_size : ℕ → ℕ = (grow_size p (length xs) (push_back_ref false b r s1).1).size in
    record {
      ready = record {
        buf = pushed.0;
        tls = v.tls;
        counted = λ q. omega (
          arith,
          v.counted q,
          ap (shares q) pushed.1,
          push_back_ref-shares false b r s1 q v.buf.shape (λ h. absurd (false≢true h)),
        );
        within = subst (Within grown_size) (sym pushed.1) (
            Within-append_ref grown_size (ref_list b) r v.buf.each r-IsRef
              (Within-weaken s.size grown_size (ref_list b) (λ q h. ground (arith, bigger q))
                v.within)
              (ground (arith, bigger p)));
        caps = λ q. omega (arith, v.caps q, ap (λ f. f q) (cap-push_back_ref b r s1));
      };
      bytes =
          ap (λ m. bytes_of m (ref_list (push_back_ref false b r s1).0))
            (bytes-push_back_ref false b r s1)
          ∙ ap (bytes_of s1.bytes) pushed.1
          ∙ bytes_of-append_ref s1.bytes (ref_list b) r v.buf.each r-IsRef
          ∙ ap₂ ◌++◌ (bytes_of-store_bytes p xs s (ref_list b) v.within) (written p xs s);
      total = ap total pushed.1 ∙ total-append_ref (ref_list b) r fits;
      few = omega (arith, ap length pushed.1, length-append_ref (ref_list b) r);
    }
  where
    grown :
        (q : ℕ) (s2 : Store)
        → s2.size ≡ s.size
        → (grow_size p (length xs) s2).size q ≡ (if p == q then s.size p + length xs else s.size q)
    grown q s2 h = ground (arith, v.caps p, ap (λ f. f p) h, ap (λ f. f q) h)

-- A block with room.
below : (p : ℕ) (s : Store) → full p s ≡ false → s.size p < s.cap p
unfolding full
below p s h = ground arith

-- The bytes were all appended, or some of them where the pool had no block left.
abbrev pub Outcome : (Store → Option ℕ) → List ℕ → IoBuf → Store → Appended → Type 0
Outcome pool xs b s a =
    ((a.ok ≡ true) × (contents a.buf a.store ≡ contents b s ++ xs))
    ⊎ ((a.ok ≡ false)
        × (pool a.store ≡ none)
        × (a.tls.chain ≡ [])
        × ((k : ℕ) × (k < length xs) × (contents a.buf a.store ≡ contents b s ++ take k xs)))

-- Taking the block to write to from the cache.
module _ (pool : Store → Option ℕ)
    (fresh : (s : Store) (p : ℕ) → pool s ≡ some p → (p ≢ 0) × (s.nshared p ≡ 0)) where
  shared-Ready :
      (b : IoBuf) (t : Tls) (s : Store)
      → Ready b t s
      → Ready b (share_tls_block pool t s).1 (share_tls_block pool t s).2
  shared-Ready b t s v =
      let own : Holding t s = λ q. omega (arith, v.counted q) in
      let shared = share_tls_block_lem pool fresh t s v.tls own in
      record {
        buf = v.buf;
        tls = shared.valid;
        counted = λ q. omega (arith, v.counted q, shared.settled q);
        within =
            Within-weaken s.size (share_tls_block pool t s).2.size (ref_list b)
              (λ q h. omega (
                arith,
                share_tls_block-size pool fresh t s q v.tls own (omega (arith, v.counted q)),
              ))
              v.within;
        caps = λ q. share_tls_block-cap pool fresh t s q (v.caps q);
      }

  -- What a round wrote, with what the later ones did.
  Outcome-drop :
      (nc : ℕ) (xs : List ℕ) (b : IoBuf) (s : Store) (b' : IoBuf) (s' : Store) (a : Appended)
      → length (drop nc xs) + nc ≤ length xs
      → contents b' s' ≡ contents b s ++ take nc xs
      → Outcome pool (drop nc xs) b' s' a
      → Outcome pool xs b s a
  Outcome-drop nc xs b s b' s' a h e (inl (ok, bytes)) = inl (
    ok,
    bytes
        ∙ ap (λ l. l ++ drop nc xs) e
        ∙ append_assoc (contents b s) (take nc xs) (drop nc xs)
        ∙ ap (◌++◌ (contents b s)) (take-append-drop nc xs),
  )
  Outcome-drop nc xs b s b' s' a h e (inr (failed, out, gone, (k, less, bytes))) = inr (
    failed,
    out,
    gone,
    (
      nc + k,
      omega arith,
      bytes
          ∙ ap (λ l. l ++ take k (drop nc xs)) e
          ∙ append_assoc (contents b s) (take nc xs) (take k (drop nc xs))
          ∙ ap (◌++◌ (contents b s)) (sym (take_add xs nc k)),
    ),
  )

  -- What `fuel` rounds do for fewer than that many bytes.
  abbrev Appends : ℕ → Type 0
  Appends fuel =
      (xs : List ℕ) (b : IoBuf) (t : Tls) (s : Store)
      → Ready b t s
      → length xs < fuel
      → total (ref_list b) + length xs < 2 ^ 32
      → length (ref_list b) + length xs < 2 ^ 30
      → (a : Appended) × (append_loop pool fuel xs b t s ≡ some a)
        × Ready a.buf a.tls a.store
        × Outcome pool xs b s a

  append_round-Appends :
      (fuel : ℕ) (xs : List ℕ) (b : IoBuf) (s : Store) (result : Option ℕ) (t' : Tls) (s' : Store)
      → Appends fuel
      → Ready b t' s'
      → SharedHead result t' s'
      → (result ≡ none → (pool s' ≡ none) × (t'.chain ≡ []))
      → s'.bytes ≡ s.bytes
      → 0 < length xs
      → length xs < suc fuel
      → total (ref_list b) + length xs < 2 ^ 32
      → length (ref_list b) + length xs < 2 ^ 30
      → (a : Appended) × (after_share pool xs b (result, t', s') (append_loop pool fuel) ≡ some a)
        × Ready a.buf a.tls a.store
        × Outcome pool xs b s a
  append_round-Appends fuel xs b s none t' s' later w head out memory any h fits few = (
    _,
    refl,
    w,
    inr (
      refl,
      (out refl).0,
      (out refl).1,
      (0, any, ap (λ m. bytes_of m (ref_list b)) memory ∙ sym (append-nil (contents b s))),
    ),
  )
  append_round-Appends fuel xs b s (some p) t' s' later w (ps, e, free) out memory any h fits few =
      let nc = min (length xs) (left_space p s') in
      let some_room : nc ≤ s'.cap p - s'.size p = unfold left_space in omega arith in
      let moves : 1 ≤ nc = unfold left_space in omega (arith, below p s' free) in
      let size = length-take nc xs in
      let size_left = length-drop nc xs in
      let round =
        append_round-Round b t' s' p ps (take nc xs) w e (omega (arith, size, below p s' free))
          (omega (arith, size)) (omega (arith, ref_num-length b w.buf.shape)) in
      let rest =
        later (drop nc xs) (append_round (take nc xs) p b s').0 t'
          (append_round (take nc xs) p b s').1 round.ready (omega (arith, size_left))
          (omega (arith, size, size_left, round.total))
          (omega (arith, size, size_left, round.few)) in
      let bytes = round.bytes ∙ ap (λ m. bytes_of m (ref_list b) ++ take nc xs) memory in
      (
        rest.0,
        rest.1,
        rest.2,
        Outcome-drop nc xs b s (append_round (take nc xs) p b s').0
            (append_round (take nc xs) p b s').1 rest.0 (omega (arith, size_left)) bytes rest.3,
      )

  append_loop-Appends : (fuel : ℕ) → Appends fuel
  unfolding append_loop
  append_loop-Appends zero xs b t s v h fits few = absurd (omega arith)
  append_loop-Appends (suc fuel) [] b t s v h fits few =
      (_, refl, v, inl (refl, sym (append-nil (contents b s))))
  append_loop-Appends (suc fuel) (x ∷ xs) b t s v h fits few =
      let own : Holding t s = λ q. omega (arith, v.counted q) in
      let shared = share_tls_block_lem pool fresh t s v.tls own in
      append_round-Appends fuel (x ∷ xs) b s (share_tls_block pool t s).0
        (share_tls_block pool t s).1 (share_tls_block pool t s).2 (append_loop-Appends fuel)
        (shared-Ready b t s v) shared.head (share_tls_block-none pool fresh t s) shared.memory
        (omega arith) h fits few

  -- `append` of bytes to a valid buffer ends: either it returns 0 and the bytes stand behind those the
  -- buffer had; or it returns -1, a part of them does, from the first on, the thread's cache is empty and
  -- the pool, asked in the state in which it ends, has no block. Buffer and cache stay well-formed,
  -- every reference and cached block counted and every reference within what is written of its block. It
  -- supposes fewer than 2^32 bytes, and fewer than 2^30 references and new bytes together, and that a
  -- block the pool gives is not null and has no shares.
  pub append_data_lem :
      (xs : List ℕ) (b : IoBuf) (t : Tls) (s : Store)
      → Ready b t s
      → total (ref_list b) + length xs < 2 ^ 32
      → ref_num b + length xs < 2 ^ 30
      → (a : Appended) × (append_data pool xs b t s ≡ some a)
        × Ready a.buf a.tls a.store
        × Outcome pool xs b s a
  unfolding append_data
  append_data_lem xs b t s v fits few =
      append_loop-Appends (suc (length xs)) xs b t s v (omega arith) fits
        (omega (arith, ref_num-length b v.buf.shape))
