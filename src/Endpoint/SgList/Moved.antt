-- ===== src/Endpoint/SgList/Moved.antt =====
-- What a cut into a scatter list moves.
use light_rpc.Prelude.{
  ℕ, zero, suc, ◌+◌, ◌^◌, ◌≤◌, ◌<◌, ◌≡◌, ◌≢◌, refl, sym, ap, ap₂, subst, ◌∙◌, ◌⊎◌, inl, inr, Bool,
  true, false, Bool-cases, List, [], ◌∷◌, ◌++◌, All, append-nil, append_assoc, Option, some, length,
  length-append, collect, length-take, length-drop, take, drop, min, leb, ◌==◌, arith,
}
use light_rpc.Prelude.Bits.{add64}
use light_rpc.IoBuf.Store.{Store}
use light_rpc.IoBuf.View.{HasShape, BlockRef, IoBuf, ref_num, ref_at, ref_list, total, IsValid}
use light_rpc.IoBuf.Bytes.{length-bytes_of}
use light_rpc.IoBuf.Cut.{Cut, cutn}
use light_rpc.IoBuf.Cut.Lists.{take_add, drop-drop}
use light_rpc.IoBuf.Cut.Drops.{contents, ref_num-length}
use light_rpc.IoBuf.Copy.{refs_in_order, refs_in_order_lem}
use light_rpc.IoBuf.Cut.Into.{Cuts, cutn-Cuts}
use light_rpc.Endpoint.SgList.{
  Sge, SgCut, with_sge, then_cut, front_part, fetch1, sge_of, cut_into_sglist,
}

-- The bytes that entries stand for.
unfoldable pub sge_total : List Sge → ℕ
sge_total [] = 0
sge_total (e ∷ es) = e.length + sge_total es

abbrev pub HasKey : Sge → Type 0
HasKey e = e.lkey ≢ 0

-- `k` bytes moved, one entry of the list for each reference they stand in.
pub record Moved (slots max_len len k : ℕ) (b out : IoBuf) (s : Store) (c : SgCut) : Type 0 where
  pub count : c.len ≡ len + k
  pub entries : sge_total c.sges ≡ k
  pub few : length c.sges ≤ slots
  pub keys : All HasKey c.sges
  pub bound : c.len ≤ max_len
  pub left : IsValid c.self
  pub filled : IsValid c.out
  pub rest : contents c.self c.store ≡ drop k (contents b s)
  pub taken : contents c.out c.store ≡ contents out s ++ take k (contents b s)
  pub memory : c.store.bytes ≡ s.bytes
  pub within : k ≤ total (ref_list b)
  pub refs :
      length (ref_list c.out) + length (ref_list c.self)
      ≤ length (ref_list out) + length (ref_list b) + length c.sges
  pub some_entry :
      (c.ok ≡ false) ⊎ (0 < length c.sges) ⊎ (slots ≡ 0) ⊎ (max_len ≤ len) ⊎ (ref_num b ≡ 0)
  pub full : (c.ok ≡ false) ⊎ (c.len ≡ max_len) ⊎ (length c.sges ≡ slots) ⊎ (k ≡ total (ref_list b))

abbrev pub Cuttable : ℕ → ℕ → ℕ → IoBuf → IoBuf → Type 0
Cuttable slots max_len len b out =
    IsValid b
    × IsValid out
    × (total (ref_list out) + total (ref_list b) < 2 ^ 32)
    × (length (ref_list out) + length (ref_list b) + slots < 2 ^ 30)
    × (len ≤ max_len)
    × (max_len < 2 ^ 32)

none-Moved :
    (ok : Bool) (slots max_len len : ℕ) (b out : IoBuf) (s : Store)
    → Cuttable slots max_len len b out
    → (ok ≡ false) ⊎ (0 < 0) ⊎ (slots ≡ 0) ⊎ (max_len ≤ len) ⊎ (ref_num b ≡ 0)
    → (ok ≡ false) ⊎ (len ≡ max_len) ⊎ (0 ≡ slots) ⊎ (0 ≡ total (ref_list b))
    → Moved slots max_len len 0 b out s
        (record { ok = ok; sges = []; len = len; self = b; out = out; store = s })
unfolding sge_total
none-Moved ok slots max_len len b out s (v, w, t, few, l, h) entry full = record {
  count = omega arith;
  entries = refl;
  few = omega arith;
  keys = tt;
  bound = l;
  left = v;
  filled = w;
  rest = refl;
  taken = sym (append-nil (contents out s));
  memory = refl;
  within = omega arith;
  refs = omega arith;
  some_entry = entry;
  full = full;
}

-- One entry, then those of the rest.
with_sge-Moved :
    (slots max_len len n k : ℕ) (b out : IoBuf) (s : Store) (e : Sge) (d : Cut) (c : SgCut)
    → n < 2 ^ 32
    → e.length ≡ n
    → HasKey e
    → Cuts n b out s d
    → Moved slots max_len (len + n) k d.self d.out d.store c
    → total (ref_list d.self) + n ≡ total (ref_list b)
    → Moved (suc slots) max_len len (n + k) b out s (record c { sges = e ∷ c.sges })
unfolding sge_total
with_sge-Moved slots max_len len n k b out s e d c h same key cuts m left = record {
  count = omega (arith, m.count);
  entries = omega (arith, m.entries, same);
  few = omega (arith, m.few);
  keys = (key, m.keys);
  bound = m.bound;
  left = m.left;
  filled = m.filled;
  rest = m.rest ∙ ap (drop k) cuts.rest ∙ drop-drop (contents b s) n k;
  taken =
      m.taken
      ∙ ap₂ (λ l r. l ++ take k r) cuts.taken cuts.rest
      ∙ append_assoc (contents out s) (take n (contents b s)) (take k (drop n (contents b s)))
      ∙ ap (◌++◌ (contents out s)) (sym (take_add (contents b s) n k));
  memory = m.memory ∙ cuts.memory;
  within = omega (arith, m.within, left);
  refs = omega (arith, m.refs, cuts.more);
  some_entry = inr (inl (omega arith));
  full = full_after m.full;
}
  where
    full_after :
        (c.ok ≡ false) ⊎ (c.len ≡ max_len) ⊎ (length c.sges ≡ slots) ⊎ (k ≡ total (ref_list d.self))
        → (c.ok ≡ false)
          ⊎ (c.len ≡ max_len)
          ⊎ (length (e ∷ c.sges) ≡ suc slots)
          ⊎ (n + k ≡ total (ref_list b))
    full_after (inl x) = inl x
    full_after (inr (inl x)) = inr (inl x)
    full_after (inr (inr (inl x))) = inr (inr (inl (ap suc x)))
    full_after (inr (inr (inr x))) = inr (inr (inr (omega (arith, x, left))))

total_none : (rs : List BlockRef) → length rs ≡ 0 → total rs ≡ 0
unfolding total
total_none [] h = refl
total_none (r ∷ rs) h = absurd (omega arith)

head-total : (f : ℕ → BlockRef) (n : ℕ) → 0 < n → (f 0).length ≤ total (collect f n)
unfolding total
head-total f zero h = absurd (omega arith)
head-total f (suc n) h = omega arith

front-total : (b : IoBuf) → HasShape b → 0 < ref_num b → (ref_at b 0).length ≤ total (ref_list b)
unfolding refs_in_order
front-total b v h =
    omega (arith, head-total (ref_at b) (ref_num b) h, ap total (refs_in_order_lem b v))

pub contents-total : (b : IoBuf) (s : Store) → length (contents b s) ≡ total (ref_list b)
contents-total b s = length-bytes_of s.bytes (ref_list b)

-- One entry, with a result for what follows it.
one_entry :
    (slots max_len len n : ℕ) (b out : IoBuf) (s : Store) (e : Sge)
    (next : IoBuf → IoBuf → Store → Option SgCut)
    → Cuttable (suc slots) max_len len b out
    → n ≤ total (ref_list b)
    → len + n ≤ max_len
    → e.length ≡ n
    → HasKey e
    → ((b' out' : IoBuf) (s' : Store)
        → Cuttable slots max_len (len + n) b' out'
        → (k : ℕ) × (c : SgCut) × (next b' out' s' ≡ some c)
          × Moved slots max_len (len + n) k b' out' s' c)
    → (k : ℕ) × (c : SgCut) × (with_sge e (then_cut (cutn n b out s) next) ≡ some c)
      × Moved (suc slots) max_len len k b out s c
one_entry slots max_len len n b out s e next (v, w, t, few, l, m) h fits same key later =
    let counts : ref_num out + ref_num b < 2 ^ 30 =
      (omega (arith, few, ref_num-length b v.shape, ref_num-length out w.shape)) in
    let (d, run, cuts') = cutn-Cuts n b out s v w t counts in
    let least : min n (total (ref_list b)) ≡ n = omega (arith, h) in
    let cuts = subst (λ j. Cuts j b out s d) least cuts' in
    let left : total (ref_list d.self) + n ≡ total (ref_list b) = omega (
      arith,
      h,
      contents-total b s,
      contents-total d.self d.store,
      ap length cuts.rest,
      length-drop n (contents b s),
    ) in
    let filled : total (ref_list d.out) ≡ total (ref_list out) + n = omega (
      arith,
      h,
      contents-total b s,
      contents-total out s,
      contents-total d.out d.store,
      ap length cuts.taken,
      length-append (contents out s) (take n (contents b s)),
      length-take n (contents b s),
    ) in
    let (k, c, e2, moved) = later d.self d.out d.store (
      cuts.left,
      cuts.filled,
      omega (arith, t, left, filled),
      omega (arith, few, cuts.more),
      fits,
      m,
    ) in
    (
      n + k,
      record c { sges = e ∷ c.sges },
      ap (λ x. with_sge e (then_cut x next)) run ∙ ap (with_sge e) e2,
      with_sge-Moved slots max_len len n k b out s e d c (omega (arith, fits, m)) same key cuts
          moved left,
    )

module _ (data_at : ℕ → ℕ) (region_id : ℕ → ℕ) where
  -- Cutting a buffer into at most `slots` entries, after `len` bytes of at most `max_len`, ends. The
  -- bytes moved stand, in order, behind those that the send slot's buffer had, and the rest stays, in
  -- order; both buffers are valid and no byte of a block changes. The entries stand for as many bytes
  -- as were moved, each with a key that is not null, and the count stays within `max_len`. It stops
  -- short only where the entries or the length are used up, the buffer is empty, or a block has no
  -- region, which is the error. It supposes valid buffers of fewer than 2^32 bytes and 2^30
  -- references together, the entries included.
  pub cut_into_sglist-Moved :
      (slots max_len len : ℕ) (b out : IoBuf) (s : Store)
      → Cuttable slots max_len len b out
      → (k : ℕ) × (c : SgCut) × (cut_into_sglist data_at region_id slots max_len len b out s
          ≡ some c)
        × Moved slots max_len len k b out s c
  unfolding cut_into_sglist
  cut_into_sglist-Moved zero max_len len b out s p = (
    0,
    _,
    refl,
    none-Moved true 0 max_len len b out s p (inr (inr (inl refl))) (inr (inr (inl refl))),
  )
  cut_into_sglist-Moved (suc slots) max_len len b out s p = elim (Bool-cases (leb max_len len)) [
    | inl e ↦ rw e (
      0,
      _,
      refl,
      none-Moved true (suc slots) max_len len b out s p (inr (inr (inr (inl (ground arith)))))
          (inr (inl (ground (arith, p.4)))),
    )
    | inr more ↦ elim (Bool-cases (ref_num b == 0)) [
      | inl e ↦
          rw (more, e)
            (
              0,
              _,
              refl,
              none-Moved true (suc slots) max_len len b out s p
                  (inr (inr (inr (inr (ground arith))))) (inr (inr (inr (nothing e)))),
            )
      | inr some_refs ↦ elim (Bool-cases (region_id (fetch1 data_at b) == 0)) [
        | inl e ↦
            rw (more, some_refs, e)
              (0, _, refl, none-Moved false (suc slots) max_len len b out s p (inl refl) (inl refl))
        | inr key ↦
            let n = front_part max_len len (ref_at b 0).length in
            let front = front-total b p.0.shape (ground arith) in
            let sum : add64 len n ≡ len + n = ground (arith, p.5, front, p.2) in
            rw (more, some_refs, key)
              (one_entry slots max_len len n b out s (sge_of data_at region_id (fetch1 data_at b) n)
                (cut_into_sglist data_at region_id slots max_len (add64 len n)) p
                (ground (arith, front, p.2)) (ground (arith, p.5, front, p.2))
                (ground (arith, p.2, front)) (ground arith)
                (λ b' out' s' q.
                  let (k, c, e, m) = cut_into_sglist-Moved slots max_len (len + n) b' out' s' q in
                  (
                    k,
                    c,
                    ap (λ j. cut_into_sglist data_at region_id slots max_len j b' out' s') sum ∙ e,
                    m,
                  )))
      ]
    ]
  ]
    where
      nothing : (ref_num b == 0) ≡ true → 0 ≡ total (ref_list b)
      nothing e = sym (total_none (ref_list b) (ground (arith, ref_num-length b p.0.shape)))
