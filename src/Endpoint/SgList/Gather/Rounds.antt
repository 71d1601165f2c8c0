-- ===== src/Endpoint/SgList/Gather/Rounds.antt =====
-- The rounds of the inner loop together.
use light_rpc.Prelude.{
  ℕ, zero, suc, ◌+◌, ◌-◌, ◌≤◌, ◌<◌, ◌≡◌, ◌≢◌, refl, ◌⊎◌, inl, inr, true, false, Bool-cases, List,
  [], ◌∷◌, ◌++◌, Option, some, length, length-append, take, leb, ◌==◌, arith,
}
use light_rpc.Prelude.Bits.{add64, sub64}
use light_rpc.IoBuf.Store.{Store}
use light_rpc.IoBuf.View.{IoBuf, ref_num, is_empty}
use light_rpc.IoBuf.Cut.Drops.{contents}
use light_rpc.Endpoint.SgList.{SgCut}
use light_rpc.Endpoint.SgList.Moved.{Moved, Cuttable, cut_into_sglist-Moved}
use light_rpc.Endpoint.SgList.Gather.{Gathered, after_cut, gather}
use light_rpc.Endpoint.SgList.Gather.Bytes.{
  list_total, list_refs, Gathers, Gatherable, none-Gathers, empty-contents, filled-refs,
  skip-Gathers, left-Gatherable, cut-Gathers,
}

-- What the loop gives: it stops short only where the entries or the length are used up, the buffers
-- are, or a block has no region.
abbrev pub GatherOutcome : ℕ → ℕ → ℕ → List IoBuf → IoBuf → Store → Option Gathered → Type 0
GatherOutcome slots len max_len from out s run =
    (g : Gathered) × (run ≡ some g)
    × ((g.ok ≡ false)
        ⊎ ((moved : List ℕ) × Gathers slots len max_len moved from out s g
            × ((g.len ≡ max_len) ⊎ (length g.sges ≡ slots) ⊎ (g.from ≡ []))))

-- The outcome with the entries of a cut before it.
cut-outcome :
    (slots len max_len k : ℕ) (b : IoBuf) (bs : List IoBuf) (out : IoBuf) (s : Store) (c : SgCut)
    (next : ℕ → ℕ → List IoBuf → IoBuf → Store → Option Gathered)
    → Gatherable slots len max_len (b ∷ bs) out
    → Moved slots (max_len - len) 0 k b out s c
    → (c.ok ≡ true
        → GatherOutcome
            (slots - length c.sges)
            (len + k)
            max_len
            (c.self ∷ bs)
            c.out
            c.store
            (next (length c.sges) (len + k) (c.self ∷ bs) c.out c.store))
    → GatherOutcome slots len max_len (b ∷ bs) out s (after_cut bs len (some c) next)
cut-outcome slots len max_len k b bs out s c next v m later = elim (Bool-cases c.ok) [
  | inr bad ↦ rw bad (_, refl, inl refl)
  | inl good ↦
      let sum : add64 len c.len ≡ len + k = omega (arith, m.count, m.bound, v.within, v.word) in
      let (g, run, outcome) = later good in
      rw (good, sum, run) (record g { sges = c.sges ++ g.sges }, refl, widen g outcome)
]
  where
    stopped :
        (g : Gathered)
        → (g.len ≡ max_len) ⊎ (length g.sges ≡ slots - length c.sges) ⊎ (g.from ≡ [])
        → (g.len ≡ max_len) ⊎ (length (c.sges ++ g.sges) ≡ slots) ⊎ (g.from ≡ [])
    stopped g (inl x) = inl x
    stopped g (inr (inl x)) = inr (inl (omega (arith, x, length-append c.sges g.sges, m.few)))
    stopped g (inr (inr x)) = inr (inr x)

    widen :
        (g : Gathered)
        → (g.ok ≡ false)
          ⊎ ((moved : List ℕ) × Gathers
                (slots - length c.sges)
                (len + k)
                max_len
                moved
                (c.self ∷ bs)
                c.out
                c.store
                g
              × ((g.len ≡ max_len) ⊎ (length g.sges ≡ slots - length c.sges) ⊎ (g.from ≡ [])))
        → (g.ok ≡ false)
          ⊎ ((moved : List ℕ) × Gathers slots len max_len moved
                (b ∷ bs)
                out
                s
                (record g { sges = c.sges ++ g.sges })
              × ((g.len ≡ max_len) ⊎ (length (c.sges ++ g.sges) ≡ slots) ⊎ (g.from ≡ [])))
    widen g (inl x) = inl x
    widen g (inr (moved, d, stop)) = inr (
      take k (contents b s) ++ moved,
      cut-Gathers slots len max_len k b bs out s c v m moved g d,
      stopped g stop,
    )

skip-outcome :
    (slots len max_len : ℕ) (b : IoBuf) (bs : List IoBuf) (out : IoBuf) (s : Store)
    (run : Option Gathered)
    → contents b s ≡ []
    → GatherOutcome slots len max_len bs out s run
    → GatherOutcome slots len max_len (b ∷ bs) out s run
skip-outcome slots len max_len b bs out s run e (g, same, inl x) = (g, same, inl x)
skip-outcome slots len max_len b bs out s run e (g, same, inr (moved, d, stop)) =
    (g, same, inr (moved, skip-Gathers slots len max_len moved b bs out s g e d, stop))

rest-Gatherable :
    (slots len max_len : ℕ) (b : IoBuf) (bs : List IoBuf) (out : IoBuf)
    → Gatherable slots len max_len (b ∷ bs) out
    → Gatherable slots len max_len bs out
unfolding list_total list_refs
rest-Gatherable slots len max_len b bs out v = record {
  valid = v.valid.1;
  filled = v.filled;
  total = omega (arith, v.total);
  refs = omega (arith, v.refs);
  within = v.within;
  word = v.word;
}

front-Cuttable :
    (slots len max_len : ℕ) (b : IoBuf) (bs : List IoBuf) (out : IoBuf)
    → Gatherable slots len max_len (b ∷ bs) out
    → Cuttable slots (max_len - len) 0 b out
unfolding list_total list_refs
front-Cuttable slots len max_len b bs out v = (
  v.valid.0,
  v.filled,
  omega (arith, v.total),
  omega (arith, v.refs),
  omega arith,
  omega (arith, v.word),
)

module _ (data_at : ℕ → ℕ) (region_id : ℕ → ℕ) (max_len : ℕ) where
  -- The loop ends, with more rounds than entries and buffers. Where it does not fail, the bytes that
  -- it took are the first ones of the buffers, in order: they stand behind those of the send slot's
  -- buffer, the entries stand for as many, each with a key, and the buffers keep the rest; the length
  -- stays within what the receiver takes. It stops only where that length or the entries are used up
  -- or the buffers are. It supposes valid buffers of fewer than 2^32 bytes and 2^30 references
  -- together, the entries included.
  pub gather-Gathers :
      (fuel slots len : ℕ) (from : List IoBuf) (out : IoBuf) (s : Store)
      → slots + length from < fuel
      → Gatherable slots len max_len from out
      → GatherOutcome slots len max_len from out s
          (gather data_at region_id max_len fuel slots len from out s)
  unfolding gather
  gather-Gathers zero slots len from out s h v = absurd (omega arith)
  gather-Gathers (suc fuel) slots len [] out s h v =
      (_, refl, inr ([], none-Gathers slots len max_len [] out s v, inr (inr refl)))
  gather-Gathers (suc fuel) slots len (b ∷ bs) out s h v = elim (Bool-cases (slots == 0)) [
    | inl z ↦ rw z (
      _,
      refl,
      inr ([], none-Gathers slots len max_len (b ∷ bs) out s v, inr (inl (ground arith))),
    )
    | inr some_slots ↦ elim (Bool-cases (leb max_len len)) [
      | inl full ↦
          rw (some_slots, full)
            (
              _,
              refl,
              inr (
                [],
                none-Gathers slots len max_len (b ∷ bs) out s v,
                inl (ground (arith, v.within)),
              ),
            )
      | inr more ↦ elim (Bool-cases (is_empty b)) [
        | inl e ↦
            rw (some_slots, more, e)
              (skip-outcome slots len max_len b bs out s _ (empty-contents b s v.valid.0 e) (
                gather-Gathers fuel slots len bs out s (omega arith)
                  (rest-Gatherable slots len max_len b bs out v)))
        | inr e ↦
            let space : sub64 max_len len ≡ max_len - len = omega (arith, v.within, v.word) in
            let (k, c, run, m) =
              cut_into_sglist-Moved data_at region_id slots (max_len - len) 0 b out s
                (front-Cuttable slots len max_len b bs out v) in
            rw (some_slots, more, e, space, run)
              (cut-outcome slots len max_len k b bs out s c
                (λ used. gather data_at region_id max_len fuel (slots - used)) v m
                (λ good.
                  gather-Gathers fuel (slots - length c.sges) (len + k) (c.self ∷ bs) c.out c.store
                    (omega (
                      arith,
                      entry k c (ground arith) (ground arith) (filled-refs b v.valid.0 e) good m,
                      m.few,
                    ))
                    (left-Gatherable slots len max_len k b bs out s c v m)))
      ]
    ]
  ]
    where
      -- A cut that does not fail has an entry.
      entry :
          (k : ℕ) (c : SgCut)
          → slots ≢ 0
          → 0 < max_len - len
          → ref_num b ≢ 0
          → c.ok ≡ true
          → Moved slots (max_len - len) 0 k b out s c
          → 0 < length c.sges
      entry k c x y z good m = by_case m.some_entry
        where
          by_case :
              (c.ok ≡ false)
                ⊎ (0 < length c.sges)
                ⊎ (slots ≡ 0)
                ⊎ (max_len - len ≤ 0)
                ⊎ (ref_num b ≡ 0)
              → 0 < length c.sges
          by_case (inl bad) = absurd (let t : true ≡ false = cc in cc)
          by_case (inr (inl w)) = w
          by_case (inr (inr (inl w))) = absurd (x w)
          by_case (inr (inr (inr (inl w)))) = absurd (omega arith)
          by_case (inr (inr (inr (inr w)))) = absurd (z w)
