-- ===== src/Endpoint/SgList/Gather/Bytes.antt =====
-- What one round of the inner loop moves.
use light_rpc.Prelude.{
  ℕ, ◌+◌, ◌-◌, ◌^◌, ◌≤◌, ◌<◌, ◌≡◌, ◌≢◌, refl, sym, ap, ap₂, ◌∙◌, true, false, List, [], ◌∷◌, ◌++◌,
  All, append-nil, append_assoc, length, length-append, length-take, length-drop, take,
  take-append-drop, arith,
}
use light_rpc.IoBuf.Store.{Store}
use light_rpc.IoBuf.View.{IoBuf, ref_num, is_empty, ref_list, total, IsValid, small, big}
use light_rpc.IoBuf.Bytes.{bytes_of}
use light_rpc.IoBuf.Cut.Drops.{contents}
use light_rpc.Endpoint.SgList.{Sge, SgCut}
use light_rpc.Endpoint.SgList.Moved.{Moved, sge_total, HasKey, contents-total}
use light_rpc.Endpoint.SgList.Gather.{Gathered}

-- The bytes, the length and the references of buffers.
unfoldable pub list_bytes : List IoBuf → Store → List ℕ
list_bytes [] s = []
list_bytes (b ∷ bs) s = contents b s ++ list_bytes bs s

unfoldable pub list_total : List IoBuf → ℕ
list_total [] = 0
list_total (b ∷ bs) = total (ref_list b) + list_total bs

unfoldable pub list_refs : List IoBuf → ℕ
list_refs [] = 0
list_refs (b ∷ bs) = length (ref_list b) + list_refs bs

-- `moved` went from the buffers to the send slot's.
pub record Gathers (slots len max_len : ℕ) (moved : List ℕ) (from : List IoBuf) (out : IoBuf)
    (s : Store) (g : Gathered) : Type 0 where
  pub count : g.len ≡ len + length moved
  pub bound : g.len ≤ max_len
  pub entries : sge_total g.sges ≡ length moved
  pub few : length g.sges ≤ slots
  pub keys : All HasKey g.sges
  pub valid : All IsValid g.from
  pub filled : IsValid g.out
  pub split : list_bytes from s ≡ moved ++ list_bytes g.from g.store
  pub taken : contents g.out g.store ≡ contents out s ++ moved
  pub memory : g.store.bytes ≡ s.bytes

pub record Gatherable (slots len max_len : ℕ) (from : List IoBuf) (out : IoBuf) : Type 0 where
  pub valid : All IsValid from
  pub filled : IsValid out
  pub total : total (ref_list out) + list_total from < 2 ^ 32
  pub refs : length (ref_list out) + list_refs from + slots < 2 ^ 30
  pub within : len ≤ max_len
  pub word : max_len < 2 ^ 32

list_bytes_memory :
    (bs : List IoBuf) (s s' : Store) → s'.bytes ≡ s.bytes → list_bytes bs s' ≡ list_bytes bs s
unfolding list_bytes
list_bytes_memory [] s s' e = refl
list_bytes_memory (b ∷ bs) s s' e =
    ap₂ ◌++◌ (ap (λ m. bytes_of m (ref_list b)) e) (list_bytes_memory bs s s' e)

pub none-Gathers :
    (slots len max_len : ℕ) (from : List IoBuf) (out : IoBuf) (s : Store)
    → Gatherable slots len max_len from out
    → Gathers slots len max_len [] from out s
        (record { ok = true; sges = []; len = len; from = from; out = out; store = s })
unfolding sge_total
none-Gathers slots len max_len from out s v = record {
  count = omega arith;
  bound = v.within;
  entries = refl;
  few = omega arith;
  keys = tt;
  valid = v.valid;
  filled = v.filled;
  split = refl;
  taken = sym (append-nil (contents out s));
  memory = refl;
}

nil_of_length : (xs : List ℕ) → length xs ≡ 0 → xs ≡ []
nil_of_length [] h = refl
nil_of_length (x ∷ xs) h = absurd (omega arith)

pub empty-contents : (b : IoBuf) (s : Store) → IsValid b → is_empty b ≡ true → contents b s ≡ []
unfolding is_empty ref_list bytes_of
empty-contents (small r0 r1) s v e = rw e refl
empty-contents (big w) s v e =
    nil_of_length (contents (big w) s) (ground (arith, contents-total (big w) s, v.shape.counted))

pub filled-refs : (b : IoBuf) → IsValid b → is_empty b ≡ false → ref_num b ≢ 0
unfolding is_empty ref_num
filled-refs (small r0 r1) v e = rw e (λ h. omega arith)
filled-refs (big w) v e = λ h. omega (arith, v.shape.many)

-- The first buffer is used up.
pub skip-Gathers :
    (slots len max_len : ℕ) (moved : List ℕ) (b : IoBuf) (bs : List IoBuf) (out : IoBuf) (s : Store)
    (g : Gathered)
    → contents b s ≡ []
    → Gathers slots len max_len moved bs out s g
    → Gathers slots len max_len moved (b ∷ bs) out s g
unfolding list_bytes
skip-Gathers slots len max_len moved b bs out s g e d = record {
  count = d.count;
  bound = d.bound;
  entries = d.entries;
  few = d.few;
  keys = d.keys;
  valid = d.valid;
  filled = d.filled;
  split = ap (λ l. l ++ list_bytes bs s) e ∙ d.split;
  taken = d.taken;
  memory = d.memory;
}

sge_total-append : (xs ys : List Sge) → sge_total (xs ++ ys) ≡ sge_total xs + sge_total ys
unfolding sge_total
sge_total-append [] ys = omega arith
sge_total-append (x ∷ xs) ys = omega (arith, sge_total-append xs ys)

keys-append : (xs ys : List Sge) → All HasKey xs → All HasKey ys → All HasKey (xs ++ ys)
keys-append [] ys a b = b
keys-append (x ∷ xs) ys a b = (a.0, keys-append xs ys a.1 b)

-- A cut, then what the rest gathers.
module _ (slots len max_len k : ℕ) (b : IoBuf) (bs : List IoBuf) (out : IoBuf) (s : Store)
    (c : SgCut) (v : Gatherable slots len max_len (b ∷ bs) out)
    (m : Moved slots (max_len - len) 0 k b out s c) where
  size : length (take k (contents b s)) ≡ k
  size = omega (arith, m.within, length-take k (contents b s), contents-total b s)

  pub left-Gatherable : Gatherable (slots - length c.sges) (len + k) max_len (c.self ∷ bs) c.out
  unfolding list_total list_refs
  left-Gatherable =
      let rest : total (ref_list c.self) + k ≡ total (ref_list b) = omega (
        arith,
        m.within,
        contents-total b s,
        contents-total c.self c.store,
        ap length m.rest,
        length-drop k (contents b s),
      ) in
      let filled : total (ref_list c.out) ≡ total (ref_list out) + k = omega (
        arith,
        contents-total out s,
        contents-total c.out c.store,
        ap length m.taken,
        length-append (contents out s) (take k (contents b s)),
        size,
      ) in
      record {
        valid = (m.left, v.valid.1);
        filled = m.filled;
        total = omega (arith, v.total, m.within, rest, filled);
        refs = omega (arith, v.refs, m.refs, m.few);
        within = omega (arith, m.count, m.bound, v.within);
        word = v.word;
      }

  pub cut-Gathers :
      (moved : List ℕ) (g : Gathered)
      → Gathers (slots - length c.sges) (len + k) max_len moved (c.self ∷ bs) c.out c.store g
      → Gathers slots len max_len
          (take k (contents b s) ++ moved)
          (b ∷ bs)
          out
          s
          (record g { sges = c.sges ++ g.sges })
  unfolding list_bytes
  cut-Gathers moved g d =
      let bytes = take k (contents b s) in
      let whole : contents b s ≡ bytes ++ contents c.self c.store =
        sym (take-append-drop k (contents b s)) ∙ ap (λ l. bytes ++ l) (sym m.rest) in
      let behind : list_bytes bs s ≡ list_bytes bs c.store =
        sym (list_bytes_memory bs s c.store m.memory) in
      record {
        count = omega (arith, d.count, length-append bytes moved, size);
        bound = d.bound;
        entries = omega (
          arith,
          sge_total-append c.sges g.sges,
          m.entries,
          d.entries,
          length-append bytes moved,
          size,
        );
        few = omega (arith, length-append c.sges g.sges, d.few, m.few);
        keys = keys-append c.sges g.sges m.keys d.keys;
        valid = d.valid;
        filled = d.filled;
        split =
            ap₂ ◌++◌ whole behind
            ∙ append_assoc bytes (contents c.self c.store) (list_bytes bs c.store)
            ∙ ap (λ l. bytes ++ l) d.split
            ∙ sym (append_assoc bytes moved (list_bytes g.from g.store));
        taken = d.taken ∙ ap (λ l. l ++ moved) m.taken ∙ append_assoc (contents out s) bytes moved;
        memory = d.memory ∙ m.memory;
      }
