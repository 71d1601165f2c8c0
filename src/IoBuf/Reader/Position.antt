-- ===== src/IoBuf/Reader/Position.antt =====
-- What a reader has still to give.
use light_rpc.Prelude.{
  ℕ, zero, suc, ◌+◌, ◌-◌, ◌≤◌, ◌<◌, ◌≡◌, refl, sym, ap, ap₂, ◌∙◌, All, Option, ◌^◌, subst, inl, inr,
  Bool, true, false, Bool-cases, none, some, min, ltb, ltb→lt, if◌then◌else◌, if_true, if_false,
  List, [], ◌∷◌, ◌++◌, get_elem?, drop, length, length-drop, length-append, collect, arith,
}
use light_rpc.Prelude.Bits.{add32, sub32, int_lt}
use light_rpc.IoBuf.View.{BlockRef, IoBuf, ref_at, ref_num, ref_list, IsValid}
use light_rpc.IoBuf.Bytes.{Memory, ref_bytes, bytes_of, length-slice}
use light_rpc.IoBuf.Copy.{refs_in_order, refs_in_order_lem}
use light_rpc.IoBuf.Cut.Lists.{
  drop-append_within, drop-append_past, drop-drop, drop-slice, drop_all,
}
use light_rpc.IoBuf.Reader.{
  Reader, pref_at, from, give, next, skip_in, skip_loop, then_bytes, read_all,
}

get_elem?-collect :
    (f : ℕ → BlockRef) (n i : ℕ)
    → get_elem? (collect f n) i ≡ (if ltb i n then some (f i) else none)
get_elem?-collect f zero i = ground arith
get_elem?-collect f (suc n) zero = ground arith
get_elem?-collect f (suc n) (suc i) =
    get_elem?-collect (λ j. f (suc j)) n i
    ∙ ap (λ t. if t then some (f (suc i)) else none) (same i n)
  where
    same : (i n : ℕ) → ltb i n ≡ ltb (suc i) (suc n)
    same i n = ground arith

pref_at_lem : (b : IoBuf) (i : ℕ) → IsValid b → pref_at b i ≡ get_elem? (ref_list b) i
unfolding pref_at refs_in_order
pref_at_lem b i v =
    sym (get_elem?-collect (ref_at b) (ref_num b) i)
    ∙ ap (λ l. get_elem? l i) (refs_in_order_lem b v.shape)

elem-drop :
    (xs : List BlockRef) (i : ℕ) {y : BlockRef} {ys : List BlockRef}
    → drop i xs ≡ y ∷ ys
    → (get_elem? xs i ≡ some y) × (drop (suc i) xs ≡ ys)
elem-drop [] zero e = absurd (cc)
elem-drop [] (suc i) e = absurd (cc)
elem-drop (x ∷ xs) zero e = (cc, cc)
elem-drop (x ∷ xs) (suc i) e = elem-drop xs i e

elem-end : (xs : List BlockRef) (i : ℕ) → drop i xs ≡ [] → get_elem? xs i ≡ none
elem-end [] i e = refl
elem-end (x ∷ xs) zero e = absurd (cc)
elem-end (x ∷ xs) (suc i) e = elem-end xs i e

-- The offset lies in the first reference.
abbrev pub Fits : ℕ → List BlockRef → Type 0
Fits a [] = a ≡ 0
Fits a (x ∷ xs) = a ≤ x.length

pub Fits-start : (xs : List BlockRef) → Fits 0 xs
Fits-start [] = refl
Fits-start (x ∷ xs) = omega arith

-- The length of a reference fits an int.
abbrev pub IsInt : BlockRef → Type 0
IsInt x = x.length < 2 ^ 31

drop-first :
    (mem : Memory) (a : ℕ) (x : BlockRef) (xs : List BlockRef)
    → a ≤ x.length
    → drop a (bytes_of mem (x ∷ xs)) ≡ ref_bytes mem (from a x) ++ bytes_of mem xs
unfolding bytes_of ref_bytes
drop-first mem a x xs h =
    drop-append_within (ref_bytes mem x) (bytes_of mem xs) a
      (omega (arith, length-slice (mem x.block) x.offset x.length))
    ∙ ap (λ l. l ++ bytes_of mem xs) (drop-slice (mem x.block) x.offset x.length a h)

module _ (b : IoBuf) (v : IsValid b) (mem : Memory) where
  next_some :
      (r : Reader) (x : BlockRef) (xs : List BlockRef)
      → drop r.ref_index (ref_list b) ≡ x ∷ xs
      → pref_at b r.ref_index ≡ some x
  next_some r x xs e = pref_at_lem b r.ref_index v ∙ (elem-drop (ref_list b) r.ref_index e).0

  next_none : (r : Reader) → drop r.ref_index (ref_list b) ≡ [] → pref_at b r.ref_index ≡ none
  next_none r e = pref_at_lem b r.ref_index v ∙ elem-end (ref_list b) r.ref_index e

  pub read_left :
      (fuel : ℕ) (r : Reader) (rest : List BlockRef)
      → drop r.ref_index (ref_list b) ≡ rest
      → Fits r.add_offset rest
      → length rest ≤ fuel
      → read_all mem b fuel r ≡ drop r.add_offset (bytes_of mem rest)
  unfolding read_all next bytes_of
  read_left zero r [] e f h = ap (λ a. drop a []) (sym f)
  read_left zero r (x ∷ xs) e f h = absurd (omega arith)
  read_left (suc fuel) r [] e f h =
      ap (λ o. then_bytes mem (give o r) (read_all mem b fuel)) (next_none r e)
      ∙ ap (λ a. drop a []) (sym f)
  read_left (suc fuel) r (x ∷ xs) e f h =
      let later : Reader = record {
        ref_index = suc r.ref_index;
        add_offset = 0;
        byte_count = r.byte_count + (x.length - r.add_offset);
      } in
      ap (λ o. then_bytes mem (give o r) (read_all mem b fuel)) (next_some r x xs e)
      ∙ ap (λ l. ref_bytes mem (from r.add_offset x) ++ l)
          (read_left fuel later xs (elem-drop (ref_list b) r.ref_index e).1 (Fits-start xs)
            (omega arith))
      ∙ sym (drop-first mem r.add_offset x xs f)

  -- A reader after a Skip: it stands `count` bytes further, or at the end.
  pub record Skipped (count : ℕ) (old : List ℕ) (byte_count : ℕ) (ok : Bool) (r : Reader)
      : Type 0 where
    pub fits : Fits r.add_offset (drop r.ref_index (ref_list b))
    pub told : ok ≡ ltb count (length old)
    pub rest : drop r.add_offset (bytes_of mem (drop r.ref_index (ref_list b))) ≡ drop count old
    pub counted : r.byte_count ≡ byte_count + min count (length old)

  -- The two ways of a round of Skip.
  stops :
      (count : ℕ) (r : Reader) (x : BlockRef) (again : ℕ → Reader → Option (Bool × Reader))
      → r.add_offset ≤ x.length
      → IsInt x
      → count < x.length - r.add_offset
      → skip_in (some x) count r again
        ≡ some (
          true,
          record r { add_offset = r.add_offset + count; byte_count = r.byte_count + count },
        )
  stops count r x again f i h =
      let left : sub32 x.length r.add_offset ≡ x.length - r.add_offset = omega arith in
      let less : int_lt count (sub32 x.length r.add_offset) ≡ true = ground (arith, left) in
      let sum : add32 r.add_offset count ≡ r.add_offset + count = omega arith in
      if_true _ _ less
      ∙ ap (λ a. some (true, record r { add_offset = a; byte_count = r.byte_count + count })) sum

  passes :
      (count : ℕ) (r : Reader) (x : BlockRef) (again : ℕ → Reader → Option (Bool × Reader))
      → r.add_offset ≤ x.length
      → IsInt x
      → count < 2 ^ 31
      → x.length - r.add_offset ≤ count
      → skip_in (some x) count r again
        ≡ again (count - (x.length - r.add_offset)) (record {
          ref_index = suc r.ref_index;
          add_offset = 0;
          byte_count = r.byte_count + (x.length - r.add_offset);
        })
  passes count r x again f i c h =
      let left : sub32 x.length r.add_offset ≡ x.length - r.add_offset = omega arith in
      let more : int_lt count (sub32 x.length r.add_offset) ≡ false = ground (arith, left) in
      let rest : sub32 count (sub32 x.length r.add_offset) ≡ count - (x.length - r.add_offset) =
        omega (arith, left) in
      if_false _ _ more
      ∙ ap₂
          (λ n k.
            again n (record {
              ref_index = suc r.ref_index;
              add_offset = 0;
              byte_count = r.byte_count + k;
            }))
          rest left

  pub skip_left :
      (fuel count : ℕ) (r : Reader) (rest : List BlockRef)
      → drop r.ref_index (ref_list b) ≡ rest
      → Fits r.add_offset rest
      → All IsInt rest
      → count < 2 ^ 31
      → length rest < fuel
      → (ok : Bool) × (q : Reader) × (skip_loop fuel b count r ≡ some (ok, q))
        × Skipped count (drop r.add_offset (bytes_of mem rest)) r.byte_count ok q
  unfolding skip_loop bytes_of ref_bytes
  skip_left zero count r rest e f i c h = absurd (omega arith)
  skip_left (suc fuel) count r [] e f i c h =
      let none_left = length-drop {A = ℕ} r.add_offset [] in
      (
        false,
        r,
        ap (λ o. skip_in o count r (skip_loop fuel b)) (next_none r e),
        record {
          fits = subst (Fits r.add_offset) (sym e) f;
          told = ground (arith, none_left);
          rest =
              ap (λ l. drop r.add_offset (bytes_of mem l)) e
              ∙ drop_nil r.add_offset
              ∙ sym (drop_nil count)
              ∙ ap (drop count) (sym (drop_nil r.add_offset));
          counted = omega (arith, none_left);
        },
      )
    where
      drop_nil : (n : ℕ) → drop {A = ℕ} n [] ≡ []
      drop_nil n = drop_all [] n (omega arith)
  skip_left (suc fuel) count r (x ∷ xs) e f i c h =
      let size = old_size x xs r.add_offset in
      let reached = ap (λ o. skip_in o count r (skip_loop fuel b)) (next_some r x xs e) in
      elim (Bool-cases (ltb count (x.length - r.add_offset))) [
        | inl g ↦
            let less = ltb→lt count (x.length - r.add_offset) g in
            (
              true,
              record r { add_offset = r.add_offset + count; byte_count = r.byte_count + count },
              reached ∙ stops count r x (skip_loop fuel b) f i.0 less,
              record {
                fits = subst (Fits (r.add_offset + count)) (sym e) (omega arith);
                told = ground (arith, size);
                rest =
                    ap (λ l. drop (r.add_offset + count) (bytes_of mem l)) e
                    ∙ sym (drop-drop (bytes_of mem (x ∷ xs)) r.add_offset count);
                counted = omega (arith, size);
              },
            )
        | inr g ↦
            let (ok, q, run, k) =
              skip_left fuel (count - (x.length - r.add_offset))
                (record {
                  ref_index = suc r.ref_index;
                  add_offset = 0;
                  byte_count = r.byte_count + (x.length - r.add_offset);
                })
                xs (elem-drop (ref_list b) r.ref_index e).1 (Fits-start xs) i.1 (omega arith)
                (omega arith) in
            (
              ok,
              q,
              reached ∙ passes count r x (skip_loop fuel b) f i.0 c (ground arith) ∙ run,
              onwards x xs count r.add_offset r.byte_count ok q f g k,
            )
      ]
    where
      old_size :
          (x : BlockRef) (xs : List BlockRef) (a : ℕ)
          → length (drop a (bytes_of mem (x ∷ xs))) ≡ x.length + length (bytes_of mem xs) - a
      old_size x xs a = omega (
        arith,
        length-drop a (bytes_of mem (x ∷ xs)),
        length-append (ref_bytes mem x) (bytes_of mem xs),
        length-slice (mem x.block) x.offset x.length,
      )

      onwards :
          (x : BlockRef) (xs : List BlockRef) (count a n : ℕ) (ok : Bool) (q : Reader)
          → a ≤ x.length
          → ltb count (x.length - a) ≡ false
          → Skipped (count - (x.length - a)) (bytes_of mem xs) (n + (x.length - a)) ok q
          → Skipped count (drop a (bytes_of mem (x ∷ xs))) n ok q
      onwards x xs count a n ok q f g k =
          let size = old_size x xs a in
          let past : x.length - a ≤ count = ground arith in
          let same : ltb (count - (x.length - a)) (length (bytes_of mem xs))
              ≡ ltb count (length (drop a (bytes_of mem (x ∷ xs)))) =
            ground (arith, size) in
          record {
            fits = k.fits;
            told = k.told ∙ same;
            rest =
                k.rest
                ∙ sym (
                    drop-drop (bytes_of mem (x ∷ xs)) a count
                    ∙ drop-append_past (ref_bytes mem x) (bytes_of mem xs) (a + count)
                        (omega (arith, length-slice (mem x.block) x.offset x.length))
                    ∙ ap (λ i. drop i (bytes_of mem xs))
                        (omega (arith, length-slice (mem x.block) x.offset x.length)));
            counted = omega (arith, k.counted, size);
          }
