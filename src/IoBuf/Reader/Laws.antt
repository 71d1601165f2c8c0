-- ===== src/IoBuf/Reader/Laws.antt =====
-- Next, Skip and BackUp against the buffer's bytes.
use light_rpc.Prelude.{
  ℕ, zero, suc, ◌+◌, ◌-◌, ◌≤◌, ◌<◌, ◌≡◌, ◌≢◌, refl, sym, subst, ap, ◌∙◌, All, List, [], ◌∷◌, ◌^◌,
  Bool, true, false, ◌&&◌, Option, none, some, min, ltb, leb, ◌==◌, if_true, if_false, drop, length,
  length-drop, length-collect, arith,
}
use light_rpc.IoBuf.Store.{Store}
use light_rpc.IoBuf.View.{BlockRef, IoBuf, ref_at, ref_num, ref_list, IsValid}
use light_rpc.IoBuf.Bytes.{Memory, bytes_of}
use light_rpc.IoBuf.Copy.{refs_in_order, refs_in_order_lem}
use light_rpc.IoBuf.Cut.Drops.{contents}
use light_rpc.IoBuf.Reader.{
  Reader, new_reader, pref_at, from, give, next, give_back, back_up, skip, read_all,
}
use light_rpc.IoBuf.Reader.Position.{IsInt, Fits, Fits-start, read_left, skip_left}

ref_num_lem : (b : IoBuf) → IsValid b → length (ref_list b) ≡ ref_num b
unfolding refs_in_order
ref_num_lem b v =
    ap length (sym (refs_in_order_lem b v.shape)) ∙ length-collect (ref_at b) (ref_num b)

-- A reader of `b` whose offset lies in its reference; BackUp leaves it so, and Next and Skip.
abbrev pub IsReader : IoBuf → Reader → Type 0
IsReader b r = Fits r.add_offset (drop r.ref_index (ref_list b))

All-drop : (n : ℕ) (xs : List BlockRef) → All IsInt xs → All IsInt (drop n xs)
All-drop zero xs i = i
All-drop (suc n) [] i = i
All-drop (suc n) (x ∷ xs) i = All-drop n xs i.1

read_rest :
    (b : IoBuf) (mem : Memory) (r : Reader)
    → IsValid b
    → IsReader b r
    → read_all mem b (ref_num b) r
      ≡ drop r.add_offset (bytes_of mem (drop r.ref_index (ref_list b)))
read_rest b mem r v f =
    read_left b v mem (ref_num b) r _ refl f
      (omega (arith, length-drop r.ref_index (ref_list b), ref_num_lem b v))

-- The reader after `n` calls of Next.
unfoldable pub after_nexts : ℕ → IoBuf → Reader → Reader
after_nexts zero b r = r
after_nexts (suc n) b r = after_nexts n b (next b r).1

gives :
    (b : IoBuf) (r : Reader)
    → r.ref_index < ref_num b
    → (next b r).0 ≡ some (from r.add_offset (ref_at b r.ref_index))
unfolding next pref_at
gives b r h =
    let inside : ltb r.ref_index (ref_num b) ≡ true = ground arith in
    ap (λ o. (give o r).0) (if_true _ _ inside)

moves :
    (b : IoBuf) (r : Reader) → r.ref_index < ref_num b → (next b r).1.ref_index ≡ suc r.ref_index
unfolding next pref_at
moves b r h =
    let inside : ltb r.ref_index (ref_num b) ≡ true = ground arith in
    ap (λ o. (give o r).1.ref_index) (if_true _ _ inside)

refuses : (b : IoBuf) (r : Reader) → ref_num b ≤ r.ref_index → next b r ≡ (none, r)
unfolding next pref_at
refuses b r h =
    let outside : ltb r.ref_index (ref_num b) ≡ false = ground arith in
    ap (λ o. give o r) (if_false _ _ outside)

after_nexts-index :
    (n : ℕ) (b : IoBuf) (r : Reader)
    → r.ref_index + n ≤ ref_num b
    → (after_nexts n b r).ref_index ≡ r.ref_index + n
unfolding after_nexts
after_nexts-index zero b r h = omega arith
after_nexts-index (suc n) b r h =
    let one = moves b r (omega arith) in
    omega (arith, one, after_nexts-index n b (next b r).1 (omega (arith, one)))

-- Reading a valid buffer, of references shorter than 2 ^ 31 bytes, from its start: just as many calls of Next as the buffer has references
-- return true, the next one returns false and leaves the reader as it is, and what they give, in any
-- number of calls from that one on, is the buffer's bytes, all and in order.
pub read_all_lem :
    (b : IoBuf) (s : Store)
    → IsValid b
    → All IsInt (ref_list b)
    → ((n : ℕ) → n < ref_num b → (next b (after_nexts n b new_reader)).0 ≢ none)
      × (next b (after_nexts (ref_num b) b new_reader)
          ≡ (none, after_nexts (ref_num b) b new_reader))
      × ((calls : ℕ) → ref_num b ≤ calls → read_all s.bytes b calls new_reader ≡ contents b s)
read_all_lem b s v i = (
  λ n h e.
      let at = after_nexts-index n b new_reader (omega arith) in
      let given = gives b (after_nexts n b new_reader) (omega (arith, at)) in absurd (cc),
  refuses b (after_nexts (ref_num b) b new_reader)
      (omega (arith, after_nexts-index (ref_num b) b new_reader (omega arith))),
  λ calls h.
      read_left b v s.bytes calls new_reader _ refl (Fits-start (ref_list b))
        (omega (arith, ref_num_lem b v)),
)

pub record SkipsTo (mem : Memory) (b : IoBuf) (count : ℕ) (r : Reader) (ok : Bool) (q : Reader)
    : Type 0 where
  pub run : skip b count r ≡ some (ok, q)
  pub told : ok ≡ ltb count (length (read_all mem b (ref_num b) r))
  pub rest : read_all mem b (ref_num b) q ≡ drop count (read_all mem b (ref_num b) r)
  pub counted : q.byte_count ≡ r.byte_count + min count (length (read_all mem b (ref_num b) r))
  pub reader : IsReader b q

-- Skip of `count` bytes, fewer than 2 ^ 31 as an int has them, from any reader of a valid buffer of
-- references shorter than 2 ^ 31 bytes: what is read afterwards is what would have
-- been read before, without its first `count` bytes; ByteCount grows by `count`, or by what was left;
-- and true is returned just where more than `count` bytes were left.
pub skip_lem :
    (mem : Memory) (b : IoBuf) (count : ℕ) (r : Reader)
    → IsValid b
    → All IsInt (ref_list b)
    → IsReader b r
    → count < 2 ^ 31
    → (ok : Bool) × (q : Reader) × SkipsTo mem b count r ok q
unfolding skip
skip_lem mem b count r v i f c =
    let all_left = read_rest b mem r v f in
    let (ok, q, run, k) =
      skip_left b v mem (suc (ref_num b - r.ref_index)) count r _ refl f
        (All-drop r.ref_index (ref_list b) i) c
        (omega (arith, length-drop r.ref_index (ref_list b), ref_num_lem b v)) in
    (
      ok,
      q,
      record {
        run = run;
        told = k.told ∙ ap (λ l. ltb count (length l)) (sym all_left);
        rest = read_rest b mem q v k.fits ∙ k.rest ∙ ap (drop count) (sym all_left);
        counted = k.counted ∙ ap (λ l. r.byte_count + min count (length l)) (sym all_left);
        reader = k.fits;
      },
    )

gave :
    (b : IoBuf) (o : Option BlockRef) (count : ℕ) (r : Reader) (p : BlockRef) (q : Reader)
    → pref_at b r.ref_index ≡ o
    → give o r ≡ (some p, q)
    → count ≤ p.length
    → back_up b count q ≡ none
unfolding back_up
gave b none count r p q e g h = absurd (cc)
gave b (some cur) count r p q e g h =
    let after : Reader = record {
      ref_index = suc r.ref_index;
      add_offset = 0;
      byte_count = r.byte_count + (cur.length - r.add_offset);
    } in
    let size : cur.length - r.add_offset ≡ p.length = ap (λ w. length_of w.0) g in
    let first : (suc r.ref_index == 0) ≡ false = ground arith in
    let last : suc r.ref_index - 1 ≡ r.ref_index = omega arith in
    let test : ((0 == 0) && leb count cur.length) ≡ true = ground (arith, size) in
    subst (λ w. back_up b count w ≡ none) (ap (λ (w : Option BlockRef × Reader). w.1) g)
      (if_false _ _ first
        ∙ ap (λ o. give_back o count after) (ap (pref_at b) last ∙ e)
        ∙ if_true _ _ test)
  where
    length_of : Option BlockRef → ℕ
    length_of none = 0
    length_of (some x) = x.length

-- After a Next that gave bytes, a BackUp of any number of them aborts the process: the code tests for
-- a fault what it should test for its absence.
pub back_up-aborts :
    (b : IoBuf) (count : ℕ) (r : Reader) (p : BlockRef) (q : Reader)
    → next b r ≡ (some p, q)
    → count ≤ p.length
    → back_up b count q ≡ none
unfolding next
back_up-aborts b count r p q e h = gave b (pref_at b r.ref_index) count r p q refl e h
