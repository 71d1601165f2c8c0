-- ===== src/Dispatcher/Cutting.antt =====
-- `CutInputMessage` against the framing of bytes.
use light_rpc.Prelude.{
  ℕ, ◌+◌, ◌^◌, ◌≤◌, ◌<◌, ◌≡◌, refl, sym, ap, ◌∙◌, inl, inr, Bool-cases, ltb, List, [], ◌∷◌, ◌++◌,
  length, take, some, min, arith,
}
use light_rpc.IoBuf.Store.{Store}
use light_rpc.IoBuf.View.{IoBuf, empty_buf, buf_length, ref_list, ref_num, total, IsValid}
use light_rpc.IoBuf.Bytes.{bytes_of, length-bytes_of}
use light_rpc.IoBuf.Cut.{Cut}
use light_rpc.IoBuf.Cut.Drops.{contents, buf_length-total}
use light_rpc.IoBuf.Cut.Into.{Cuts, cutn-Cuts}
use light_rpc.IoBuf.Copy.{copy_to, copy_to_lem}
use light_rpc.Dispatcher.{
  frame_header_bytes, ntohl, CutStatus, incomplete, malformed, complete, completed,
  cut_input_message,
}
use light_rpc.Dispatcher.Frames.{Next, more, bad, frame, next_frame}

abbrev pub status_of : Next → CutStatus
status_of more = incomplete
status_of bad = malformed
status_of (frame f r) = complete

abbrev pub frame_bytes : Next → List ℕ
frame_bytes more = []
frame_bytes bad = []
frame_bytes (frame f r) = f

abbrev pub rest_bytes : Next → List ℕ → List ℕ
rest_bytes more l = l
rest_bytes bad l = l
rest_bytes (frame f r) l = r

-- The buffers after a cut of what `next` says of the bytes.
pub record CutAs (next : Next) (b : IoBuf) (s : Store) (c : Cut) : Type 0 where
  pub left : IsValid c.self
  pub filled : IsValid c.out
  pub out_bytes : contents c.out c.store ≡ frame_bytes next
  pub rest : contents c.self c.store ≡ rest_bytes next (contents b s)
  pub memory : c.store.bytes ≡ s.bytes
  pub fewer : length (ref_list c.self) ≤ length (ref_list b)

ntohl-take : (l : List ℕ) → ntohl (take 4 l) ≡ ntohl l
unfolding ntohl
ntohl-take [] = refl
ntohl-take (a ∷ []) = refl
ntohl-take (a ∷ b ∷ []) = refl
ntohl-take (a ∷ b ∷ c ∷ []) = refl
ntohl-take (a ∷ b ∷ c ∷ d ∷ l) = refl

pub empty_buf-IsValid : IsValid empty_buf
unfolding ref_list total
empty_buf-IsValid = record { shape = inl (refl, refl); each = tt; bounded = omega arith }

contents-empty_buf : (s : Store) → contents empty_buf s ≡ []
unfolding ref_list bytes_of
contents-empty_buf s = refl

uncut :
    (b : IoBuf) (s : Store)
    → IsValid b
    → (next : Next) → frame_bytes next ≡ []
    → rest_bytes next (contents b s) ≡ contents b s
    → CutAs next b s (record { self = b; out = empty_buf; store = s })
uncut b s v next e f = record {
  left = v;
  filled = empty_buf-IsValid;
  out_bytes = contents-empty_buf s ∙ sym e;
  rest = sym f;
  memory = refl;
  fewer = omega arith;
}

module _ (b : IoBuf) (s : Store) (v : IsValid b) where
  size : buf_length b ≡ length (contents b s)
  size = buf_length-total b v ∙ sym (length-bytes_of s.bytes (ref_list b))

  header : ntohl (copy_to 4 0 b s).0 ≡ ntohl (contents b s)
  header = ap ntohl (copy_to_lem 4 0 b s v).0 ∙ ntohl-take (contents b s)

-- `CutInputMessage` into an empty frame ends and does what the bytes of the buffer say: fewer than
-- four, or fewer than the length in front of them, leave both buffers as they were; a length below the
-- header's is refused; and otherwise the frame gets exactly the first bytes, as many as their
-- length says, and the buffer keeps the others. It supposes a valid buffer of fewer than 2^30
-- references.
pub cut_input_message_lem :
    (b : IoBuf) (s : Store)
    → IsValid b
    → ref_num b < 2 ^ 30
    → (c : Cut) × (cut_input_message b empty_buf s
        ≡ some (status_of (next_frame (contents b s)), c))
      × CutAs (next_frame (contents b s)) b s c
unfolding cut_input_message next_frame
cut_input_message_lem b s v few =
    rw (header b s v, size b s v)
      (elim (Bool-cases (ltb (length (contents b s)) 4)) [
        | inl short ↦ rw short (_, refl, uncut b s v more refl refl)
        | inr long ↦ elim (Bool-cases (ltb (ntohl (contents b s)) frame_header_bytes)) [
          | inl low ↦ rw (long, low) (_, refl, uncut b s v bad refl refl)
          | inr high ↦ elim (Bool-cases (ltb (length (contents b s)) (ntohl (contents b s)))) [
            | inl part ↦ rw (long, high, part) (_, refl, uncut b s v more refl refl)
            | inr whole ↦
                let (c, run, cuts) =
                  cutn-Cuts (ntohl (contents b s)) b empty_buf s v empty_buf-IsValid (no_bytes_yet)
                    (no_refs_yet) in
                let all_there : min (ntohl (contents b s)) (total (ref_list b))
                    ≡ ntohl (contents b s) =
                  ground (arith, length-bytes_of s.bytes (ref_list b)) in
                let cuts' : Cuts (ntohl (contents b s)) b empty_buf s c = rw all_there at cuts in
                rw (long, high, whole)
                  (
                    c,
                    ap completed run,
                    record {
                      left = cuts.left;
                      filled = cuts.filled;
                      out_bytes =
                          cuts'.taken
                          ∙ ap (λ l. l ++ take (ntohl (contents b s)) (contents b s))
                              (contents-empty_buf s);
                      rest = cuts'.rest;
                      memory = cuts.memory;
                      fewer = cuts.fewer;
                    },
                  )
          ]
        ]
      ])
  where
    no_bytes_yet : total (ref_list empty_buf) + total (ref_list b) < 2 ^ 32
    no_bytes_yet = unfold ref_list total in omega (arith, v.bounded)

    no_refs_yet : ref_num empty_buf + ref_num b < 2 ^ 30
    no_refs_yet = unfold ref_num in omega (arith, few)
