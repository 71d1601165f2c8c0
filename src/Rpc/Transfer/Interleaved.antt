-- ===== src/Rpc/Transfer/Interleaved.antt =====
-- A large message that arrives while a message of the control queue pair is read in part.
use light_rpc.Prelude.{
  ℕ, ◌+◌, ◌≤◌, ◌≡◌, refl, sym, ap, ◌∙◌, List, [], ◌∷◌, ◌++◌, append_assoc, some, take, drop, length,
  length-append, length-take, take-append-drop, collect, length-collect, find, arith,
}
use light_rpc.Dispatcher.{ntohl}
use light_rpc.Dispatcher.Frames.{frame, next_frame}
use light_rpc.Rpc.Framing.{next_frame_exact}
use light_rpc.Rpc.Large.{LargeMr, Conn, receive, on_data_recv}

-- The first word of a list stands in its first four bytes.
ntohl-append : (pre xs ys : List ℕ) → 4 ≤ length pre → ntohl (pre ++ xs) ≡ ntohl (pre ++ ys)
unfolding ntohl
ntohl-append [] xs ys h = absurd (omega arith)
ntohl-append (a ∷ []) xs ys h = absurd (omega arith)
ntohl-append (a ∷ b ∷ []) xs ys h = absurd (omega arith)
ntohl-append (a ∷ b ∷ c ∷ []) xs ys h = absurd (omega arith)
ntohl-append (a ∷ b ∷ c ∷ d ∷ pre) xs ys h = refl

-- Where the buffer holds the first part of a frame, of four bytes or more, and a large message of at least
-- the frame's missing length is received before its second part, what is cut out next is not that
-- frame: it is the first part with the large message's first bytes in place of the second, and the
-- rest of the large message stands in front of the second part.
pub on_data_recv-interleaved :
    (pre post : List ℕ) (mr : LargeMr) (rkey n : ℕ) (memory : ℕ → ℕ) (d : Conn)
    → let large = collect (λ i. memory (mr.addr + i)) n in
      ntohl (pre ++ post) ≡ length (pre ++ post)
      → 12 ≤ length (pre ++ post)
      → 4 ≤ length pre
      → length post ≤ n
      → find rkey d.large_map ≡ some mr
      → next_frame ((on_data_recv rkey n memory pre d).0 ++ post)
        ≡ frame (pre ++ take (length post) large) (drop (length post) large ++ post)
unfolding on_data_recv
on_data_recv-interleaved pre post mr rkey n memory d total header word short known =
    let large = collect (λ i. memory (mr.addr + i)) n in
    let f = pre ++ take (length post) large in
    let rest = drop (length post) large ++ post in
    let joined : (pre ++ large) ++ post ≡ f ++ rest =
      ap (λ l. (pre ++ l) ++ post) (sym (take-append-drop (length post) large))
      ∙ ap (λ l. l ++ post)
          (sym (append_assoc pre (take (length post) large) (drop (length post) large)))
      ∙ append_assoc f (drop (length post) large) post in
    let cut = length-take (length post) large in
    let filled = length-collect (λ i. memory (mr.addr + i)) n in
    let size : length f ≡ length (pre ++ post) = omega (
      arith,
      length-append pre (take (length post) large),
      length-append pre post,
      cut,
      filled,
      short,
    ) in
    let first : ntohl (f ++ rest) ≡ length f =
      ap ntohl (append_assoc pre (take (length post) large) rest)
      ∙ ntohl-append pre _ post word
      ∙ total
      ∙ sym size in
    ap (λ o. next_frame ((receive o rkey n memory pre d).0 ++ post)) known
    ∙ ap next_frame joined
    ∙ next_frame_exact f rest first (omega (arith, size, header))
