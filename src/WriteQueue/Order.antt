-- ===== src/WriteQueue/Order.antt =====
-- Sequences of writes by several callers: what is sent, and in which order.
use light_rpc.Prelude.{
  ℕ, ◌≤◌, ◌≡◌, ◌≢◌, refl, sym, ap, ap₂, subst, ◌∙◌, Bool, true, false, ◌&&◌, List, [], ◌∷◌, ◌++◌,
  append_assoc, append-nil, All, Option, none, some, length, ◌==◌, if◌then◌else◌, update, arith,
}
use light_rpc.WriteQueue.{WriteQueue, publish, connect, no_bytes, is_write_complete}
use light_rpc.WriteQueue.Chains.{
  Links, Without, reverse_onto, update_same, update_other, Links-update, All-reverse_onto,
  reverse_onto-append, Links-last, Links-append, Links-front, Links-same,
}
use light_rpc.WriteQueue.Complete.{IsPending, Completed, is_write_complete_lem}

-- The bytes that requests have left, in order.
unfoldable pub pieces : (ℕ → List ℕ) → List ℕ → List ℕ
pieces data_left [] = []
pieces data_left (n ∷ ns) = data_left n ++ pieces data_left ns

abbrev pub no_requests : List ℕ → Bool
no_requests [] = true
no_requests (n ∷ ns) = false

-- With no writer, or with one that has the requests of `front` and then `old_head`, where those in
-- `incoming` came after, the newest first.
pub data Writer : Type 0 where
  idle : Writer
  busy : List ℕ → ℕ → List ℕ → Writer

-- The writer after a call of `is_write_complete`, by its result: the requests that came are its own.
abbrev pub resumed : Bool → List ℕ → ℕ → List ℕ → Writer
resumed true front old_head incoming = idle
resumed false front old_head [] = busy front old_head []
resumed false front old_head (n ∷ ns) = busy (front ++ old_head ∷ reverse_onto ns []) n []

-- The queue, the writer, the bytes sent so far and those published so far.
pub data Step
    : WriteQueue → Writer → List ℕ → List ℕ → WriteQueue → Writer → List ℕ → List ℕ → Type 0 where
  start :
      (req : ℕ) (bytes : List ℕ) (q : WriteQueue) (sent log : List ℕ)
      → req ≢ 0
      → (publish req bytes q).0 ≡ 0
      → Step q idle sent log
          (connect req 0 (publish req bytes q).1)
          (busy [] req [])
          sent
          (log ++ bytes)
  enqueue :
      (req : ℕ) (bytes : List ℕ) (q : WriteQueue) (front : List ℕ) (old_head : ℕ)
      (incoming sent log : List ℕ)
      → req ≢ 0
      → Without req front
      → Without req (old_head ∷ incoming)
      → Step q
          (busy front old_head incoming)
          sent
          log
          (connect req (publish req bytes q).0 (publish req bytes q).1)
          (busy front old_head (req ∷ incoming))
          sent
          (log ++ bytes)
  write :
      (data_left : ℕ → List ℕ) (bytes : List ℕ) (q : WriteQueue) (front : List ℕ) (old_head : ℕ)
      (incoming sent log : List ℕ)
      → pieces q.data_left (front ++ old_head ∷ [])
        ≡ bytes ++ pieces data_left (front ++ old_head ∷ [])
      → All (λ n. data_left n ≡ q.data_left n) incoming
      → Step q
          (busy front old_head incoming)
          sent
          log
          (record q { data_left = data_left })
          (busy front old_head incoming)
          (sent ++ bytes)
          log
  release :
      (req : ℕ) (q : WriteQueue) (front : List ℕ) (old_head : ℕ) (incoming sent log : List ℕ)
      → q.data_left req ≡ []
      → Step q
          (busy (req ∷ front) old_head incoming)
          sent
          log
          q
          (busy front old_head incoming)
          sent
          log
  complete :
      (requests : ℕ) (q : WriteQueue) (front : List ℕ) (old_head : ℕ) (incoming sent log : List ℕ)
      (no_more : Bool) (tail : ℕ) (q' : WriteQueue)
      → length incoming ≤ requests
      → is_write_complete requests old_head (no_requests front) q ≡ some (no_more, tail, q')
      → Step q
          (busy front old_head incoming)
          sent
          log
          q'
          (resumed no_more front old_head incoming)
          sent
          log

pub data Reach (q : WriteQueue) (w : Writer) (sent log : List ℕ)
    : WriteQueue → Writer → List ℕ → List ℕ → Type 0 where
  here : Reach q w sent log q w sent log
  next :
      {q1 q2 : WriteQueue} {w1 w2 : Writer} {s1 s2 l1 l2 : List ℕ}
      → Reach q w sent log q1 w1 s1 l1
      → Step q1 w1 s1 l1 q2 w2 s2 l2
      → Reach q w sent log q2 w2 s2 l2

abbrev pub requests_of : List ℕ → ℕ → List ℕ → List ℕ
requests_of front old_head incoming = front ++ old_head ∷ reverse_onto incoming []

-- The writer's own requests are linked in this order, the last one to none, and are not among those
-- that came after.
abbrev pub IsChain : WriteQueue → List ℕ → ℕ → List ℕ → Type 0
IsChain q front old_head incoming =
    Links q.next (front ++ old_head ∷ []) 0 × All (λ f. Without f (old_head ∷ incoming)) front

-- What was published is what was sent and then what the requests have left, in order.
abbrev pub IsOrdered : WriteQueue → Writer → List ℕ → List ℕ → Type 0
IsOrdered q idle sent log = (q.head ≡ 0) × (log ≡ sent)
IsOrdered q (busy front old_head incoming) sent log =
    IsPending q old_head incoming
    × (log ≡ sent ++ pieces q.data_left (requests_of front old_head incoming))
    × IsChain q front old_head incoming

pieces-append : (d : ℕ → List ℕ) (xs ys : List ℕ) → pieces d (xs ++ ys) ≡ pieces d xs ++ pieces d ys
unfolding pieces
pieces-append d [] ys = refl
pieces-append d (x ∷ xs) ys =
    ap (λ l. d x ++ l) (pieces-append d xs ys)
    ∙ sym (append_assoc (d x) (pieces d xs) (pieces d ys))

pieces_same : (d e : ℕ → List ℕ) (xs : List ℕ) → All (λ n. e n ≡ d n) xs → pieces e xs ≡ pieces d xs
unfolding pieces
pieces_same d e [] a = refl
pieces_same d e (x ∷ xs) a = ap₂ ◌++◌ a.0 (pieces_same d e xs a.1)

pieces-update :
    (d : ℕ → List ℕ) (p : ℕ) (bytes : List ℕ) (xs : List ℕ)
    → Without p xs
    → pieces (update d p bytes) xs ≡ pieces d xs
pieces-update d p bytes xs w = pieces_same d (update d p bytes) xs (others xs w)
  where
    others : (xs : List ℕ) → Without p xs → All (λ n. update d p bytes n ≡ d n) xs
    others [] w = tt
    others (x ∷ xs) w =
        (let other : (p == x) ≡ false = ground (arith, w.0) in rw other refl, others xs w.1)

Without-append : (p : ℕ) (xs ys : List ℕ) → Without p xs → Without p ys → Without p (xs ++ ys)
Without-append p [] ys a b = b
Without-append p (x ∷ xs) ys a b = (a.0, Without-append p xs ys a.1 b)

started :
    (req : ℕ) (bytes : List ℕ) (q : WriteQueue) (sent log : List ℕ)
    → req ≢ 0
    → IsOrdered q idle sent log
    → IsOrdered (connect req 0 (publish req bytes q).1) (busy [] req []) sent (log ++ bytes)
unfolding connect publish pieces reverse_onto
started req bytes q sent log z v =
    let here : (req == req) ≡ true = ground arith in
    rw here (
      record { top = refl; named = (z, tt); distinct = (tt, tt); links = tt; end = rw here refl },
      ap₂ ◌++◌ v.1 (sym (append-nil bytes)),
      ((refl, tt), tt),
    )

enqueued :
    (req : ℕ) (bytes : List ℕ) (q : WriteQueue) (front : List ℕ) (old_head : ℕ)
    (incoming sent log : List ℕ)
    → req ≢ 0
    → Without req front
    → Without req (old_head ∷ incoming)
    → IsOrdered q (busy front old_head incoming) sent log
    → IsOrdered
        (connect req (publish req bytes q).0 (publish req bytes q).1)
        (busy front old_head (req ∷ incoming))
        sent
        (log ++ bytes)
unfolding connect publish pieces reverse_onto
enqueued req bytes q front old_head incoming sent log z f o (v, e, (mine, apart)) =
    let later = reverse_onto incoming [] in
    let before = requests_of front old_head incoming in
    let order : requests_of front old_head (req ∷ incoming) ≡ before ++ req ∷ [] =
      ap (λ l. front ++ old_head ∷ l) (reverse_onto-append incoming [] (req ∷ []))
      ∙ sym (append_assoc front (old_head ∷ later) (req ∷ [])) in
    let fresh =
      Without-append req front (old_head ∷ later) f
        (o.0, All-reverse_onto (λ n. n ≢ req) incoming [] o.1 tt) in
    let d = update q.data_left req bytes in
    let here : (req == req) ≡ true = ground arith in
    let own : d req ++ [] ≡ bytes = append-nil (d req) ∙ rw here refl in
    let after : pieces d (requests_of front old_head (req ∷ incoming))
        ≡ pieces q.data_left before ++ bytes =
      ap (pieces d) order
      ∙ pieces-append d before (req ∷ [])
      ∙ ap₂ ◌++◌ (pieces-update q.data_left req bytes before fresh) own in
    let unlinked = update q.next req none in
    let own_apart = Without-append req front (old_head ∷ []) f (o.0, tt) in
    (
      record {
        top = refl;
        named = (v.named.0, (z, v.named.1));
        distinct = (((λ x. o.0 (sym x)), v.distinct.0), (o.1, v.distinct.1));
        links = (
          update_same unlinked req (some q.head) ∙ ap some v.top,
          Links-update unlinked incoming old_head req (some q.head) o.1
              (Links-update q.next incoming old_head req none o.1 v.links),
        );
        end =
            update_other unlinked req old_head (some q.head) o.0
            ∙ update_other q.next req old_head none o.0
            ∙ v.end;
      },
      ap (λ l. l ++ bytes) e
          ∙ append_assoc sent (pieces q.data_left before) bytes
          ∙ ap (λ l. sent ++ l) (sym after),
      (
        Links-update unlinked (front ++ old_head ∷ []) 0 req (some q.head) own_apart
            (Links-update q.next (front ++ old_head ∷ []) 0 req none own_apart mine),
        still_apart front f apart,
      ),
    )
  where
    still_apart :
        (xs : List ℕ)
        → Without req xs
        → All (λ f. Without f (old_head ∷ incoming)) xs
        → All (λ f. Without f (old_head ∷ req ∷ incoming)) xs
    still_apart [] w a = tt
    still_apart (x ∷ xs) w a = ((a.0.0, ((λ e. w.0 (sym e)), a.0.1)), still_apart xs w.1 a.1)

written :
    (data_left : ℕ → List ℕ) (bytes : List ℕ) (q : WriteQueue) (front : List ℕ) (old_head : ℕ)
    (incoming sent log : List ℕ)
    → pieces q.data_left (front ++ old_head ∷ [])
      ≡ bytes ++ pieces data_left (front ++ old_head ∷ [])
    → All (λ n. data_left n ≡ q.data_left n) incoming
    → IsOrdered q (busy front old_head incoming) sent log
    → IsOrdered
        (record q { data_left = data_left })
        (busy front old_head incoming)
        (sent ++ bytes)
        log
written data_left bytes q front old_head incoming sent log e a (v, o, m) =
    let later = reverse_onto incoming [] in
    let parts = λ (d : ℕ → List ℕ).
      ap (pieces d) (sym (append_assoc front (old_head ∷ []) later))
      ∙ pieces-append d (front ++ old_head ∷ []) later in
    (
      record { top = v.top; named = v.named; distinct = v.distinct; links = v.links; end = v.end },
      o
          ∙ ap (λ l. sent ++ l)
              (parts q.data_left
                ∙ ap₂ ◌++◌ e (
                    sym (
                      pieces_same q.data_left data_left later
                        (All-reverse_onto (λ n. data_left n ≡ q.data_left n) incoming [] a tt)))
                ∙ append_assoc bytes (pieces data_left (front ++ old_head ∷ []))
                    (pieces data_left later)
                ∙ ap (λ l. bytes ++ l) (sym (parts data_left)))
          ∙ sym (append_assoc sent bytes (pieces data_left (requests_of front old_head incoming))),
      m,
    )

nothing_left : (bytes : List ℕ) → no_bytes bytes ≡ true → bytes ≡ []
nothing_left [] h = refl
nothing_left (x ∷ xs) h = absurd cc

and_true : (b : Bool) → b && true ≡ true → b ≡ true
and_true true h = refl
and_true false h = h

not_both : (b : Bool) → b && false ≡ true → ⊥
not_both true h = cc
not_both false h = cc

nothing_new :
    (q : WriteQueue) (front : List ℕ) (old_head : ℕ) (sent log : List ℕ) (no_more : Bool)
    → no_bytes (q.data_left old_head) && no_requests front ≡ no_more
    → IsOrdered q (busy front old_head []) sent log
    → IsOrdered
        (record q { head = if no_more then 0 else old_head })
        (resumed no_more front old_head [])
        sent
        log
unfolding pieces reverse_onto
nothing_new q front old_head sent log false e (v, o, m) = (
  record { top = refl; named = v.named; distinct = v.distinct; links = v.links; end = v.end },
  o,
  m,
)
nothing_new q [] old_head sent log true e (v, o, m) =
    let done : q.data_left old_head ≡ [] =
      nothing_left (q.data_left old_head) (and_true (no_bytes (q.data_left old_head)) e) in
    (refl, o ∙ ap (λ l. sent ++ (l ++ [])) done ∙ append-nil sent)
nothing_new q (n ∷ ns) old_head sent log true e (v, o, m) =
    absurd (not_both (no_bytes (q.data_left old_head)) e)

-- The writer takes over the requests that came.
taken_over :
    (q q2 : WriteQueue) (front : List ℕ) (old_head n : ℕ) (ns sent log : List ℕ)
    → q2.head ≡ q.head
    → q2.data_left ≡ q.data_left
    → Links q2.next (old_head ∷ reverse_onto (n ∷ ns) []) 0
    → ((m : ℕ) → Without m (old_head ∷ n ∷ ns) → q2.next m ≡ q.next m)
    → IsOrdered q (busy front old_head (n ∷ ns)) sent log
    → IsOrdered q2 (busy (front ++ old_head ∷ reverse_onto ns []) n []) sent log
unfolding reverse_onto
taken_over q q2 front old_head n ns sent log top data_left links kept (v, o, (mine, apart)) =
    let turned : reverse_onto ns (n ∷ []) ≡ reverse_onto ns [] ++ n ∷ [] =
      reverse_onto-append ns [] (n ∷ []) in
    let linked : Links q2.next (reverse_onto ns [] ++ n ∷ []) 0 =
      subst (λ l. Links q2.next l 0) turned links.1 in
    let order : front ++ old_head ∷ reverse_onto ns (n ∷ [])
        ≡ (front ++ old_head ∷ reverse_onto ns []) ++ n ∷ [] =
      ap (λ l. front ++ old_head ∷ l) turned
      ∙ sym (append_assoc front (old_head ∷ reverse_onto ns []) (n ∷ [])) in
    (
      record {
        top = top ∙ v.top;
        named = (v.named.1.0, tt);
        distinct = (tt, tt);
        links = tt;
        end = Links-last q2.next (reverse_onto ns []) n 0 linked;
      },
      o
          ∙ ap (λ l. sent ++ l)
              (ap (pieces q.data_left) order
                ∙ ap (λ d. pieces d ((front ++ old_head ∷ reverse_onto ns []) ++ n ∷ []))
                    (sym data_left)),
      (
        subst (λ l. Links q2.next l 0)
            (sym (append_assoc front (old_head ∷ reverse_onto ns []) (n ∷ [])))
            (Links-append q2.next front (old_head ∷ (reverse_onto ns [] ++ n ∷ [])) 0
              (Links-same q.next q2.next front old_head (same front apart)
                (Links-front q.next front old_head 0 mine))
              (subst (λ l. Links q2.next (old_head ∷ l) 0) turned links)),
        joined front (old_head ∷ reverse_onto ns []) (before front apart) (
          ((λ e. v.distinct.0.0 e), tt),
          others (reverse_onto ns []) (All-reverse_onto (λ k. k ≢ n) ns [] v.distinct.1.0 tt),
        ),
      ),
    )
  where
    same :
        (xs : List ℕ)
        → All (λ f. Without f (old_head ∷ n ∷ ns)) xs
        → All (λ f. q2.next f ≡ q.next f) xs
    same [] a = tt
    same (x ∷ xs) a = (kept x a.0, same xs a.1)

    before :
        (xs : List ℕ)
        → All (λ f. Without f (old_head ∷ n ∷ ns)) xs
        → All (λ f. Without f (n ∷ [])) xs
    before [] a = tt
    before (x ∷ xs) a = ((a.0.1.0, tt), before xs a.1)

    others : (xs : List ℕ) → All (λ k. k ≢ n) xs → All (λ f. Without f (n ∷ [])) xs
    others [] a = tt
    others (x ∷ xs) a = (((λ e. a.0 (sym e)), tt), others xs a.1)

    joined :
        (xs ys : List ℕ)
        → All (λ f. Without f (n ∷ [])) xs
        → All (λ f. Without f (n ∷ [])) ys
        → All (λ f. Without f (n ∷ [])) (xs ++ ys)
    joined [] ys a b = b
    joined (x ∷ xs) ys a b = (a.0, joined xs ys a.1 b)

completed :
    (q : WriteQueue) (front : List ℕ) (old_head : ℕ) (incoming sent log : List ℕ) (no_more : Bool)
    (tail : ℕ) (q' : WriteQueue) (run : Option (Bool × ℕ × WriteQueue))
    → Completed old_head (no_requests front) incoming q run
    → run ≡ some (no_more, tail, q')
    → IsOrdered q (busy front old_head incoming) sent log
    → IsOrdered q' (resumed no_more front old_head incoming) sent log
completed q front old_head [] sent log no_more tail q' run c e v =
    let same : no_bytes (q.data_left old_head) && no_requests front ≡ no_more = cc in
    let final : record q {
      head = if no_bytes (q.data_left old_head) && no_requests front then 0 else old_head;
    }
        ≡ q' =
      cc in
    let queue : record q { head = if no_more then 0 else old_head } ≡ q' =
      ap (λ b. record q { head = if b then 0 else old_head }) (sym same) ∙ final in
    subst (λ x. IsOrdered x (resumed no_more front old_head []) sent log) queue
      (nothing_new q front old_head sent log no_more same v)
completed q front old_head (n ∷ ns) sent log no_more tail q' run
      (q2, e2, top, data_left, links, kept) e v =
    let same : false ≡ no_more = cc in
    let queue : q2 ≡ q' = cc in
    subst (λ b. IsOrdered q' (resumed b front old_head (n ∷ ns)) sent log) same
      (subst (λ x. IsOrdered x (resumed false front old_head (n ∷ ns)) sent log) queue
        (taken_over q q2 front old_head n ns sent log top data_left links kept v))

Step-IsOrdered :
    {q : WriteQueue} {w : Writer} {s l : List ℕ} {q' : WriteQueue} {w' : Writer} {s' l' : List ℕ}
    → Step q w s l q' w' s' l'
    → IsOrdered q w s l
    → IsOrdered q' w' s' l'
unfolding pieces
Step-IsOrdered (start req bytes q sent log z e) v = started req bytes q sent log z v
Step-IsOrdered (enqueue req bytes q front old_head incoming sent log z f o) v =
    enqueued req bytes q front old_head incoming sent log z f o v
Step-IsOrdered (write data_left bytes q front old_head incoming sent log e a) v =
    written data_left bytes q front old_head incoming sent log e a v
Step-IsOrdered (release req q front old_head incoming sent log e) (v, o, (mine, apart)) = (
  v,
  o ∙ ap (λ l. sent ++ (l ++ pieces q.data_left (requests_of front old_head incoming))) e,
  (mine.1, apart.1),
)
Step-IsOrdered (complete requests q front old_head incoming sent log no_more tail q' h e) v =
    completed q front old_head incoming sent log no_more tail q' _
      (is_write_complete_lem requests old_head (no_requests front) q incoming h v.0) e v

-- From a queue in this order, such as an empty one with nothing sent, through any sequence of publications
-- by any callers, of partial writes, of releases of sent requests and of calls of `is_write_complete`:
-- the bytes that were published are, in the order of publication, those that were sent and then those
-- that the requests have left; the writer's requests, which it goes through by `next`, are linked just in
-- that order, the last of them to null, and those that came after are linked from the newest back
-- to the writer's last; and where no writer is left, all that was published was sent and the queue is
-- empty. It supposes that a write sends the first bytes of the writer's requests and touches no
-- others, and that a request in the queue is not published again.
pub Reach-IsOrdered :
    {q : WriteQueue} {w : Writer} {s l : List ℕ} {q' : WriteQueue} {w' : Writer} {s' l' : List ℕ}
    → IsOrdered q w s l
    → Reach q w s l q' w' s' l'
    → IsOrdered q' w' s' l'
Reach-IsOrdered v here = v
Reach-IsOrdered v (next steps step) = Step-IsOrdered step (Reach-IsOrdered v steps)
