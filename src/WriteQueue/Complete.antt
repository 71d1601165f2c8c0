-- ===== src/WriteQueue/Complete.antt =====
-- What `is_write_complete` does to the queue.
use light_rpc.Prelude.{
  ℕ, ◌≤◌, ◌≡◌, ◌≢◌, refl, sym, ap, ◌∙◌, Bool, true, false, ◌&&◌, List, [], ◌∷◌, Option, some,
  length, ◌==◌, if◌then◌else◌, update, arith,
}
use light_rpc.WriteQueue.{WriteQueue, no_bytes, reverse_links, with_new, is_write_complete}
use light_rpc.WriteQueue.Chains.{
  first, Links, Without, Distinct, reverse_onto, update_same, update_other, Links-update,
  All-reverse_onto, reverse_links_lem,
}

-- The writer has requests up to `old_head`; those in `incoming`, the newest first, came after.
pub record IsPending (q : WriteQueue) (old_head : ℕ) (incoming : List ℕ) : Type 0 where
  pub top : q.head ≡ first incoming old_head
  pub named : Without 0 (old_head ∷ incoming)
  pub distinct : Distinct (old_head ∷ incoming)
  pub links : Links q.next incoming old_head
  pub end : q.next old_head ≡ some 0

abbrev pub Completed : ℕ → Bool → List ℕ → WriteQueue → Option (Bool × ℕ × WriteQueue) → Type 0
Completed old_head singular [] q run =
    let no_more = no_bytes (q.data_left old_head) && singular in
    run ≡ some (no_more, old_head, record q { head = if no_more then 0 else old_head })
Completed old_head singular (n ∷ ns) q run =
    (q' : WriteQueue) × (run ≡ some (false, n, q'))
    × (q'.head ≡ q.head)
    × (q'.data_left ≡ q.data_left)
    × Links q'.next (old_head ∷ reverse_onto (n ∷ ns) []) 0
    × ((m : ℕ) → Without m (old_head ∷ n ∷ ns) → q'.next m ≡ q.next m)

-- Where every request that was published is linked, the call returns. With no request after the
-- writer's last, the writer is done if that one is sent and alone, and the queue is empty then;
-- otherwise it stays the head. With others, the writer goes on: behind its last request stand the new
-- ones, linked in the order they were published, no byte of a request is lost, and no other request
-- is linked anew.
pub is_write_complete_lem :
    (requests old_head : ℕ) (singular : Bool) (q : WriteQueue) (incoming : List ℕ)
    → length incoming ≤ requests
    → IsPending q old_head incoming
    → Completed old_head singular incoming q (is_write_complete requests old_head singular q)
unfolding is_write_complete reverse_onto
is_write_complete_lem requests old_head singular q [] h v =
    let same : (q.head == old_head) ≡ true = ground (arith, v.top) in rw same refl
is_write_complete_lem requests old_head singular q (n ∷ ns) h v =
    let moved : (q.head == old_head) ≡ false = ground (arith, v.top, v.distinct.0.0) in
    let (tail, next, run, start, links, kept) =
      reverse_links_lem requests old_head n ns [] q.next (omega arith) v.named.1 v.distinct.0
        v.named.0 v.distinct.1 tt v.links tt in
    let q' = record q { next = update next old_head (some tail) } in
    let apart = All-reverse_onto (λ m. m ≢ old_head) (n ∷ ns) [] v.distinct.0 tt in
    rw moved (
      q',
      ap (λ p. with_new old_head q (reverse_links requests old_head p 0 q.next)) v.top
          ∙ ap (with_new old_head q) run
          ∙ ap (λ p. some (false, p, q')) v.top,
      refl,
      refl,
      (
        update_same next old_head (some tail) ∙ ap some start,
        Links-update next (reverse_onto (n ∷ ns) []) 0 old_head (some tail) apart links,
      ),
      λ m w. update_other next old_head m (some tail) (λ e. w.0 (sym e)) ∙ kept m w.1,
    )
