-- ===== src/WriteQueue/Tests.antt =====
-- Two callers, and the queue's theorems applied to them.
use light_rpc.Prelude.{refl, true, [], ◌∷◌, none, some, update, arith}
use light_rpc.WriteQueue.{WriteQueue, publish, connect, is_write_complete}
use light_rpc.WriteQueue.Complete.{IsPending, Completed, is_write_complete_lem}
use light_rpc.WriteQueue.Order.{
  idle, busy, Reach, start, enqueue, here, next, IsOrdered, Reach-IsOrdered,
}

abbrev empty_queue : WriteQueue
empty_queue = record { head = 0; next = λ p. none; data_left = λ p. [] }

-- Request 1 is the writer's, 2 and 3 came after.
abbrev three : WriteQueue
three = record {
  head = 3;
  next = update (update (update (λ p. none) 1 (some 0)) 2 (some 1)) 3 (some 2);
  data_left = λ p. p ∷ [];
}

three-IsPending : IsPending three 1 (3 ∷ 2 ∷ [])
three-IsPending = record {
  top = refl;
  named = (omega arith, (omega arith, (omega arith, tt)));
  distinct = ((omega arith, (omega arith, tt)), ((omega arith, tt), (tt, tt)));
  links = (refl, (refl, tt));
  end = refl;
}

is_write_complete_lem_example :
    Completed 1 true (3 ∷ 2 ∷ []) three (is_write_complete 2 1 true three)
is_write_complete_lem_example =
    is_write_complete_lem 2 1 true three (3 ∷ 2 ∷ []) (omega arith) three-IsPending

abbrev one_request : WriteQueue
one_request = connect 1 0 (publish 1 (7 ∷ 8 ∷ []) empty_queue).1

abbrev two_requests : WriteQueue
two_requests = connect 2 (publish 2 (9 ∷ []) one_request).0 (publish 2 (9 ∷ []) one_request).1

two_callers : Reach empty_queue idle [] [] two_requests (busy [] 1 (2 ∷ [])) [] (7 ∷ 8 ∷ 9 ∷ [])
unfolding publish connect
two_callers =
    next (next here (start 1 (7 ∷ 8 ∷ []) empty_queue [] [] (omega arith) refl))
      (enqueue 2 (9 ∷ []) one_request [] 1 [] [] (7 ∷ 8 ∷ []) (omega arith) tt (omega arith, tt))

Reach-IsOrdered_example : IsOrdered two_requests (busy [] 1 (2 ∷ [])) [] (7 ∷ 8 ∷ 9 ∷ [])
Reach-IsOrdered_example = Reach-IsOrdered (refl, refl) two_callers
