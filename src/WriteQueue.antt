-- ===== src/WriteQueue.antt =====
-- The queue of write requests of an endpoint (src-endpoint/fast_rdma_endpoint.cc, inc/fast_rdma_endpoint.h).
-- A request is an address; `next` is none for UNCONNECTED and 0 for the null pointer, `data` has the
-- bytes of a request that are not sent. Producers put requests at the head, the one that found the
-- queue empty writes until `is_write_complete` gives the right to write back.
pub mod Chains
pub mod Complete
pub mod Order
mod Tests
use light_rpc.Prelude.{
  ℕ, zero, suc, ◌+◌, Bool, true, false, not, ◌&&◌, List, [], ◌∷◌, Option, none, some, length, ◌==◌,
  if◌then◌else◌, update,
}

pub record WriteQueue : Type 0 where
  pub head : ℕ
  pub next : ℕ → Option ℕ
  pub data_left : ℕ → List ℕ

-- The first part of StartWrite: the fields of the request, and the exchange of the head. The result
-- is the head before.
unfoldable pub publish : ℕ → List ℕ → WriteQueue → ℕ × WriteQueue
publish req bytes q = (
  q.head,
  record { head = req; next = update q.next req none; data_left = update q.data_left req bytes },
)

-- `req->next = prev`, which is null for the request that is to write.
unfoldable pub connect : ℕ → ℕ → WriteQueue → WriteQueue
connect req prev q = record q { next = update q.next req (some prev) }

abbrev pub no_bytes : List ℕ → Bool
no_bytes [] = true
no_bytes (x ∷ xs) = false

abbrev pub follow : Option ℕ → (ℕ → Option (ℕ × (ℕ → Option ℕ))) → Option (ℕ × (ℕ → Option ℕ))
follow none next = none
follow (some p) next = next p

-- The new requests are turned round, up to the old head. `none` where one is still UNCONNECTED, which
-- the code waits for, or where a CHECK fails. The result is the tail and the links.
unfoldable pub reverse_links : ℕ → ℕ → ℕ → ℕ → (ℕ → Option ℕ) → Option (ℕ × (ℕ → Option ℕ))
reverse_links zero old_head p tail next = none
reverse_links (suc fuel) old_head p tail next = follow (next p) (λ saved.
    let rest = reverse_links fuel old_head saved p (update next p (some tail)) in
    if saved == 0
    then none
    else if saved == old_head
    then some (p, update next p (some tail))
    else rest)

abbrev pub with_new : ℕ → WriteQueue → Option (ℕ × (ℕ → Option ℕ)) → Option (Bool × ℕ × WriteQueue)
with_new old_head q none = none
with_new old_head q (some (tail, next)) =
    some (false, q.head, record q { next = update next old_head (some tail) })

-- Whether the writer is done, the new tail, and the queue; `requests` bounds the walk.
unfoldable pub is_write_complete : ℕ → ℕ → Bool → WriteQueue → Option (Bool × ℕ × WriteQueue)
is_write_complete requests old_head singular q =
    let no_more = no_bytes (q.data_left old_head) && singular in
    let desired = if no_more then 0 else old_head in
    if q.head == old_head
    then some (no_more, old_head, record q { head = desired })
    else with_new old_head q (reverse_links requests old_head q.head 0 q.next)
