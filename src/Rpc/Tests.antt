-- ===== src/Rpc/Tests.antt =====
-- Runs of a channel and a server.
use light_rpc.Prelude.{
  ℕ, zero, suc, ◌+◌, ◌*◌, ◌≤◌, ◌<◌, ◌≡◌, ◌≢◌, refl, ap, ◌∙◌, ◌-◌, collect_ext, true, false, List,
  [], ◌∷◌, ◌++◌, Option, none, some, All, replicate, length, length-replicate, get_or, collect,
  find, arith, append-nil, length-append,
}
use light_rpc.Rpc.{response_frame, error_frame, err_success, read32}
use light_rpc.Rpc.Large.{Segment, LargeMr, Conn, Env, start_write, on_data_recv}
use light_rpc.Rpc.Large.Scatter.{cut_seg-truncates, bytes_in, large_write}
use light_rpc.Rpc.Service.{
  MetaDataOfRequest, Protobuf, ServiceInfo, server_owns_service, same_name, find_service,
}
use light_rpc.Rpc.Server.{on_process_request, on_normal, send_error_response}
use light_rpc.Rpc.Server.Faults.{on_process_request_reads}
use light_rpc.Rpc.Server.Answers.{Answers, on_normal-Answers}
use light_rpc.Rpc.Pending.{PendingRequest, Channel, new_pending, set_failed, register_pending}
use light_rpc.Rpc.Channel.{on_process_response, complete}
use light_rpc.Rpc.Channel.Responses.{on_process_response-error_frame}
use light_rpc.Rpc.Channel.Settled.{start, after, registers, fails, IsSettled, Reach-IsSettled}
use light_rpc.Rpc.Channel.First.{IsKept, Step-IsKept}
use light_rpc.Rpc.Exchange.{Call, call_lem, Answered}
use light_rpc.Rpc.Transfer.Interleaved.{on_data_recv-interleaved}
use light_rpc.Dispatcher.{ntohl}
use light_rpc.Dispatcher.Frames.{frame, next_frame}
use light_rpc.Rpc.Transfer.{Transferred, transfer_lem}

abbrev two_words : List ℕ → Option MetaDataOfRequest
two_words (id ∷ size ∷ []) =
    some
      (record { rpc_id = id; service_name = 1 ∷ []; method_name = 2 ∷ []; attachment_size = size })
two_words other = none

abbrev plain : Protobuf ℕ ℕ (List ℕ)
plain = record {
  parse_meta = two_words;
  find_method = λ s name. some 7;
  parse_request = λ m l. some l;
}

abbrev as_is : List ℕ → Option (List ℕ)
as_is l = some l

abbrev block : LargeMr
block = record { addr = 4096; rkey = 9 }

abbrev working : Env
working = record { large_block_alloc = λ n. some block; accepts = λ f. true; post_send = λ w. true }

abbrev fresh : Conn
fresh = record {
  failed = false;
  written = [];
  posted = [];
  large_writes = [];
  active = 0;
  large_frames = [];
  large_map = [];
}

abbrev echo : ServiceInfo ℕ
echo = record { ownership = server_owns_service; service = 5 }

abbrev echo_services : List (List ℕ × ServiceInfo ℕ)
echo_services = ((1 ∷ []), echo) ∷ []

abbrev new_channel : Channel (List ℕ)
new_channel = record {
  conn = fresh;
  closed = false;
  rpc_id = 1;
  request_attachment = 8 ∷ 9 ∷ [];
  response_attachment = [];
  connection_error = 0;
  pending_map = [];
}

abbrev waiting : Channel (List ℕ)
waiting = record new_channel { pending_map = (1, new_pending) ∷ [] }

abbrev one_segment : List ℕ → List Segment
one_segment l = record { lkey = 3; bytes = l } ∷ []

abbrev echo_call : Call ℕ ℕ (List ℕ) (List ℕ)
echo_call = record {
  meta = λ id size. id ∷ size ∷ [];
  payload = 4 ∷ 5 ∷ 6 ∷ [];
  service_name = 1 ∷ [];
  method_name = 2 ∷ [];
  info = echo;
  method = 7;
  request = 4 ∷ 5 ∷ 6 ∷ [];
  reply = 4 ∷ 5 ∷ 6 ∷ [];
  reply_attachment = 7 ∷ [];
  response = 4 ∷ 5 ∷ 6 ∷ [];
}

call_lem_example :
    Answered plain as_is working working one_segment echo_call echo_services new_channel fresh
      waiting
unfolding find_service same_name find
call_lem_example =
    call_lem plain as_is working working one_segment echo_call echo_services new_channel fresh
      waiting
      (record {
        meta_read = λ id size. refl;
        service = refl;
        known = refl;
        request_read = refl;
        response_read = refl;
      })
      (record {
        works = refl;
        client_alive = refl;
        server_alive = refl;
        client_accepts = refl;
        server_accepts = refl;
        id = omega arith;
        request_small = omega arith;
        response_small = omega arith;
      })
      refl

-- A header with nothing behind it.
on_process_request_reads_example :
    on_process_request plain working
      (some echo_services)
      fresh
      (0 ∷ 0 ∷ 0 ∷ 12 ∷ 0 ∷ 0 ∷ 0 ∷ 0 ∷ 0 ∷ 0 ∷ 0 ∷ 1 ∷ [])
    ≡ none
on_process_request_reads_example =
    on_process_request_reads plain working echo_services fresh
      (0 ∷ 0 ∷ 0 ∷ 12 ∷ 0 ∷ 0 ∷ 0 ∷ 0 ∷ 0 ∷ 0 ∷ 0 ∷ 1 ∷ []) refl (omega arith)

on_process_response-error_frame_example :
    on_process_response working as_is (error_frame 1 2) waiting
    ≡ some (false, complete 1 (record new_pending { error_code = 2 }) waiting)
unfolding find
on_process_response-error_frame_example =
    on_process_response-error_frame working as_is waiting new_pending 1 2 refl refl
      (λ e. absurd (omega (arith, e))) (omega arith) (omega arith)

Reach-IsSettled_example : IsSettled (set_failed 104 (register_pending 1 new_channel).1)
unfolding find
Reach-IsSettled_example =
    Reach-IsSettled working as_is {ch = new_channel}
      (after (after start (registers 1 refl)) (fails 104))
      (record { failed_error = λ e. cc; calls = λ k. tt })

abbrev answered : PendingRequest (List ℕ)
answered = record new_pending { response = some (4 ∷ []); done = true }

abbrev answered_channel : Channel (List ℕ)
answered_channel = record new_channel { pending_map = (1, answered) ∷ [] }

Step-IsKept_example : IsKept 1 answered (set_failed 104 answered_channel).pending_map
unfolding find
Step-IsKept_example =
    Step-IsKept working as_is {ch = answered_channel} 1 answered (fails 104) refl refl

abbrev bare_request : List ℕ
bare_request = 0 ∷ 0 ∷ 0 ∷ 2 ∷ 1 ∷ 0 ∷ 4 ∷ []

on_normal-Answers_example :
    Answers plain working [] 1 fresh 19 2
      (4 ∷ [])
      (some
        (record { rpc_id = 1; service_name = 1 ∷ []; method_name = 2 ∷ []; attachment_size = 0 }))
      (record {
        returned = false;
        conn = record fresh { written = error_frame 1 1 ∷ [] };
        dispatched = none;
      })
unfolding read32 on_normal send_error_response start_write find_service
on_normal-Answers_example =
    on_normal-Answers plain working [] 1 fresh 19 2 bare_request (1 ∷ 0 ∷ 4 ∷ []) _ refl refl

-- Buffers of more than 2 MB.
zeros : ℕ → List ℕ
zeros n = replicate n 0

length-zeros : (n : ℕ) → length (zeros n) ≡ n
unfolding zeros
length-zeros n = length-replicate n 0

blocks : ℕ → List Segment
blocks n = replicate n (record { lkey = 1; bytes = zeros 8192 })

blocks_short : (n : ℕ) → All (λ s. length s.bytes ≤ 8192) (blocks n)
unfolding blocks
blocks_short zero = tt
blocks_short (suc n) = (omega (arith, length-zeros 8192), blocks_short n)

blocks_registered : (n : ℕ) → All (λ s. s.lkey ≢ 0) (blocks n)
unfolding blocks
blocks_registered zero = tt
blocks_registered (suc n) = (λ e. absurd (omega arith), blocks_registered n)

length-blocks : (n : ℕ) → length (bytes_in (blocks n)) ≡ n * 8192
unfolding blocks
length-blocks zero = refl
length-blocks (suc n) =
    omega
      (arith, length-append (zeros 8192) (bytes_in (blocks n)), length-zeros 8192, length-blocks n)

cut_seg-truncates_example :
    length (large_write (blocks 256) 9 4096 9 1).bytes < length (bytes_in (blocks 256))
cut_seg-truncates_example =
    (cut_seg-truncates working (blocks 256) 9 4096 9 1 fresh (blocks_short 256)
      (blocks_registered 256) (omega (arith, length-blocks 256)) refl refl).2

collect-get_or : (l : List ℕ) → collect (λ i. get_or l i 0) (length l) ≡ l
collect-get_or [] = refl
collect-get_or (x ∷ l) = ap (◌∷◌ x) (collect-get_or l)

abbrev large_reply : List ℕ
large_reply = response_frame 1 err_success (zeros 2097152) []

abbrev written_memory : ℕ → ℕ
written_memory a = get_or (large_reply ++ []) (a - 4096) 0

transfer_lem_example :
    Transferred plain working working echo_services as_is one_segment 1 err_success
      (zeros 2097152)
      []
      block
      fresh
      waiting
      written_memory
unfolding find
transfer_lem_example =
    transfer_lem plain working working echo_services as_is one_segment 1 err_success (zeros 2097152)
      [] block fresh waiting written_memory
      (record {
        buffer = append-nil large_reply;
        registered = ((λ e. absurd (omega arith)), tt);
        few = omega arith;
        large = omega (arith, length-zeros 2097152);
        fits = omega (arith, length-zeros 2097152);
        id = omega arith;
        key = omega arith;
        long = omega arith;
        room = omega arith;
        server_alive = refl;
        server_accepts = refl;
        server_posts = refl;
        client_alive = refl;
        client_accepts = refl;
        new_block = refl;
        block = refl;
        placed =
            collect_ext _ _ _ (λ i h. ap (λ k. get_or (large_reply ++ []) k 0) (shifted i))
            ∙ collect-get_or (large_reply ++ []);
      })
  where
    shifted : (i : ℕ) → 4096 + i - 4096 ≡ i
    shifted i = omega arith

abbrev granted : Conn
granted = record fresh { large_map = (9, block) ∷ [] }

on_data_recv-interleaved_example :
    next_frame ((on_data_recv 9 16 (λ a. 7) (0 ∷ 0 ∷ 0 ∷ 12 ∷ 1 ∷ []) granted).0 ++ replicate 7 5)
    ≡ frame (0 ∷ 0 ∷ 0 ∷ 12 ∷ 1 ∷ replicate 7 7) (replicate 9 7 ++ replicate 7 5)
unfolding find ntohl
on_data_recv-interleaved_example =
    on_data_recv-interleaved (0 ∷ 0 ∷ 0 ∷ 12 ∷ 1 ∷ []) (replicate 7 5) block 9 16 (λ a. 7) granted
      refl (omega arith) (omega arith) (omega arith) refl
