-- ===== src/Endpoint/Tests.antt =====
-- Two sides with queues of 128 and 64, and the theorems applied to them.
use light_rpc.Prelude.{ℕ, ◌≡◌, refl, inl, Bool, true, [], ◌∷◌, replicate, arith}
use light_rpc.Hello.{HelloMessage}
use light_rpc.Endpoint.{
  Flow, SendWr, post_data, is_solicited, release_slots, handle_completion, batch_sent, take_credits,
  htonl_word,
}
use light_rpc.Endpoint.Posting.{batch, acks, signaled_of}
use light_rpc.Endpoint.Windows.{IsWindowed, Reach, send, complete, here, next, Reach-IsWindowed}
use light_rpc.Endpoint.Credits.{take_credits_lem}

abbrev hello_of : ℕ → ℕ → HelloMessage
hello_of sq rq = record {
  magic = 82 ∷ 68 ∷ 77 ∷ 65 ∷ [];
  msg_len = 44;
  hello_ver = 1;
  impl_ver = 1;
  block_size = 8192;
  sq_size = sq;
  rq_size = rq;
  lid = 0;
  gid = replicate 16 0;
  qp_num = 5;
  data_qp_num = 6;
}

abbrev fresh : Flow
fresh = record {
  local_capacity = 0;
  remote_capacity = 0;
  sq_window = 0;
  remote_rq_window = 0;
  sq_imm_window = 3;
  new_rq_wrs = 0;
  sbuf_size = 0;
  sq_current = 0;
  sq_sent = 0;
  rbuf_size = 0;
  rq_received = 0;
  sq_unsignaled = 0;
  unsolicited = 0;
  accumulated_ack = 0;
  remote_recv_block_size = 0;
}

take_credits_lem_example : (take_credits true (htonl_word 40) fresh).0 ≡ fresh
take_credits_lem_example = take_credits_lem 40 true fresh (omega arith) (omega arith)

-- A window of four: every send asks for a completion.
abbrev four_slots : Flow
four_slots = record fresh { local_capacity = 4; sq_window = 4; remote_rq_window = 4; sbuf_size = 4 }

four_slots-IsWindowed : IsWindowed four_slots []
unfolding batch acks
four_slots-IsWindowed = record {
  some_capacity = omega arith;
  fits = omega arith;
  size = omega arith;
  window = refl;
  signaled = omega arith;
  imm_window = refl;
  current = omega arith;
  sent = omega arith;
  ring = inl refl;
}

abbrev post_ok : SendWr → Bool
post_ok wr = true

abbrev slot_ok : ℕ → Bool
slot_ok i = true

abbrev one_sent : Flow
one_sent = record four_slots { sq_window = 3; remote_rq_window = 3; sq_current = 1 }

abbrev one_done : Flow
one_done = record one_sent { sq_window = 4; sq_sent = 1 }

sent_and_done : Reach post_ok slot_ok slot_ok 512 four_slots [] one_done []
unfolding post_data is_solicited handle_completion batch_sent release_slots signaled_of
sent_and_done =
    next (next here (send true four_slots [] (omega arith) (omega arith) refl))
      (complete 1 one_sent [])

Reach-IsWindowed_example : IsWindowed one_done []
Reach-IsWindowed_example =
    Reach-IsWindowed post_ok slot_ok slot_ok 512 four_slots-IsWindowed sent_and_done
