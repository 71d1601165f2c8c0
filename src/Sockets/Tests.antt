-- ===== src/Sockets/Tests.antt =====
-- A hello message sent in two parts and received in three.
use light_rpc.Prelude.{ℕ, ◌≡◌, refl, List, [], ◌∷◌, ◌++◌, some, map, replicate, arith}
use light_rpc.Hello.{HelloMessage, serialize, deserialize}
use light_rpc.Hello.Codec.{IsHello}
use light_rpc.Sockets.{Tick, interrupted, would_block, transfers, done, read_from_fd, write_to_fd}
use light_rpc.Sockets.Exchange.{room, exchange_lem}

abbrev hello : HelloMessage
hello = record {
  magic = 82 ∷ 68 ∷ 77 ∷ 65 ∷ [];
  msg_len = 44;
  hello_ver = 1;
  impl_ver = 1;
  block_size = 8192;
  sq_size = 128;
  rq_size = 128;
  lid = 3;
  gid = replicate 16 1;
  qp_num = 70000;
  data_qp_num = 70001;
}

hello-IsHello : IsHello hello
hello-IsHello = record {
  magic = refl;
  msg_len = omega arith;
  hello_ver = omega arith;
  impl_ver = omega arith;
  block_size = omega arith;
  sq_size = omega arith;
  rq_size = omega arith;
  lid = omega arith;
  gid = refl;
  qp_num = omega arith;
  data_qp_num = omega arith;
}

abbrev sends : List Tick
sends = transfers 19 ∷ would_block ∷ transfers 99 ∷ []

abbrev receives : List Tick
receives = interrupted ∷ transfers 9 ∷ transfers 9 ∷ transfers 99 ∷ []

exchange_lem_example :
    (bytes : List ℕ) × (write_to_fd sends (serialize hello) [] ≡ done [] bytes)
    × (read_from_fd (map some receives) 44 (bytes ++ 1 ∷ 2 ∷ []) ≡ done bytes (1 ∷ 2 ∷ []))
    × (deserialize bytes ≡ hello)
unfolding room
exchange_lem_example =
    exchange_lem hello sends receives (1 ∷ 2 ∷ []) hello-IsHello (tt, (tt, (tt, tt)))
      (tt, (tt, (tt, (tt, tt)))) (omega arith) (omega arith)
