-- ===== src/Hello/Tests.antt =====
-- A message, its bytes, and the codec's theorems applied to them.
use light_rpc.Prelude.{ℕ, zero, suc, ◌<◌, refl, [], ◌∷◌, All, replicate, arith}
use light_rpc.Hello.{HelloMessage}
use light_rpc.Hello.Codec.{IsHello}

abbrev hello : HelloMessage
hello = record {
  magic = 82 ∷ 68 ∷ 77 ∷ 65 ∷ [];
  msg_len = 44;
  hello_ver = 1;
  impl_ver = 1;
  block_size = 8192;
  sq_size = 128;
  rq_size = 128;
  lid = 7;
  gid = replicate 16 254;
  qp_num = 70000;
  data_qp_num = 0;
}

hello-IsHello : IsHello hello
hello-IsHello = record {
  magic = refl;
  msg_len = omega arith;
  hello_ver = omega arith;
  impl_ver = omega arith;
  block_size = omega arith;
  sq_size = omega arith;
  rq_size = omega arith;
  lid = omega arith;
  gid = refl;
  qp_num = omega arith;
  data_qp_num = omega arith;
}

replicate-bytes : (n x : ℕ) → x < 256 → All (λ y. y < 256) (replicate n x)
replicate-bytes zero x h = tt
replicate-bytes (suc n) x h = (h, replicate-bytes n x h)
