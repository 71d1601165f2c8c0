-- ===== src/Hello.antt =====
-- The handshake message (inc/fast_rdma_endpoint.h, src-endpoint/fast_rdma_endpoint.cc): 44 bytes, in
-- network byte order. Memory is a list of bytes; `memcpy(p, q, n)` reads the first n of them.
pub mod Codec
mod Tests
use light_rpc.Prelude.{
  ℕ, ◌+◌, ◌*◌, ◌/◌, ◌%◌, Bool, not, ◌&&◌, List, [], ◌∷◌, ◌++◌, leb, ◌==◌, take, drop, flatten,
}

pub record HelloMessage : Type 0 where
  pub magic : List ℕ
  pub msg_len : ℕ
  pub hello_ver : ℕ
  pub impl_ver : ℕ
  pub block_size : ℕ
  pub sq_size : ℕ
  pub rq_size : ℕ
  pub lid : ℕ
  pub gid : List ℕ
  pub qp_num : ℕ
  pub data_qp_num : ℕ

abbrev pub hello_ver_1 : ℕ
hello_ver_1 = 1

-- `htons` and `htonl`, as the bytes stored.
abbrev pub htons : ℕ → List ℕ
htons v = v / 256 % 256 ∷ v % 256 ∷ []

abbrev pub htonl : ℕ → List ℕ
htonl v = v / 16777216 % 256 ∷ v / 65536 % 256 ∷ v / 256 % 256 ∷ v % 256 ∷ []

abbrev pub ntohs_at : List ℕ → ℕ
ntohs_at (a ∷ b ∷ rest) = a * 256 + b
ntohs_at rest = 0

abbrev pub ntohl_at : List ℕ → ℕ
ntohl_at (a ∷ b ∷ c ∷ d ∷ rest) = ((a * 256 + b) * 256 + c) * 256 + d
ntohl_at rest = 0

-- The 44 bytes written.
unfoldable pub serialize : HelloMessage → List ℕ
serialize m = flatten (
    take 4 m.magic
    ∷ htons m.msg_len
    ∷ htons m.hello_ver
    ∷ htons m.impl_ver
    ∷ htonl m.block_size
    ∷ htons m.sq_size
    ∷ htons m.rq_size
    ∷ htons m.lid
    ∷ take 16 m.gid
    ∷ htonl m.qp_num
    ∷ htonl m.data_qp_num
    ∷ [])

-- `pos` moves over the bytes read.
unfoldable pub deserialize : List ℕ → HelloMessage
deserialize buf =
    let p0 = drop 4 buf in
    let p1 = drop 2 p0 in
    let p2 = drop 2 p1 in
    let p3 = drop 2 p2 in
    let p4 = drop 4 p3 in
    let p5 = drop 2 p4 in
    let p6 = drop 2 p5 in
    let p7 = drop 2 p6 in
    let p8 = drop 16 p7 in
    let p9 = drop 4 p8 in
    record {
      magic = take 4 buf;
      msg_len = ntohs_at p0;
      hello_ver = ntohs_at p1;
      impl_ver = ntohs_at p2;
      block_size = ntohl_at p3;
      sq_size = ntohs_at p4;
      rq_size = ntohs_at p5;
      lid = ntohs_at p6;
      gid = take 16 p7;
      qp_num = ntohl_at p8;
      data_qp_num = ntohl_at p9;
    }

unfoldable pub hello_negotiation_valid : HelloMessage → Bool
hello_negotiation_valid msg =
    msg.hello_ver == hello_ver_1
    && not (msg.impl_ver == 0)
    && leb 1024 msg.block_size
    && leb 16 msg.sq_size
    && leb 16 msg.rq_size
