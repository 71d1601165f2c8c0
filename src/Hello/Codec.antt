-- ===== src/Hello/Codec.antt =====
-- Round trips of the handshake message.
use light_rpc.Prelude.{
  flatten, append-nil, ℕ, zero, suc, ◌+◌, ◌*◌, ◌/◌, ◌%◌, ◌^◌, ◌≤◌, ◌<◌, ◌≡◌, refl, ap, ap₂, ◌∙◌,
  List, [], ◌∷◌, ◌++◌, All, take, drop, length, length-append, length-drop, length-take,
  take-append-drop, arith,
}
use light_rpc.IoBuf.Cut.Lists.{take-append_within, drop-append_within, take_all, drop_all}
use light_rpc.Hello.{HelloMessage, htons, htonl, ntohs_at, ntohl_at, serialize, deserialize}

-- The fields have the widths of the struct.
pub record IsHello (m : HelloMessage) : Type 0 where
  pub magic : length m.magic ≡ 4
  pub msg_len : m.msg_len < 2 ^ 16
  pub hello_ver : m.hello_ver < 2 ^ 16
  pub impl_ver : m.impl_ver < 2 ^ 16
  pub block_size : m.block_size < 2 ^ 32
  pub sq_size : m.sq_size < 2 ^ 16
  pub rq_size : m.rq_size < 2 ^ 16
  pub lid : m.lid < 2 ^ 16
  pub gid : length m.gid ≡ 16
  pub qp_num : m.qp_num < 2 ^ 32
  pub data_qp_num : m.data_qp_num < 2 ^ 32

ntohs-htons : (v : ℕ) → v < 2 ^ 16 → v / 256 % 256 * 256 + v % 256 ≡ v
ntohs-htons v h = omega arith

ntohl-htonl :
    (v : ℕ)
    → v < 2 ^ 32
    → ((v / 16777216 % 256 * 256 + v / 65536 % 256) * 256 + v / 256 % 256) * 256 + v % 256 ≡ v
ntohl-htonl v h = omega arith

pub take_exact : (n : ℕ) (xs ys : List ℕ) → length xs ≡ n → take n (xs ++ ys) ≡ xs
take_exact n xs ys e = take-append_within xs ys n (omega arith) ∙ take_all xs n (omega arith)

pub drop_exact : (n : ℕ) (xs ys : List ℕ) → length xs ≡ n → drop n (xs ++ ys) ≡ ys
drop_exact n xs ys e =
    drop-append_within xs ys n (omega arith) ∙ ap (λ l. l ++ ys) (drop_all xs n (omega arith))

-- What stands behind the magic, and behind the gid.
abbrev after_gid : HelloMessage → List ℕ
after_gid m = flatten (htonl m.qp_num ∷ htonl m.data_qp_num ∷ [])

abbrev after_magic : HelloMessage → List ℕ
after_magic m = flatten (
    htons m.msg_len
    ∷ htons m.hello_ver
    ∷ htons m.impl_ver
    ∷ htonl m.block_size
    ∷ htons m.sq_size
    ∷ htons m.rq_size
    ∷ htons m.lid
    ∷ m.gid
    ∷ htonl m.qp_num
    ∷ htonl m.data_qp_num
    ∷ [])

-- `Deserialize` reads back what `Serialize` wrote, for a message whose fields fit the struct.
pub deserialize-serialize : (m : HelloMessage) → IsHello m → deserialize (serialize m) ≡ m
unfolding deserialize serialize
deserialize-serialize m v =
    rw
      (
        take_all m.magic 4 (omega (arith, v.magic)),
        take_all m.gid 16 (omega (arith, v.gid)),
        take_exact 4 m.magic (after_magic m) v.magic,
        drop_exact 4 m.magic (after_magic m) v.magic,
        take_exact 16 m.gid (after_gid m) v.gid,
        drop_exact 16 m.gid (after_gid m) v.gid,
        ntohs-htons m.msg_len v.msg_len,
        ntohs-htons m.hello_ver v.hello_ver,
        ntohs-htons m.impl_ver v.impl_ver,
        ntohl-htonl m.block_size v.block_size,
        ntohs-htons m.sq_size v.sq_size,
        ntohs-htons m.rq_size v.rq_size,
        ntohs-htons m.lid v.lid,
        ntohl-htonl m.qp_num v.qp_num,
        ntohl-htonl m.data_qp_num v.data_qp_num,
      )
      refl

-- `Serialize` writes 44 bytes, for a message whose magic and gid have 4 and 16.
pub length-serialize :
    (m : HelloMessage) → length m.magic ≡ 4 → length m.gid ≡ 16 → length (serialize m) ≡ 44
unfolding serialize
length-serialize m four sixteen =
    rw (take_all m.magic 4 (omega (arith, four)), take_all m.gid 16 (omega (arith, sixteen)))
      (omega (
        arith,
        length-append m.magic (after_magic m),
        length-append m.gid (after_gid m),
        four,
        sixteen,
      ))

All-drop : (n : ℕ) (l : List ℕ) → All (λ x. x < 256) l → All (λ x. x < 256) (drop n l)
All-drop zero l a = a
All-drop (suc n) [] a = tt
All-drop (suc n) (x ∷ l) a = All-drop n l a.1

-- A part that was read and written back, with what is read behind it.
read_part : (n : ℕ) (l xs r : List ℕ) → xs ≡ take n l → r ≡ drop n l → xs ++ r ≡ l
read_part n l xs r e f = ap₂ ◌++◌ e f ∙ take-append-drop n l

htons-ntohs : (l : List ℕ) → 2 ≤ length l → All (λ x. x < 256) l → htons (ntohs_at l) ≡ take 2 l
htons-ntohs [] h a = absurd (omega arith)
htons-ntohs (x ∷ []) h a = absurd (omega arith)
htons-ntohs (x ∷ y ∷ l) h (a, (b, c)) =
    let high : (x * 256 + y) / 256 % 256 ≡ x = omega arith in
    let low : (x * 256 + y) % 256 ≡ y = omega arith in rw (high, low) refl

htonl-ntohl : (l : List ℕ) → 4 ≤ length l → All (λ x. x < 256) l → htonl (ntohl_at l) ≡ take 4 l
htonl-ntohl [] h a = absurd (omega arith)
htonl-ntohl (x ∷ []) h a = absurd (omega arith)
htonl-ntohl (x ∷ y ∷ []) h a = absurd (omega arith)
htonl-ntohl (x ∷ y ∷ z ∷ []) h a = absurd (omega arith)
htonl-ntohl (x ∷ y ∷ z ∷ w ∷ l) h (a, (b, (c, (d, e)))) =
    let b3 : (((x * 256 + y) * 256 + z) * 256 + w) / 16777216 % 256 ≡ x = omega arith in
    let b2 : (((x * 256 + y) * 256 + z) * 256 + w) / 65536 % 256 ≡ y = omega arith in
    let b1 : (((x * 256 + y) * 256 + z) * 256 + w) / 256 % 256 ≡ z = omega arith in
    let b0 : (((x * 256 + y) * 256 + z) * 256 + w) % 256 ≡ w = omega arith in
    rw (b3, b2, b1, b0) refl

-- The bytes that are left, all of them bytes.
record Left (n : ℕ) (l : List ℕ) : Type 0 where
  size : length l ≡ n
  bytes : All (λ x. x < 256) l

Left-drop : (n k : ℕ) (l : List ℕ) → Left (n + k) l → Left k (drop n l)
Left-drop n k l h = record {
  size = omega (arith, h.size, length-drop n l);
  bytes = All-drop n l h.bytes;
}

-- Any 44 bytes are what `Serialize` writes of the message that `Deserialize` reads from them, so that
-- no two byte strings stand for the same message.
pub serialize-deserialize :
    (buf : List ℕ) → length buf ≡ 44 → All (λ x. x < 256) buf → serialize (deserialize buf) ≡ buf
unfolding deserialize serialize
serialize-deserialize buf size bytes =
    let l0 : Left 40 (drop 4 buf) = Left-drop 4 40 buf (record { size = size; bytes = bytes }) in
    let l1 = Left-drop 2 38 _ l0 in
    let l2 = Left-drop 2 36 _ l1 in
    let l3 = Left-drop 2 34 _ l2 in
    let l4 = Left-drop 4 30 _ l3 in
    let l5 = Left-drop 2 28 _ l4 in
    let l6 = Left-drop 2 26 _ l5 in
    let l7 = Left-drop 2 24 _ l6 in
    let l8 = Left-drop 16 8 _ l7 in
    let l9 = Left-drop 4 4 _ l8 in
    read_part 4 buf _ _ (take-take 4 buf) (
      read_part 2 _ _ _ (from16 38 l0) (
        read_part 2 _ _ _ (from16 36 l1) (
          read_part 2 _ _ _ (from16 34 l2) (
            read_part 4 _ _ _ (from32 30 l3) (
              read_part 2 _ _ _ (from16 28 l4) (
                read_part 2 _ _ _ (from16 26 l5) (
                  read_part 2 _ _ _ (from16 24 l6) (
                    read_part 16 _ _ _ (take-take 16 _) (
                      read_part 4 _ _ _ (from32 4 l8) (
                        append-nil _ ∙ from32 0 l9 ∙ take_all _ 4 (omega (arith, l9.size))))))))))))
  where
    take-take : (n : ℕ) (l : List ℕ) → take n (take n l) ≡ take n l
    take-take n l = take_all (take n l) n (omega (arith, length-take n l))

    from16 : (k : ℕ) {l : List ℕ} → Left (2 + k) l → htons (ntohs_at l) ≡ take 2 l
    from16 k {l} h = htons-ntohs l (omega (arith, h.size)) h.bytes

    from32 : (k : ℕ) {l : List ℕ} → Left (4 + k) l → htonl (ntohl_at l) ≡ take 4 l
    from32 k {l} h = htonl-ntohl l (omega (arith, h.size)) h.bytes
