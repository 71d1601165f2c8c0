-- ===== src/Rpc/Large/Scatter.antt =====
-- What a large transfer sends of its frame.
use light_rpc.Prelude.{
  ℕ, zero, suc, ◌*◌, ◌≤◌, ◌<◌, ◌≡◌, ◌≢◌, refl, ap, ◌∙◌, Bool, true, false, List, [], ◌∷◌, ◌++◌, map,
  some, ◌==◌, if_false, if_true, All, take, length, length-append, flatten, arith,
}
use light_rpc.Rpc.{msg_threshold}
use light_rpc.Rpc.Large.{
  Segment, LargeWrite, Conn, Env, max_sge, before, scatter_list, post, cut_seg_from_iobuf,
}

-- The bytes of a buffer.
abbrev pub bytes_in : List Segment → List ℕ
bytes_in segs = flatten (map (λ s. s.bytes) segs)

abbrev pub IsRegistered : List Segment → Type 0
IsRegistered segs = All (λ s. s.lkey ≢ 0) segs

pub scatter_list_lem :
    (room : ℕ) (segs : List Segment)
    → IsRegistered segs
    → scatter_list room segs ≡ some (bytes_in (take room segs))
unfolding scatter_list
scatter_list_lem zero segs h = refl
scatter_list_lem (suc room) [] h = refl
scatter_list_lem (suc room) (s ∷ segs) (k, h) =
    let registered : (s.lkey == 0) ≡ false = ground arith in
    if_false _ _ registered ∙ ap (before s.bytes) (scatter_list_lem room segs h)

pub take_within : (n : ℕ) (segs : List Segment) → length segs ≤ n → take n segs ≡ segs
take_within zero [] h = refl
take_within zero (s ∷ segs) h = absurd (omega arith)
take_within (suc n) [] h = refl
take_within (suc n) (s ∷ segs) h = ap (◌∷◌ s) (take_within n segs (omega arith))

-- Short references.
length-bytes_in :
    (n b : ℕ) (segs : List Segment)
    → All (λ s. length s.bytes ≤ b) segs
    → length (bytes_in (take n segs)) ≤ n * b
length-bytes_in zero b segs h = omega arith
length-bytes_in (suc n) b [] h = omega arith
length-bytes_in (suc n) b (s ∷ segs) (k, h) =
    omega (arith, length-append s.bytes (bytes_in (take n segs)), length-bytes_in n b segs h)

-- The one work request of a transfer.
abbrev pub large_write : List Segment → ℕ → ℕ → ℕ → ℕ → LargeWrite
large_write frame rkey addr imm rpc_id = record {
  remote_rkey = rkey;
  remote_addr = addr;
  imm = imm;
  wr_id = rpc_id;
  bytes = bytes_in (take max_sge frame);
}

-- It has the bytes of the frame's first 32 references.
pub cut_seg_from_iobuf_lem :
    (env : Env) (frame : List Segment) (rkey addr imm rpc_id : ℕ) (c : Conn)
    → IsRegistered frame
    → c.failed ≡ false
    → env.post_send (large_write frame rkey addr imm rpc_id) ≡ true
    → cut_seg_from_iobuf env frame rkey addr imm rpc_id c ≡ (
      true,
      record c { large_writes = c.large_writes ++ (large_write frame rkey addr imm rpc_id ∷ []) },
    )
unfolding cut_seg_from_iobuf
cut_seg_from_iobuf_lem env frame rkey addr imm rpc_id c reg alive posts =
    if_false _ _ alive
    ∙ ap (λ o. post env o request c) (scatter_list_lem max_sge frame reg)
    ∙ if_true _ _ posts
  where
    request : List ℕ → LargeWrite
    request bytes = record {
      remote_rkey = rkey;
      remote_addr = addr;
      imm = imm;
      wr_id = rpc_id;
      bytes = bytes;
    }

-- A frame that reaches the threshold of large messages, in references of at most 8192 bytes as the
-- buffer's own blocks make them, loses bytes: the transfer is posted with fewer than the frame has,
-- and nothing reports it.
pub cut_seg-truncates :
    (env : Env) (frame : List Segment) (rkey addr imm rpc_id : ℕ) (c : Conn)
    → All (λ s. length s.bytes ≤ 8192) frame
    → IsRegistered frame
    → msg_threshold ≤ length (bytes_in frame)
    → c.failed ≡ false
    → env.post_send (large_write frame rkey addr imm rpc_id) ≡ true
    → ((cut_seg_from_iobuf env frame rkey addr imm rpc_id c).0 ≡ true)
      × ((cut_seg_from_iobuf env frame rkey addr imm rpc_id c).1.large_writes
          ≡ c.large_writes ++ (large_write frame rkey addr imm rpc_id ∷ []))
      × (length (large_write frame rkey addr imm rpc_id).bytes < length (bytes_in frame))
cut_seg-truncates env frame rkey addr imm rpc_id c short reg large alive posts =
    let sent = cut_seg_from_iobuf_lem env frame rkey addr imm rpc_id c reg alive posts in
    (
      ap (λ (w : Bool × Conn). w.0) sent,
      ap (λ (w : Bool × Conn). w.1.large_writes) sent,
      omega (arith, length-bytes_in max_sge 8192 frame short),
    )
