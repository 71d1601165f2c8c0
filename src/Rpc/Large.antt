-- ===== src/Rpc/Large.antt =====
-- The endpoint as the messages see it: the frames given to StartWrite, and the large transfers
-- (src-endpoint/fast_rdma_endpoint.cc, inc/fast_rdma_endpoint.h). LargeBlockAlloc, ibv_post_send and
-- what StartWrite answers on an endpoint that has not failed are arguments.
pub mod Alive
pub mod Scatter
use light_rpc.Prelude.{
  ℕ, zero, suc, ◌+◌, ◌^◌, Bool, true, false, ◌||◌, ◌&&◌, not, List, [], ◌∷◌, ◌++◌, Option, none,
  some, ltb, leb, ◌==◌, if◌then◌else◌, find, erase, insert, collect,
}
use light_rpc.Prelude.Bits.{add32, sub32}
use light_rpc.Rpc.{auth_frame}

-- What is used of an `ibv_mr`.
pub record LargeMr : Type 0 where
  pub addr : ℕ
  pub rkey : ℕ

-- A reference of a buffer: the key of its block's region, 0 outside of the pool, and its bytes.
pub record Segment : Type 0 where
  pub lkey : ℕ
  pub bytes : List ℕ

-- RDMA_WRITE_WITH_IMM
pub record LargeWrite : Type 0 where
  pub remote_rkey : ℕ
  pub remote_addr : ℕ
  pub imm : ℕ
  pub wr_id : ℕ
  pub bytes : List ℕ

-- `written`, `posted` and `large_writes` have what was handed over so far, the latest last.
pub record Conn : Type 0 where
  pub failed : Bool
  pub written : List (List ℕ)
  pub posted : List LargeMr
  pub large_writes : List LargeWrite
  pub active : ℕ
  pub large_frames : List (ℕ × List Segment)
  pub large_map : List (ℕ × LargeMr)

pub record Env : Type 0 where
  pub large_block_alloc : ℕ → Option LargeMr
  pub accepts : List ℕ → Bool
  pub post_send : LargeWrite → Bool

abbrev pub max_sge : ℕ
max_sge = 32

-- `active_large_transfers_` is an `int`.
unfoldable pub can_start_large_transfer : Conn → Bool
can_start_large_transfer c = ltb c.active 8 || leb (2 ^ 31) c.active

unfoldable pub start_large_transfer : Conn → Conn
start_large_transfer c = record c { active = add32 c.active 1 }

unfoldable pub on_large_transfer_complete : Conn → Conn
on_large_transfer_complete c = record c { active = sub32 c.active 1 }

unfoldable pub store_large_frame : ℕ → List Segment → Conn → Conn
store_large_frame rpc_id frame c = record c { large_frames = insert rpc_id frame c.large_frames }

unfoldable pub get_large_frame : ℕ → Conn → Option (List Segment)
get_large_frame rpc_id c = find rpc_id c.large_frames

unfoldable pub release_large_frame : ℕ → Conn → Conn
release_large_frame rpc_id c = record c { large_frames = erase rpc_id c.large_frames }

abbrev pub before : List ℕ → Option (List ℕ) → Option (List ℕ)
before xs none = none
before xs (some ys) = some (xs ++ ys)

-- The scatter list of at most `room` references; none where one has no region.
unfoldable pub scatter_list : ℕ → List Segment → Option (List ℕ)
scatter_list zero segs = some []
scatter_list (suc room) [] = some []
scatter_list (suc room) (s ∷ segs) =
    let rest = before s.bytes (scatter_list room segs) in if s.lkey == 0 then none else rest

module _ (env : Env) where
  unfoldable pub start_write : List ℕ → Conn → Bool × Conn
  start_write frame c =
      if not c.failed && env.accepts frame
      then (true, record c { written = c.written ++ (frame ∷ []) })
      else (false, c)

  unfoldable pub post_large_write_recv : LargeMr → Conn → Conn
  post_large_write_recv mr c = if c.failed then c else record c { posted = c.posted ++ (mr ∷ []) }

  abbrev pub post : Option (List ℕ) → (List ℕ → LargeWrite) → Conn → Bool × Conn
  post none wr c = (false, c)
  post (some bytes) wr c =
      if env.post_send (wr bytes)
      then (true, record c { large_writes = c.large_writes ++ (wr bytes ∷ []) })
      else (false, c)

  -- `true` where the total is returned, `false` for -1.
  unfoldable pub cut_seg_from_iobuf : List Segment → ℕ → ℕ → ℕ → ℕ → Conn → Bool × Conn
  cut_seg_from_iobuf buf remote_rkey remote_addr imm_rkey rpc_id c =
      if c.failed
      then (false, c)
      else post (scatter_list max_sge buf)
          (λ bytes. record {
            remote_rkey = remote_rkey;
            remote_addr = remote_addr;
            imm = imm_rkey;
            wr_id = rpc_id;
            bytes = bytes;
          })
          c

  -- The first part of what both handlers do on MSG_NOTIFY: the block is posted, MSG_AUTHORITY sent.
  abbrev pub send_authority : LargeMr → ℕ → Conn → Conn
  send_authority mr rpc_id c =
      (start_write (auth_frame rpc_id mr.rkey mr.addr) (post_large_write_recv mr c)).1

  -- The second part, under the lock: the block is entered in pending_large_map_.
  abbrev pub enter_block : LargeMr → Conn → Conn
  enter_block mr c = record c { large_map = insert mr.rkey mr c.large_map }

  -- Both parts, where nothing comes between them, and what the handlers return.
  abbrev pub permit : Option LargeMr → ℕ → Conn → Bool × Conn
  permit none rpc_id c = (false, c)
  permit (some mr) rpc_id c = (true, enter_block mr (send_authority mr rpc_id c))

  unfoldable pub on_notify : ℕ → ℕ → Conn → Bool × Conn
  unfolding start_write post_large_write_recv
  on_notify rpc_id data_total_len c = permit (env.large_block_alloc data_total_len) rpc_id c

  abbrev pub after_post : ℕ → Bool × Conn → Bool × Conn
  after_post rpc_id (true, c) = (true, c)
  after_post rpc_id (false, c) = (false, on_large_transfer_complete (release_large_frame rpc_id c))

  abbrev pub transfer : Option (List Segment) → ℕ → ℕ → ℕ → Conn → Bool × Conn
  transfer none rpc_id rkey addr c = (false, c)
  transfer (some frame) rpc_id rkey addr c =
      after_post rpc_id (cut_seg_from_iobuf frame rkey addr rkey rpc_id c)

  -- What both handlers do on MSG_AUTHORITY.
  unfoldable pub on_authority : ℕ → ℕ → ℕ → Conn → Bool × Conn
  unfolding cut_seg_from_iobuf on_large_transfer_complete release_large_frame get_large_frame
  on_authority rpc_id rkey remote_addr c =
      transfer (get_large_frame rpc_id c) rpc_id rkey remote_addr c

-- The completions that PollCq takes of the data queue pair. `memory` has the bytes at each address
-- when the completion is taken, `read_buf` those that are to be dispatched.
abbrev pub receive : Option LargeMr → ℕ → ℕ → (ℕ → ℕ) → List ℕ → Conn → List ℕ × Conn
receive none rkey byte_len memory read_buf c = (read_buf, c)
receive (some mr) rkey byte_len memory read_buf c = (
  read_buf ++ collect (λ i. memory (mr.addr + i)) byte_len,
  record c { large_map = erase rkey c.large_map },
)

unfoldable pub on_data_recv : ℕ → ℕ → (ℕ → ℕ) → List ℕ → Conn → List ℕ × Conn
on_data_recv rkey byte_len memory read_buf c =
    receive (find rkey c.large_map) rkey byte_len memory read_buf c

unfoldable pub on_data_send : ℕ → Conn → Conn
unfolding on_large_transfer_complete release_large_frame
on_data_send rpc_id c = on_large_transfer_complete (release_large_frame rpc_id c)
