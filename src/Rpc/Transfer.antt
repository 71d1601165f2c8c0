-- ===== src/Rpc/Transfer.antt =====
-- A large response from the server to the channel: MSG_NOTIFY, MSG_AUTHORITY, the write and its
-- completions (src-endpoint/fast_server.cc, src-endpoint/fast_channel.cc,
-- src-endpoint/fast_rdma_endpoint.cc).
mod Messages
pub mod Interleaved
use light_rpc.Prelude.{
  ℕ, zero, suc, ◌+◌, ◌*◌, ◌/◌, ◌%◌, ◌^◌, ◌≤◌, ◌<◌, ◌≡◌, ◌≢◌, refl, ap, ◌∙◌, Bool, true, false, List,
  [], ◌∷◌, ◌++◌, Option, none, some, ◌==◌, if_false, if_true, if◌then◌else◌, All, take, length,
  flatten, collect, find, erase, insert, find-insert, find-erase, arith,
}
use light_rpc.Prelude.Bits.{add32, sub32}
use light_rpc.Hello.{htonl}
use light_rpc.Rpc.{
  msg_notify, msg_authority, msg_threshold, notify_frame, auth_frame, response_frame, response_len,
}
use light_rpc.Rpc.Words.{bind-htonl, read32-htonl}
use light_rpc.Rpc.Large.{
  Segment, LargeMr, LargeWrite, Conn, Env, on_notify, permit, send_authority, on_authority,
  transfer, after_post, cut_seg_from_iobuf, receive, on_data_recv, on_data_send,
  post_large_write_recv, start_write, get_large_frame, on_large_transfer_complete,
  release_large_frame, can_start_large_transfer, start_large_transfer, store_large_frame, max_sge,
}
use light_rpc.Rpc.Large.Scatter.{
  bytes_in, IsRegistered, large_write, cut_seg_from_iobuf_lem, take_within,
}
use light_rpc.Rpc.Service.{Protobuf, ServiceInfo}
use light_rpc.Rpc.Server.{
  Handled, only, on_process_request, return_rpc_response, wait_for_large_writable, notify,
}
use light_rpc.Rpc.Server.Replies.{return_rpc_response_large, announced}
use light_rpc.Dispatcher.Frames.{frame, next_frame}
use light_rpc.Rpc.Framing.{length-response_frame, next_frame-response_frame}
use light_rpc.Rpc.Server.Faults.{on_process_request_alive}
use light_rpc.Rpc.Pending.{Channel}
use light_rpc.Rpc.Channel.{with_conn, on_process_response}
use light_rpc.Rpc.Channel.Calls.{start_write_lem}
use Messages.{
  send_authority-large_map, permitted, on_notify_lem, on_authority_lem,
  on_process_response-notify_frame, on_process_request-auth_frame,
}

module _ {S M R Response : Type 0} (proto : Protobuf S M R) (server client : Env)
    (services : List (List ℕ × ServiceInfo S)) (parse_response : List ℕ → Option Response)
    (segments : List ℕ → List Segment) (rpc_id error_code : ℕ) (payload attachment : List ℕ)
    (mr : LargeMr) (c : Conn) (ch : Channel Response) where
  abbrev pub reply : List ℕ
  reply = response_frame rpc_id error_code payload attachment

  abbrev pub reply_write : LargeWrite
  reply_write = large_write (segments reply) mr.rkey mr.addr mr.rkey rpc_id

  -- The server after it announced the response, and after it wrote it.
  abbrev pub announces_in : Conn
  announces_in = announced segments rpc_id error_code payload attachment c

  abbrev pub written : Conn
  written = record announces_in { large_writes = c.large_writes ++ (reply_write ∷ []) }

  -- A large response in at most 32 references of registered blocks; both ends work, fewer than eight
  -- transfers are on their way, the client has a block for it, and where the write is done the
  -- block holds its bytes.
  pub record IsReady (memory : ℕ → ℕ) : Type 0 where
    pub buffer : bytes_in (segments reply) ≡ reply
    pub registered : IsRegistered (segments reply)
    pub few : length (segments reply) ≤ max_sge
    pub large : msg_threshold ≤ 20 + length payload + length attachment
    pub fits : 20 + length payload + length attachment < 2 ^ 32
    pub id : rpc_id < 2 ^ 32
    pub key : mr.rkey < 2 ^ 32
    pub long : mr.addr < 2 ^ 64
    pub room : c.active < 8
    pub server_alive : c.failed ≡ false
    pub server_accepts : server.accepts (notify_frame rpc_id (length reply)) ≡ true
    pub server_posts : server.post_send reply_write ≡ true
    pub client_alive : ch.conn.failed ≡ false
    pub client_accepts : client.accepts (auth_frame rpc_id mr.rkey mr.addr) ≡ true
    pub new_block : find mr.rkey ch.conn.large_map ≡ none
    pub block : client.large_block_alloc (length reply) ≡ some mr
    pub placed :
        collect (λ i. memory (reply_write.remote_addr + i)) (length reply_write.bytes)
        ≡ reply_write.bytes

  pub record Transferred (memory : ℕ → ℕ) : Type 0 where
    pub announces :
        return_rpc_response server segments
          (λ s. (false, s) ∷ [])
          rpc_id
          error_code
          payload
          attachment
          c
        ≡ some announces_in
    pub permits :
        on_process_response client parse_response (notify_frame rpc_id (length reply)) ch
        ≡ some (true, record ch { conn = permitted rpc_id mr ch.conn })
    pub writes :
        on_process_request proto server
          (some services)
          announces_in
          (auth_frame rpc_id mr.rkey mr.addr)
        ≡ some (only (true, written))
    pub receives :
        (read_buf : List ℕ)
        → (on_data_recv mr.rkey
            (length reply_write.bytes)
            memory
            read_buf
            (permitted rpc_id mr ch.conn)).0
          ≡ read_buf ++ reply
    pub early :
        (read_buf : List ℕ)
        → (on_data_recv mr.rkey
            (length reply_write.bytes)
            memory
            read_buf
            (send_authority client mr rpc_id ch.conn)).0
          ≡ read_buf
    pub cut :
        (rest : List ℕ)
        → next_frame (
            (on_data_recv mr.rkey
              (length reply_write.bytes)
              memory
              []
              (permitted rpc_id mr ch.conn)).0
            ++ rest)
          ≡ frame reply rest
    pub ends : (on_data_send rpc_id written).active ≡ c.active
    pub released : find rpc_id (on_data_send rpc_id written).large_frames ≡ none

  -- A response of 2 MB or more whose buffer has at most 32 references, all of registered blocks, where
  -- both ends work, fewer than eight transfers are on their way, the client has a block, and the block holds
  -- the written bytes at the completion: ReturnRPCResponse stores the frame and queues MSG_NOTIFY; the client
  -- posts the block, answers MSG_AUTHORITY with its address and then enters the block, whose key was not
  -- there; OnProcessRequest writes the frame there. A completion that comes once the block is entered
  -- appends just the frame's bytes to what the client has read; where that is nothing, the frame is
  -- cut out whole, whatever is received behind it. A completion that comes between MSG_AUTHORITY and
  -- the entry appends nothing. The server's completion releases the frame and ends the
  -- transfer's count.
  pub transfer_lem : (memory : ℕ → ℕ) → IsReady memory → Transferred memory
  unfolding on_data_recv on_data_send on_large_transfer_complete release_large_frame
  transfer_lem memory v =
      let size = length-response_frame rpc_id error_code payload attachment in
      let same : (rpc_id == rpc_id) ≡ true = ground arith in
      let same_key : (mr.rkey == mr.rkey) ≡ true = ground arith in
      let whole : reply_write.bytes ≡ reply =
        ap bytes_in (take_within max_sge (segments reply) v.few) ∙ v.buffer in
      let arrives = λ (read_buf : List ℕ).
        ap
          (λ o.
            (receive o mr.rkey (length reply_write.bytes) memory read_buf
              (permitted rpc_id mr ch.conn)).0)
          (find-insert mr.rkey mr.rkey _ _ ∙ if_true _ _ same_key)
        ∙ ap (λ l. read_buf ++ l) (v.placed ∙ whole) in
      record {
        announces =
            return_rpc_response_large server segments rpc_id error_code payload attachment c v.large
              v.fits v.room v.server_alive v.server_accepts;
        permits =
            on_process_response-notify_frame client parse_response rpc_id (length reply) ch v.id
              (omega (arith, v.fits, size))
            ∙ ap (λ w. some (with_conn client parse_response w ch))
                (on_notify_lem client rpc_id (length reply) mr ch.conn v.block v.client_alive
                  v.client_accepts);
        writes =
            on_process_request-auth_frame proto server services rpc_id mr.rkey mr.addr announces_in
              v.id v.key v.long v.server_alive
            ∙ ap (λ w. some (only w))
                (on_authority_lem server rpc_id mr.rkey mr.addr (segments reply) announces_in
                  (find-insert rpc_id rpc_id _ _ ∙ if_true _ _ same) v.registered v.server_alive
                  v.server_posts);
        receives = arrives;
        early = λ read_buf.
            ap
              (λ o.
                (receive o mr.rkey (length reply_write.bytes) memory read_buf
                  (send_authority client mr rpc_id ch.conn)).0)
              (ap (find mr.rkey) (
                  send_authority-large_map client rpc_id mr ch.conn v.client_alive v.client_accepts)
                ∙ v.new_block);
        cut = λ rest.
            ap (λ l. next_frame (l ++ rest)) (arrives [])
            ∙ next_frame-response_frame rpc_id error_code payload attachment rest v.fits;
        ends = omega (arith, v.room);
        released = find-erase rpc_id rpc_id _ ∙ if_true _ _ same;
      }
