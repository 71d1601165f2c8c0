-- ===== src/Rpc/Transfer/Messages.antt =====
-- The messages of a large transfer, each at the end that handles it.
use light_rpc.Prelude.{
  ℕ, ◌+◌, ◌*◌, ◌/◌, ◌%◌, ◌^◌, ◌<◌, ◌≡◌, ap, ◌∙◌, Bool, true, false, List, [], ◌∷◌, ◌++◌, Option,
  some, if_false, find, insert, arith,
}
use light_rpc.Hello.{htonl}
use light_rpc.Rpc.{msg_notify, msg_authority, notify_frame, auth_frame}
use light_rpc.Rpc.Words.{bind-htonl}
use light_rpc.Rpc.Large.{
  Segment, LargeMr, Conn, Env, on_notify, permit, send_authority, on_authority, transfer,
  after_post, post_large_write_recv, start_write, get_large_frame,
}
use light_rpc.Rpc.Large.Scatter.{IsRegistered, large_write, cut_seg_from_iobuf_lem}
use light_rpc.Rpc.Service.{Protobuf, ServiceInfo}
use light_rpc.Rpc.Server.{only, on_process_request}
use light_rpc.Rpc.Server.Faults.{on_process_request_alive}
use light_rpc.Rpc.Pending.{Channel}
use light_rpc.Rpc.Channel.{with_conn, on_process_response}
use light_rpc.Rpc.Channel.Calls.{start_write_lem}

-- The connection of the receiver after it permitted the transfer.
abbrev pub permitted : ℕ → LargeMr → Conn → Conn
permitted rpc_id mr d = record d {
  posted = d.posted ++ (mr ∷ []);
  written = d.written ++ (auth_frame rpc_id mr.rkey mr.addr ∷ []);
  large_map = insert mr.rkey mr d.large_map;
}

-- Between the two parts.
pub send_authority-large_map :
    (env : Env) (rpc_id : ℕ) (mr : LargeMr) (d : Conn)
    → d.failed ≡ false
    → env.accepts (auth_frame rpc_id mr.rkey mr.addr) ≡ true
    → (send_authority env mr rpc_id d).large_map ≡ d.large_map
unfolding post_large_write_recv
send_authority-large_map env rpc_id mr d alive accepted =
    ap (λ (c : Conn). (start_write env (auth_frame rpc_id mr.rkey mr.addr) c).1.large_map)
      (if_false d (record d { posted = d.posted ++ (mr ∷ []) }) alive)
    ∙ ap (λ (w : Bool × Conn). w.1.large_map)
        (start_write_lem env (auth_frame rpc_id mr.rkey mr.addr)
          (record d { posted = d.posted ++ (mr ∷ []) }) alive accepted)

pub on_notify_lem :
    (env : Env) (rpc_id n : ℕ) (mr : LargeMr) (d : Conn)
    → env.large_block_alloc n ≡ some mr
    → d.failed ≡ false
    → env.accepts (auth_frame rpc_id mr.rkey mr.addr) ≡ true
    → on_notify env rpc_id n d ≡ (true, permitted rpc_id mr d)
unfolding on_notify post_large_write_recv
on_notify_lem env rpc_id n mr d block alive accepted =
    let posts = if_false d (record d { posted = d.posted ++ (mr ∷ []) }) alive in
    ap (λ o. permit env o rpc_id d) block
    ∙ ap
        (λ (c : Conn). (
          true,
          record (start_write env (auth_frame rpc_id mr.rkey mr.addr) c).1 {
            large_map =
                insert mr.rkey mr
                  (start_write env (auth_frame rpc_id mr.rkey mr.addr) c).1.large_map;
          },
        ))
        posts
    ∙ ap (λ (w : Bool × Conn). (true, record w.1 { large_map = insert mr.rkey mr w.1.large_map }))
        (start_write_lem env (auth_frame rpc_id mr.rkey mr.addr)
          (record d { posted = d.posted ++ (mr ∷ []) }) alive accepted)

pub on_authority_lem :
    (env : Env) (rpc_id rkey addr : ℕ) (buf : List Segment) (c : Conn)
    → find rpc_id c.large_frames ≡ some buf
    → IsRegistered buf
    → c.failed ≡ false
    → env.post_send (large_write buf rkey addr rkey rpc_id) ≡ true
    → on_authority env rpc_id rkey addr c ≡ (
      true,
      record c { large_writes = c.large_writes ++ (large_write buf rkey addr rkey rpc_id ∷ []) },
    )
unfolding on_authority get_large_frame
on_authority_lem env rpc_id rkey addr buf c stored reg alive posts =
    ap (λ o. transfer env o rpc_id rkey addr c) stored
    ∙ ap (after_post env rpc_id)
        (cut_seg_from_iobuf_lem env buf rkey addr rkey rpc_id c reg alive posts)

pub on_process_response-notify_frame :
    {Response : Type 0} (env : Env) (parse : List ℕ → Option Response) (rpc_id n : ℕ)
    (ch : Channel Response)
    → rpc_id < 2 ^ 32
    → n < 2 ^ 32
    → on_process_response env parse (notify_frame rpc_id n) ch
      ≡ some (with_conn env parse (on_notify env rpc_id n ch.conn) ch)
unfolding on_process_response notify_frame
on_process_response-notify_frame env parse rpc_id n ch id size =
    bind-htonl msg_notify (htonl rpc_id ++ htonl n) _ (omega arith)
    ∙ bind-htonl rpc_id (htonl n) _ id
    ∙ bind-htonl n [] _ size

pub on_process_request-auth_frame :
    {S M R : Type 0} (proto : Protobuf S M R) (env : Env) (services : List (List ℕ × ServiceInfo S))
    (rpc_id rkey addr : ℕ) (c : Conn)
    → rpc_id < 2 ^ 32
    → rkey < 2 ^ 32
    → addr < 2 ^ 64
    → c.failed ≡ false
    → on_process_request proto env (some services) c (auth_frame rpc_id rkey addr)
      ≡ some (only (on_authority env rpc_id rkey addr c))
unfolding auth_frame
on_process_request-auth_frame proto env services rpc_id rkey addr c id key long alive =
    let hi = addr / 2 ^ 32 % 2 ^ 32 in
    let lo = addr % 2 ^ 32 in
    let whole : hi * 2 ^ 32 + lo ≡ addr = omega arith in
    on_process_request_alive proto env services c _ alive
    ∙ bind-htonl 24
        (htonl msg_authority ++ (htonl rpc_id ++ (htonl rkey ++ (htonl hi ++ htonl lo)))) _
        (omega arith)
    ∙ bind-htonl msg_authority (htonl rpc_id ++ (htonl rkey ++ (htonl hi ++ htonl lo))) _
        (omega arith)
    ∙ bind-htonl rpc_id (htonl rkey ++ (htonl hi ++ htonl lo)) _ id
    ∙ bind-htonl rkey (htonl hi ++ htonl lo) _ key
    ∙ bind-htonl hi (htonl lo) _ (omega arith)
    ∙ bind-htonl lo [] _ (omega arith)
    ∙ ap (λ a. some (only (on_authority env rpc_id rkey a c))) whole
