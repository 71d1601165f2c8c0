-- ===== src/Rpc.antt =====
-- The messages between a channel and a server (src-endpoint/fast_channel.cc,
-- src-endpoint/fast_server.cc, inc/fast_define.h), as the bytes of their frames. A frame is read
-- through `fetch1()`, four bytes at a time; `none` is a read outside of the frame, at a null pointer
-- where nothing is left. The four bytes of a field stand in one block.
pub mod Words
pub mod Large
pub mod Service
pub mod Server
pub mod Pending
pub mod Channel
pub mod Framing
pub mod Exchange
pub mod Transfer
mod Tests
use light_rpc.Prelude.{
  ℕ, ◌+◌, ◌*◌, ◌/◌, ◌%◌, ◌^◌, List, [], ◌∷◌, ◌++◌, Option, none, some, length, flatten,
}
use light_rpc.Prelude.Bits.{add32}
use light_rpc.Hello.{htonl}

-- MessageType
abbrev pub msg_normal : ℕ
msg_normal = 0

abbrev pub msg_notify : ℕ
msg_notify = 1

abbrev pub msg_authority : ℕ
msg_authority = 2

abbrev pub msg_normal_response : ℕ
msg_normal_response = 3

-- ErrorCode
abbrev pub err_success : ℕ
err_success = 0

abbrev pub err_unknown_service : ℕ
err_unknown_service = 1

abbrev pub err_unknown_method : ℕ
err_unknown_method = 2

abbrev pub err_bad_request : ℕ
err_bad_request = 3

abbrev pub err_bad_response : ℕ
err_bad_response = 4

abbrev pub err_internal : ℕ
err_internal = 5

-- kNotifyFrameBytes, kAuthFrameBytes and msg_threshold
abbrev pub notify_frame_bytes : ℕ
notify_frame_bytes = 16

abbrev pub auth_frame_bytes : ℕ
auth_frame_bytes = 24

abbrev pub msg_threshold : ℕ
msg_threshold = 2 * 1024 * 1024

-- `ntohl` of the four bytes at the front, and the bytes behind them; none where there are fewer. The code
-- takes them by fetch1() from the first block, so that the four have to stand in one block: what
-- it does with a word that a block's end cuts is not modelled.
unfoldable pub read32 : List ℕ → Option (ℕ × List ℕ)
read32 (a ∷ b ∷ c ∷ d ∷ rest) = some (((a * 256 + b) * 256 + c) * 256 + d, rest)
read32 rest = none

-- 4 * kFixed32Bytes + meta_len + payload_len + attachment_len
unfoldable pub request_len : List ℕ → List ℕ → List ℕ → ℕ
request_len meta payload attachment =
    add32 (add32 (add32 16 (length meta)) (length payload)) (length attachment)

unfoldable pub request_frame : ℕ → List ℕ → List ℕ → List ℕ → List ℕ
unfolding request_len
request_frame rpc_id meta payload attachment =
    htonl (request_len meta payload attachment)
    ++ (htonl msg_normal
        ++ (htonl rpc_id ++ (htonl (length meta) ++ (meta ++ (payload ++ attachment)))))

unfoldable pub notify_frame : ℕ → ℕ → List ℕ
notify_frame rpc_id total_len =
    htonl notify_frame_bytes ++ (htonl msg_notify ++ (htonl rpc_id ++ htonl total_len))

unfoldable pub auth_frame : ℕ → ℕ → ℕ → List ℕ
auth_frame rpc_id rkey addr =
    htonl auth_frame_bytes
    ++ (htonl msg_authority
        ++ (htonl rpc_id
            ++ (htonl rkey ++ (htonl (addr / 2 ^ 32 % 2 ^ 32) ++ htonl (addr % 2 ^ 32)))))

unfoldable pub response_len : List ℕ → List ℕ → ℕ
response_len payload attachment = add32 (add32 20 (length payload)) (length attachment)

unfoldable pub response_frame : ℕ → ℕ → List ℕ → List ℕ → List ℕ
unfolding response_len
response_frame rpc_id error_code payload attachment =
    htonl (response_len payload attachment)
    ++ (htonl msg_normal_response
        ++ (htonl rpc_id
            ++ (htonl error_code ++ (htonl (length attachment) ++ (payload ++ attachment)))))

-- `SendErrorResponse`
unfoldable pub error_frame : ℕ → ℕ → List ℕ
error_frame rpc_id error_code =
    htonl 20
    ++ (htonl msg_normal_response ++ (htonl rpc_id ++ (htonl error_code ++ (0 ∷ 0 ∷ 0 ∷ 0 ∷ []))))
