-- ===== src/Lib.antt =====
-- light-rpc: RPC over RDMA. A channel sends a call's request to a server and waits for the
-- response; messages of 2 MB or more are announced and written into the peer's memory. A sender's bytes stand in reference-counted blocks, an IOBuf is a sequence
-- of references into such blocks, an endpoint moves IOBufs over a queue pair after a handshake over
-- TCP, and a dispatcher cuts the bytes received into frames for the handlers.
--
-- Which file models which part:
-- * IoBuf (src-common/fast_iobuf.cc, inc/fast_iobuf.h, inc/fast_iobuf_inl.h): Store has the blocks
--   (IOBuf::Block) as maps from an address to each field, with inc_ref and dec_ref; View the small
--   and the big view of an IOBuf, and its well-formedness `IsValid`; Refs the operations on
--   references (_push_or_move_back_ref_to_smallview, _to_bigview, _pop_or_moveout_front_ref,
--   _pop_back_ref); Ring, Push and Pop what these do to the list of references, Shares what they do to
--   the counts, Bytes what references stand for; Cut has clear, pop_front, pop_back, cutn and
--   cut1; Copy copy_to; Append the two append of a buffer; Equals the comparison; Resize resize;
--   Blocks the thread's cache of blocks (share_tls_block, release_tls_block) and append of bytes;
--   Reader the stream that protobuf reads a buffer through (IOBufAsZeroCopyInputStream).
-- * Dispatcher (src-endpoint/message_dispatcher.cc): cut_input_message is CutInputMessage and
--   process_new_message ProcessNewMessage; Frames describes the framing on bytes alone, Cutting
--   and Process relate the two, Chunks has what follows for bytes that arrive in parts.
-- * LargeBlock (src-common/fast_large_block.cc): the thread's cache of registered large blocks.
-- * BlockPool (src-common/fast_block_pool.cc): the registered memory. Pool has the regions, the idle
--   extents of each type and bucket, and one thread's cache; alloc_block_from, block_allocate,
--   block_deallocate, extend_block_pool and recycle_all are the functions of these names. Cover counts
--   how often an address is free, Well is the well-formed pool, Extend, Alloc, From, Dealloc and
--   Recycle what each operation does, Trace sequences of operations with the blocks that are out.
-- * Endpoint (src-endpoint/fast_rdma_endpoint.cc, inc/fast_rdma_endpoint.h): Flow has the windows, the
--   rings and the counters of an endpoint's work requests; negotiate, resize_rings,
--   client_params and server_params (what the two handshakes set), is_writable, send_imm,
--   send_ack, post_recv_loop (PostRecv), post_data (a round of CutFromIOBufList) and handle_completion
--   return it with their effects. Posting has what an operation posts, Windows sequences of them,
--   Credits the handshake's windows and the credits received; SgList is cut_into_sglist_and_iobuf
--   and, in Gather, the inner loop of CutFromIOBufList.
-- * WriteQueue (src-endpoint/fast_rdma_endpoint.cc): the list of write requests that callers publish and
--   one of them writes; publish and connect are the first part of StartWrite, is_write_complete is
--   IsWriteComplete; Chains has lists of linked requests, Complete what a call does, Order sequences of
--   publications, writes and calls.
-- * Hello (inc/fast_rdma_endpoint.h, src-endpoint/fast_rdma_endpoint.cc): the handshake message.
-- * Sockets (src-endpoint/fast_rdma_endpoint.cc): the loops ReadFromFd and WriteToFd of the handshake, for
--   any results of the calls; Exchange has the hello message sent through both.
-- * Polling (src-endpoint/fast_rdma_endpoint.cc): who polls the completion queues. poll_round is a round of
--   PollCq; on_comp_channel_event, add_read_event and more_read_events are the functions of these names.
--   Watched has sequences of steps of all threads, Drained a poller on its own.
-- * Events (src-endpoint/event_dispatcher.cc, inc/event_dispatcher.h): the registrations of the event
--   dispatcher. Registered has sequences of calls, Silent what follows a removal.
-- * Connections (src-endpoint/fast_server.cc, inc/fast_server.h): the endpoints of a server.
--   prepare_listener and register_listener are BuildAndStart's two steps, add_endpoint and
--   after_lock are AddEndpoint, on_endpoint_recycled its recycling, and close is one step of Close, up to a
--   lock or a wait. Closed has sequences of steps of all threads, Returns how Close comes to its end.
-- * Rpc (src-endpoint/fast_channel.cc, src-endpoint/fast_server.cc, inc/fast_channel.h, inc/fast_server.h,
--   inc/fast_define.h): the frames of the messages. Large has the endpoint as the handlers see it, with
--   the frames given to StartWrite and the large transfers of src-endpoint/fast_rdma_endpoint.cc; Service
--   the service map; Server on_process_request (OnProcessRequest) and return_rpc_response
--   (ReturnRPCResponse); Pending the calls in flight (RegisterPending, OnEndpointFailed, the end of
--   CallMethod); Channel begin_call (CallMethod up to its wait) and on_process_response
--   (OnProcessResponse). Server/Faults and Server/Answers have what a request leads to, Server/Requests
--   and Server/Replies its two frames, Channel/Calls and Channel/Responses the client's ends,
--   Channel/Settled and Channel/First sequences of steps of a channel, Framing the frames as the
--   dispatcher cuts them, Exchange a call from one end to the other, Transfer a large response.
-- * Prelude (shared by all): tests, lists, maps and machine words that the modules share.
-- The modules named Tests apply the theorems to concrete data.
--
-- State is passed explicitly: an operation takes a buffer and the store and returns them changed.
-- Sums of a uint32_t or a size_t wrap at 2 ^ 32 and 2 ^ 64, and an int is its 32-bit word. A loop of the
-- code over a number of bytes runs on fuel, one round more than the buffer has references (or bytes, in
-- ProcessNewMessage); the walk of is_write_complete is bounded by the number of requests, the inner loop
-- of CutFromIOBufList by the entries and the buffers, Skip by the references left, and poll_cq by a
-- number of rounds that a theorem shows to be enough. `none` means that the fuel ran out, and the
-- theorems show a result. Buffers are bounded by 2 ^ 32 bytes (the code keeps 32-bit lengths) and 2 ^ 30
-- references, so that no index wraps.
--
-- Not modelled: the RDMA verbs, the wait of the event thread, threads and the interleavings within an operation (a
-- request is published and linked in one step; what a handler does under its locks, and with the
-- endpoint, is one step), the set-up of a connection, of the channel and of the server, the closing of a connection and of the channel,
-- acquire_tls_block, append_user_data_with_meta and the output stream of an IOBuf, the outer loop of
-- CutFromIOBufList, and KeepWrite. The frames that ProcessNewMessage hands to threads, the endpoint's
-- failure and the start of a thread are arguments; so are posix_memalign, ibv_reg_mr, ibv_dereg_mr,
-- ibv_post_send and ibv_post_recv, and what BlockAllocate of the block pool gives to the thread's cache.
-- Protobuf is an argument too: what it reads of bytes, that it reads back what it wrote, and the bytes
-- of a message. The handlers of messages work on a frame's bytes, whose words stand in one block each.
pub mod Prelude
pub mod IoBuf
pub mod Dispatcher
pub mod LargeBlock
pub mod Hello
pub mod BlockPool
pub mod Endpoint
pub mod WriteQueue
pub mod Sockets
pub mod Rpc
pub mod Polling
pub mod Events
pub mod Connections
