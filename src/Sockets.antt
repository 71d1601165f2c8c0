-- ===== src/Sockets.antt =====
-- The loops of the handshake over a TCP socket: ReadFromFd and WriteToFd (src-endpoint/fast_rdma_endpoint.cc).
-- What a round does is a tick: read or send transfers at most `k + 1` bytes, or has one of the
-- errors that the loops tell apart; `failing` is a round at whose start the endpoint has failed.
-- Where read gives no byte, at the end of the stream, its tick is none; send gives no such result. A read
-- takes no more than `stream` has; where that is nothing, its round is one that waits.
pub mod Exchange
mod Tests
use light_rpc.Prelude.{
  ℕ, zero, suc, ◌-◌, List, [], ◌∷◌, ◌++◌, Option, none, some, min, take, drop, length,
}

pub data Tick : Type 0 where
  failing interrupted would_block io_error : Tick
  transfers : ℕ → Tick

-- The bytes on this side and those in the stream. `waiting` where the ticks end before the loop does.
pub data Transfer : Type 0 where
  done stopped waiting : List ℕ → List ℕ → Transfer

-- With `left` bytes to go; `got` has those received, `stream` those that are on their way.
unfoldable pub read_loop : List (Option Tick) → ℕ → List ℕ → List ℕ → Transfer
read_loop ticks zero got stream = done got stream
read_loop [] (suc left) got stream = waiting got stream
read_loop (none ∷ ts) (suc left) got stream = stopped got stream
read_loop (some failing ∷ ts) (suc left) got stream = stopped got stream
read_loop (some interrupted ∷ ts) (suc left) got stream = read_loop ts (suc left) got stream
read_loop (some would_block ∷ ts) (suc left) got stream = read_loop ts (suc left) got stream
read_loop (some io_error ∷ ts) (suc left) got stream = stopped got stream
read_loop (some (transfers k) ∷ ts) (suc left) got stream =
    let n = min (min (suc k) (suc left)) (length stream) in
    read_loop ts (suc left - n) (got ++ take n stream) (drop n stream)

unfoldable pub read_from_fd : List (Option Tick) → ℕ → List ℕ → Transfer
read_from_fd ticks len stream = read_loop ticks len [] stream

-- With `bytes` to go after those in `stream`.
unfoldable pub write_loop : List Tick → List ℕ → List ℕ → Transfer
write_loop ticks [] stream = done [] stream
write_loop [] (b ∷ bs) stream = waiting (b ∷ bs) stream
write_loop (failing ∷ ts) (b ∷ bs) stream = stopped (b ∷ bs) stream
write_loop (interrupted ∷ ts) (b ∷ bs) stream = write_loop ts (b ∷ bs) stream
write_loop (would_block ∷ ts) (b ∷ bs) stream = write_loop ts (b ∷ bs) stream
write_loop (io_error ∷ ts) (b ∷ bs) stream = stopped (b ∷ bs) stream
write_loop (transfers k ∷ ts) (b ∷ bs) stream =
    write_loop ts (drop (suc k) (b ∷ bs)) (stream ++ take (suc k) (b ∷ bs))

unfoldable pub write_to_fd : List Tick → List ℕ → List ℕ → Transfer
write_to_fd ticks bytes stream = write_loop ticks bytes stream
