-- ===== src/Sockets/Exchange.antt =====
-- What is written is what is read, however the bytes are cut.
use light_rpc.Prelude.{
  ℕ, zero, suc, ◌+◌, ◌-◌, ◌≤◌, ◌≡◌, sym, ap, ap₂, ◌∙◌, List, [], ◌∷◌, ◌++◌, append_assoc,
  append-nil, All, some, map, min, length, length-append, length-drop, take, drop, take-append-drop,
  arith,
}
use light_rpc.Hello.{HelloMessage, serialize, deserialize}
use light_rpc.Hello.Codec.{IsHello, deserialize-serialize, length-serialize, take_exact, drop_exact}
use light_rpc.IoBuf.Cut.Lists.{take_add, drop-drop}
use light_rpc.Sockets.{
  Tick, failing, interrupted, would_block, io_error, transfers, done, read_loop, read_from_fd,
  write_loop, write_to_fd,
}

-- A round without an error, and the most bytes that rounds transfer.
abbrev pub IsQuiet : Tick → Type 0
IsQuiet failing = ⊥
IsQuiet interrupted = Unit
IsQuiet would_block = Unit
IsQuiet io_error = ⊥
IsQuiet (transfers k) = Unit

abbrev amount : Tick → ℕ
amount failing = 0
amount interrupted = 0
amount would_block = 0
amount io_error = 0
amount (transfers k) = suc k

unfoldable pub room : List Tick → ℕ
room [] = 0
room (t ∷ ts) = amount t + room ts

write_loop_lem :
    (ticks : List Tick) (bytes stream : List ℕ)
    → All IsQuiet ticks
    → length bytes ≤ room ticks
    → write_loop ticks bytes stream ≡ done [] (stream ++ bytes)
unfolding write_loop room
write_loop_lem ticks [] stream q h = ap (done []) (sym (append-nil stream))
write_loop_lem [] (b ∷ bs) stream q h = absurd (omega arith)
write_loop_lem (failing ∷ ts) (b ∷ bs) stream q h = absurd q.0
write_loop_lem (interrupted ∷ ts) (b ∷ bs) stream q h =
    write_loop_lem ts (b ∷ bs) stream q.1 (omega arith)
write_loop_lem (would_block ∷ ts) (b ∷ bs) stream q h =
    write_loop_lem ts (b ∷ bs) stream q.1 (omega arith)
write_loop_lem (io_error ∷ ts) (b ∷ bs) stream q h = absurd q.0
write_loop_lem (transfers k ∷ ts) (b ∷ bs) stream q h =
    write_loop_lem ts (drop (suc k) (b ∷ bs)) (stream ++ take (suc k) (b ∷ bs)) q.1
      (omega (arith, length-drop (suc k) (b ∷ bs)))
    ∙ ap (done []) (
        append_assoc stream (take (suc k) (b ∷ bs)) (drop (suc k) (b ∷ bs))
        ∙ ap (λ l. stream ++ l) (take-append-drop (suc k) (b ∷ bs)))

read_loop_lem :
    (ticks : List Tick) (left : ℕ) (got stream : List ℕ)
    → All IsQuiet ticks
    → left ≤ room ticks
    → left ≤ length stream
    → read_loop (map some ticks) left got stream ≡ done (got ++ take left stream) (drop left stream)
unfolding read_loop room
read_loop_lem ticks zero got stream q h l = ap (λ g. done g stream) (sym (append-nil got))
read_loop_lem [] (suc left) got stream q h l = absurd (omega arith)
read_loop_lem (failing ∷ ts) (suc left) got stream q h l = absurd q.0
read_loop_lem (interrupted ∷ ts) (suc left) got stream q h l =
    read_loop_lem ts (suc left) got stream q.1 (omega arith) l
read_loop_lem (would_block ∷ ts) (suc left) got stream q h l =
    read_loop_lem ts (suc left) got stream q.1 (omega arith) l
read_loop_lem (io_error ∷ ts) (suc left) got stream q h l = absurd q.0
read_loop_lem (transfers k ∷ ts) (suc left) got stream q h l =
    let n = min (min (suc k) (suc left)) (length stream) in
    let rest = suc left - n in
    let whole : n + rest ≡ suc left = omega arith in
    read_loop_lem ts rest (got ++ take n stream) (drop n stream) q.1 (omega arith)
      (omega (arith, length-drop n stream))
    ∙ ap₂ done
        (append_assoc got (take n stream) (take rest (drop n stream))
          ∙ ap (λ g. got ++ g) (sym (take_add stream n rest) ∙ ap (λ j. take j stream) whole))
        (drop-drop stream n rest ∙ ap (λ j. drop j stream) whole)

-- A hello message gets across: where neither side has an error and the rounds are enough for the 44
-- bytes, whatever the parts in which they are sent and received, with interrupted calls and with
-- bytes of later messages behind it, the writer sends all of it, the reader stops right behind it,
-- and what it reads is the message. It supposes a message whose fields have their widths.
pub exchange_lem :
    (m : HelloMessage) (ticks reads : List Tick) (more : List ℕ)
    → IsHello m
    → All IsQuiet ticks
    → All IsQuiet reads
    → 44 ≤ room ticks
    → 44 ≤ room reads
    → (bytes : List ℕ) × (write_to_fd ticks (serialize m) [] ≡ done [] bytes)
      × (read_from_fd (map some reads) 44 (bytes ++ more) ≡ done bytes more)
      × (deserialize bytes ≡ m)
unfolding write_to_fd read_from_fd
exchange_lem m ticks reads more v q r h k =
    let size = length-serialize m v.magic v.gid in
    (
      serialize m,
      write_loop_lem ticks (serialize m) [] q (omega (arith, size)),
      read_loop_lem reads 44 [] (serialize m ++ more) r k
            (omega (arith, size, length-append (serialize m) more))
          ∙ ap₂ done (take_exact 44 (serialize m) more size)
              (drop_exact 44 (serialize m) more size),
      deserialize-serialize m v,
    )
