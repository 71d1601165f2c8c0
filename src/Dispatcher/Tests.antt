-- ===== src/Dispatcher/Tests.antt =====
-- A block with a frame of twelve bytes at its start, and the dispatcher's theorems applied to it.
use light_rpc.Prelude.{
  ℕ, ◌+◌, ◌^◌, ◌<◌, ◌≡◌, refl, ◌==◌, inl, inr, true, false, if◌then◌else◌, [], ◌∷◌, ◌++◌, some,
  arith,
}
use light_rpc.IoBuf.Store.{Store}
use light_rpc.IoBuf.View.{null_ref, IoBuf, small, ref_list, ref_num, total, IsValid}
use light_rpc.IoBuf.Bytes.{bytes_of, ref_bytes, slice}
use light_rpc.IoBuf.Cut.Drops.{contents}
use light_rpc.IoBuf.View.{buf_length, ref_at, front_ref}
use light_rpc.IoBuf.Copy.{copy_to, copy_refs, copy_skip, refs_in_order}
use light_rpc.IoBuf.Cut.{cutn, cut_loop, trim_front}
use light_rpc.IoBuf.Refs.{push_back_ref, push_to_small}
use light_rpc.IoBuf.Store.{inc_ref}
use light_rpc.Dispatcher.{Processed, cut_input_message, process_new_message, process_loop, ntohl}
use light_rpc.Dispatcher.Frames.{none_lost, split}
use light_rpc.Dispatcher.Process.{ProcessedAs, lost, process_new_message_lem}
use light_rpc.Dispatcher.Chunks.{always, run, handed_over, process_new_message-append}

abbrev framed : Store
framed = record {
  nshared = λ p. 1;
  user_data = λ p. false;
  size = λ p. 16;
  cap = λ p. 8160;
  data_meta = λ p. 0;
  bytes = λ p i. if i == 3 then 12 else 0;
  released = [];
}

abbrev one_ref : ℕ → ℕ → IoBuf
one_ref o n = small (record { offset = o; length = n; block = 1 }) null_ref

one_ref-IsValid : (o n : ℕ) → o + n < 2 ^ 32 → IsValid (one_ref o n)
unfolding ref_list total
one_ref-IsValid o n h = record {
  shape = inr (inl (omega arith, refl));
  each = (record { to_block = omega arith; in_word = h }, tt);
  bounded = omega arith;
}

one_ref-few : (o n : ℕ) → ref_num (one_ref o n) < 2 ^ 30
unfolding ref_num
one_ref-few o n = omega arith

process_new_message_lem_example :
    (p : Processed) × (process_new_message none_lost always true (one_ref 0 14) framed ≡ some p)
    × ProcessedAs framed p (split (lost none_lost always) 0 (contents (one_ref 0 14) framed))
process_new_message_lem_example =
    process_new_message_lem none_lost always (one_ref 0 14) framed
      (one_ref-IsValid 0 14 (omega arith)) (one_ref-few 0 14)

-- Fourteen bytes are read, of which two are left; two more follow.
abbrev after_first : Processed
after_first = record {
  returned = some 1;
  read_buf = one_ref 12 2;
  frames = one_ref 0 12 ∷ [];
  store = record framed { nshared = λ p. if 1 == p then 2 else 1 };
}

first_run : run (one_ref 0 14) framed ≡ some after_first
unfolding process_new_message process_loop cut_input_message buf_length ntohl copy_to copy_refs
    copy_skip refs_in_order ref_num slice ref_at cutn cut_loop front_ref trim_front push_back_ref
    push_to_small inc_ref
first_run = refl

process_new_message-append_example :
    (p' all : Processed) × (run (one_ref 12 4) framed ≡ some p')
    × (run (one_ref 0 16) framed ≡ some all)
    × (handed_over framed all ≡ handed_over framed after_first ++ handed_over framed p')
    × (bytes_of framed.bytes (ref_list all.read_buf) ≡ bytes_of framed.bytes (ref_list p'.read_buf))
unfolding bytes_of ref_bytes slice ref_list
process_new_message-append_example =
    process_new_message-append (one_ref 0 14) (one_ref 12 4) (one_ref 0 16) framed framed framed
      after_first 1 (0 ∷ 0 ∷ []) (one_ref-IsValid 0 14 (omega arith))
      (one_ref-IsValid 12 4 (omega arith)) (one_ref-IsValid 0 16 (omega arith)) (one_ref-few 0 14)
      (one_ref-few 12 4) (one_ref-few 0 16) first_run refl refl refl
