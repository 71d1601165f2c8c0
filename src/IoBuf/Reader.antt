-- ===== src/IoBuf/Reader.antt =====
-- IOBufAsZeroCopyInputStream of src-common/fast_iobuf.cc: what protobuf reads a buffer through. An int is
-- its 32-bit word; `byte_count` has 64 bits and does not overflow.
pub mod Position
pub mod Laws
mod Tests
use light_rpc.Prelude.{
  ℕ, zero, suc, ◌+◌, ◌-◌, Bool, true, false, ◌&&◌, not, Option, none, some, ltb, leb, ◌==◌,
  if◌then◌else◌, List, [], ◌∷◌, ◌++◌,
}
use light_rpc.Prelude.Bits.{add32, sub32, int_lt}
use light_rpc.IoBuf.View.{BlockRef, IoBuf, ref_at, ref_num}
use light_rpc.IoBuf.Bytes.{Memory, ref_bytes}

pub record Reader : Type 0 where
  pub ref_index : ℕ
  pub add_offset : ℕ
  pub byte_count : ℕ

abbrev pub new_reader : Reader
new_reader = record { ref_index = 0; add_offset = 0; byte_count = 0 }

-- `none` for a null pointer.
unfoldable pub pref_at : IoBuf → ℕ → Option BlockRef
pref_at b i = if ltb i (ref_num b) then some (ref_at b i) else none

-- A reference from `n` bytes on: `*data` and `*size`. A reader's offset lies in its reference, and the int of
-- `*size` is this length where the reference has fewer than 2 ^ 31 bytes, which the theorems on what is
-- read suppose.
abbrev pub from : ℕ → BlockRef → BlockRef
from n r = record r { offset = r.offset + n; length = r.length - n }

abbrev pub give : Option BlockRef → Reader → Option BlockRef × Reader
give none r = (none, r)
give (some cur) r = (
  some (from r.add_offset cur),
  record {
    ref_index = suc r.ref_index;
    add_offset = 0;
    byte_count = r.byte_count + (cur.length - r.add_offset);
  },
)

-- The bytes are given as a reference; none for `false`.
unfoldable pub next : IoBuf → Reader → Option BlockRef × Reader
unfolding pref_at
next b r = give (pref_at b r.ref_index) r

abbrev pub give_back : Option BlockRef → ℕ → Reader → Option Reader
give_back none count r = none
give_back (some cur) count r =
    if (r.add_offset == 0) && leb count cur.length
    then none
    else some (record {
      ref_index = r.ref_index - 1;
      add_offset = cur.length - count;
      byte_count = r.byte_count - count;
    })

-- `none` where the process is aborted.
unfoldable pub back_up : IoBuf → ℕ → Reader → Option Reader
unfolding pref_at
back_up b count r =
    if r.ref_index == 0 then none else give_back (pref_at b (r.ref_index - 1)) count r

abbrev pub skip_in :
    Option BlockRef → ℕ → Reader → (ℕ → Reader → Option (Bool × Reader)) → Option (Bool × Reader)
skip_in none count r again = some (false, r)
skip_in (some cur) count r again =
    let left_bytes = sub32 cur.length r.add_offset in
    let further = again (sub32 count left_bytes) (record {
      ref_index = suc r.ref_index;
      add_offset = 0;
      byte_count = r.byte_count + left_bytes;
    }) in
    if int_lt count left_bytes
    then some (
      true,
      record r { add_offset = add32 r.add_offset count; byte_count = r.byte_count + count },
    )
    else further

unfoldable pub skip_loop : ℕ → IoBuf → ℕ → Reader → Option (Bool × Reader)
unfolding pref_at
skip_loop zero b count r = none
skip_loop (suc fuel) b count r = skip_in (pref_at b r.ref_index) count r (skip_loop fuel b)

-- One round for each reference left, and one for the end.
unfoldable pub skip : IoBuf → ℕ → Reader → Option (Bool × Reader)
unfolding skip_loop
skip b count r = skip_loop (suc (ref_num b - r.ref_index)) b count r

-- All that is left, by Next until it returns false.
abbrev pub then_bytes : Memory → Option BlockRef × Reader → (Reader → List ℕ) → List ℕ
then_bytes mem (none, r) rest = []
then_bytes mem (some p, r) rest = ref_bytes mem p ++ rest r

unfoldable pub read_all : Memory → IoBuf → ℕ → Reader → List ℕ
unfolding next
read_all mem b zero r = []
read_all mem b (suc fuel) r = then_bytes mem (next b r) (read_all mem b fuel)
