-- ===== src/IoBuf/Reader/Tests.antt =====
-- Reading the buffer of two references.
use light_rpc.IoBuf.Reader.Position.{IsInt}
use light_rpc.Prelude.{All, ℕ, ◌<◌, ◌≤◌, ◌≢◌, ◌≡◌, refl, Bool, none, arith}
use light_rpc.IoBuf.View.{ref_at, ref_num, ref_list}
use light_rpc.IoBuf.Cut.Drops.{contents}
use light_rpc.IoBuf.Tests.{two_blocks, two_refs, two_refs-IsValid}
use light_rpc.IoBuf.Reader.{Reader, new_reader, pref_at, next, back_up, read_all}
use light_rpc.IoBuf.Reader.Laws.{SkipsTo, after_nexts, read_all_lem, skip_lem, back_up-aborts}

two_refs-IsInt : All IsInt (ref_list two_refs)
unfolding ref_list
two_refs-IsInt = (omega arith, (omega arith, tt))

read_all_lem_example :
    ((n : ℕ) → n < ref_num two_refs → (next two_refs (after_nexts n two_refs new_reader)).0 ≢ none)
    × (next two_refs (after_nexts (ref_num two_refs) two_refs new_reader)
        ≡ (none, after_nexts (ref_num two_refs) two_refs new_reader))
    × ((calls : ℕ)
        → ref_num two_refs ≤ calls
        → read_all two_blocks.bytes two_refs calls new_reader ≡ contents two_refs two_blocks)
read_all_lem_example = read_all_lem two_refs two_blocks two_refs-IsValid two_refs-IsInt

skip_lem_example : (ok : Bool) × (q : Reader) × SkipsTo two_blocks.bytes two_refs 5 new_reader ok q
unfolding ref_list
skip_lem_example =
    skip_lem two_blocks.bytes two_refs 5 new_reader two_refs-IsValid two_refs-IsInt (omega arith)
      (omega arith)

abbrev once : Reader
once = record { ref_index = 1; add_offset = 0; byte_count = 4 }

back_up-aborts_example : back_up two_refs 1 once ≡ none
unfolding next pref_at ref_at ref_num
back_up-aborts_example =
    back_up-aborts two_refs 1 new_reader (record { offset = 0; length = 4; block = 1 }) once refl
      (omega arith)
