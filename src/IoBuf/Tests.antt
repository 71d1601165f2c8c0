-- ===== src/IoBuf/Tests.antt =====
-- Concrete buffers over two blocks, and the buffers' theorems applied to them.
use light_rpc.Prelude.{
  ℕ, ◌+◌, ◌*◌, ◌^◌, ◌≤◌, ◌<◌, ◌≡◌, ◌≢◌, refl, inl, inr, ◌↔◌, Bool, true, false, [], some, take, min,
  arith,
}
use light_rpc.IoBuf.Store.{Store}
use light_rpc.IoBuf.View.{
  BlockRef, IoBuf, small, empty_buf, ref_list, ref_num, total, IsRef, IsValid,
}
use light_rpc.IoBuf.Refs.{push_back_ref}
use light_rpc.IoBuf.Ring.{append_ref}
use light_rpc.IoBuf.Push.{push_back_ref_appends}
use light_rpc.IoBuf.Cut.{Cut, pop_front, cutn, cut_bytes}
use light_rpc.IoBuf.Cut.Drops.{contents, Dropped}
use light_rpc.IoBuf.Cut.Front.{pop_front_lem}
use light_rpc.IoBuf.Cut.Into.{Moved, cutn_lem}
use light_rpc.IoBuf.Cut.Out.{cut_bytes_lem}
use light_rpc.IoBuf.Equals.{equals, equals_lem}
use light_rpc.IoBuf.Shares.{one, shares, Counted, push_back_ref-shares}

-- Block 1 holds 10 11 12 ..., block 2 holds 20 21 22 ....
abbrev pub two_blocks : Store
two_blocks = record {
  nshared = λ p. 3;
  user_data = λ p. false;
  size = λ p. 8;
  cap = λ p. 8160;
  data_meta = λ p. 0;
  bytes = λ p i. 10 * p + i;
  released = [];
}

abbrev ref_to : ℕ → ℕ → ℕ → BlockRef
ref_to p o n = record { offset = o; length = n; block = p }

abbrev pub two_refs : IoBuf
two_refs = small (ref_to 1 0 4) (ref_to 2 0 3)

IsRef-to : (p o n : ℕ) → p ≢ 0 → o + n < 2 ^ 32 → IsRef (ref_to p o n)
IsRef-to p o n a b = record { to_block = a; in_word = b }

pub two_refs-IsValid : IsValid two_refs
unfolding ref_list total
two_refs-IsValid = record {
  shape = inr (inr (omega arith, omega arith));
  each = (
    IsRef-to 1 0 4 (omega arith) (omega arith),
    (IsRef-to 2 0 3 (omega arith) (omega arith), tt),
  );
  bounded = omega arith;
}

empty-IsValid : IsValid empty_buf
unfolding ref_list total
empty-IsValid = record { shape = inl (refl, refl); each = tt; bounded = omega arith }

two_refs-Counted : Counted two_blocks (ref_list two_refs)
unfolding ref_list shares
two_refs-Counted p = ground arith

push_back_ref_appends_example :
    IsValid (push_back_ref false two_refs (ref_to 2 3 1) two_blocks).0
    × (ref_list (push_back_ref false two_refs (ref_to 2 3 1) two_blocks).0
        ≡ append_ref (ref_list two_refs) (ref_to 2 3 1))
unfolding ref_list total ref_num
push_back_ref_appends_example =
    push_back_ref_appends false two_refs (ref_to 2 3 1) two_blocks two_refs-IsValid
      (IsRef-to 2 3 1 (omega arith) (omega arith)) (omega arith) (omega arith)

push_back_ref-shares_example :
    (push_back_ref true two_refs (ref_to 2 3 1) two_blocks).1.nshared 2
      + (shares 2 (ref_list two_refs) + one 2 2)
    ≡ two_blocks.nshared 2 + shares 2 (append_ref (ref_list two_refs) (ref_to 2 3 1))
push_back_ref-shares_example =
    push_back_ref-shares true two_refs (ref_to 2 3 1) two_blocks 2 two_refs-IsValid.shape
      (λ moved. omega arith)

pop_front_lem_example :
    (b' : IoBuf) × (s' : Store) × (pop_front 5 two_refs two_blocks
      ≡ some (min 5 (total (ref_list two_refs)), b', s'))
    × Dropped 5 two_refs two_blocks b' s'
pop_front_lem_example = pop_front_lem 5 two_refs two_blocks two_refs-IsValid two_refs-Counted

both-counted :
    (p : ℕ) → shares p (ref_list two_refs) + shares p (ref_list empty_buf) ≤ two_blocks.nshared p
unfolding ref_list shares
both-counted p = ground arith

cutn_lem_example :
    (c : Cut) × (cutn 5 two_refs empty_buf two_blocks ≡ some (min 5 (total (ref_list two_refs)), c))
    × Moved (min 5 (total (ref_list two_refs))) two_refs empty_buf two_blocks c
unfolding ref_list total ref_num
cutn_lem_example =
    cutn_lem 5 two_refs empty_buf two_blocks two_refs-IsValid empty-IsValid (omega arith)
      (omega arith) both-counted

cut_bytes_lem_example :
    (b' : IoBuf) × (s' : Store) × (cut_bytes 5 two_refs two_blocks
      ≡ some (take (min 5 (total (ref_list two_refs))) (contents two_refs two_blocks), b', s'))
    × Dropped (min 5 (total (ref_list two_refs))) two_refs two_blocks b' s'
cut_bytes_lem_example = cut_bytes_lem 5 two_refs two_blocks two_refs-IsValid two_refs-Counted

-- The same bytes, cut into references elsewhere.
abbrev cut_elsewhere : IoBuf
cut_elsewhere = small (ref_to 1 0 2) (ref_to 1 2 2)

cut_elsewhere-IsValid : IsValid cut_elsewhere
unfolding ref_list total
cut_elsewhere-IsValid = record {
  shape = inr (inr (omega arith, omega arith));
  each = (
    IsRef-to 1 0 2 (omega arith) (omega arith),
    (IsRef-to 1 2 2 (omega arith) (omega arith), tt),
  );
  bounded = omega arith;
}

abbrev whole : IoBuf
whole = small (ref_to 1 0 4) (ref_to 0 0 0)

whole-IsValid : IsValid whole
unfolding ref_list total
whole-IsValid = record {
  shape = inr (inl (omega arith, refl));
  each = (IsRef-to 1 0 4 (omega arith) (omega arith), tt);
  bounded = omega arith;
}

equals_lem_example :
    (r : Bool) × (equals whole cut_elsewhere two_blocks ≡ some r)
    × ((r ≡ true) ↔ (contents whole two_blocks ≡ contents cut_elsewhere two_blocks))
equals_lem_example = equals_lem whole cut_elsewhere two_blocks whole-IsValid cut_elsewhere-IsValid
