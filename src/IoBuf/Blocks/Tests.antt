-- ===== src/IoBuf/Blocks/Tests.antt =====
-- A pool of one block, an empty cache and buffer, and the cache's theorems applied to them.
use light_rpc.Prelude.{
  ℕ, ◌≡◌, ◌≢◌, refl, inl, inr, false, Bool-cases, [], ◌∷◌, Option, none, some, ◌==◌, if◌then◌else◌,
  arith,
}
use mathlib.Core.Option.{none-ne-some, some-injective}
use light_rpc.IoBuf.Store.{Store}
use light_rpc.IoBuf.View.{empty_buf, ref_list, ref_num, total}
use light_rpc.IoBuf.Shares.{shares}
use light_rpc.IoBuf.Blocks.{Tls, Appended, append_data}
use light_rpc.IoBuf.Blocks.Share.{held, IsTls}
use light_rpc.IoBuf.Blocks.Data.{Ready, Outcome, append_data_lem}

abbrev idle : Store
idle = record {
  nshared = λ p. 0;
  user_data = λ p. false;
  size = λ p. 0;
  cap = λ p. 8160;
  data_meta = λ p. 0;
  bytes = λ p i. 0;
  released = [];
}

-- Block 5, while nobody shares it.
abbrev one_block : Store → Option ℕ
one_block s = if s.nshared 5 == 0 then some 5 else none

one_block-fresh : (s : Store) (p : ℕ) → one_block s ≡ some p → (p ≢ 0) × (s.nshared p ≡ 0)
one_block-fresh s p h = elim (Bool-cases (s.nshared 5 == 0)) [
  | inl e ↦
      let five : 5 ≡ p = some-injective 5 p (rw e at h) in
      let unshared : s.nshared 5 ≡ 0 = ground arith in
      (ground (arith, five), ground (arith, five, unshared))
  | inr e ↦ absurd (none-ne-some p (rw e at h))
]

abbrev no_blocks : Tls
no_blocks = record { chain = []; num_blocks = 0; registered = false }

no_blocks-IsTls : IsTls no_blocks
no_blocks-IsTls = record { counted = refl; few = omega arith; named = tt }

-- Block 1 is shared once.
abbrev shared_one : Store
shared_one = record idle { nshared = λ p. 1 }

empty-Ready : Ready empty_buf no_blocks idle
unfolding ref_list total shares held
empty-Ready = record {
  buf = record { shape = inl (refl, refl); each = tt; bounded = omega arith };
  tls = no_blocks-IsTls;
  counted = λ q. omega arith;
  within = tt;
  caps = λ q. omega arith;
}

append_data_lem_example :
    (a : Appended) × (append_data one_block (7 ∷ 8 ∷ 9 ∷ []) empty_buf no_blocks idle ≡ some a)
    × Ready a.buf a.tls a.store
    × Outcome one_block (7 ∷ 8 ∷ 9 ∷ []) empty_buf idle a
unfolding ref_list total ref_num
append_data_lem_example =
    append_data_lem one_block one_block-fresh (7 ∷ 8 ∷ 9 ∷ []) empty_buf no_blocks idle empty-Ready
      (omega arith) (omega arith)
