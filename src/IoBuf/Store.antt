-- ===== src/IoBuf/Store.antt =====
-- The reference-counted blocks of inc/fast_iobuf_inl.h (IOBuf::Block). Each field of a block is a
-- map from the block's address; address 0 is the null pointer. `released` is what `dec_ref` has
-- given back so far, the latest first.
use light_rpc.Prelude.{ℕ, ◌+◌, ◌-◌, Bool, List, ◌∷◌, leb, ◌==◌, if◌then◌else◌, update}

-- How a block goes: by the deleter of its user data, or back to the block pool.
pub data Release : Type 0 where
  deleted deallocated : ℕ → Release

pub record Store : Type 0 where
  pub nshared : ℕ → ℕ
  pub user_data : ℕ → Bool
  pub size : ℕ → ℕ
  pub cap : ℕ → ℕ
  pub data_meta : ℕ → ℕ
  pub bytes : ℕ → ℕ → ℕ
  pub released : List Release

-- A block has fewer than 2 ^ 31 references, so that the counter, an int, does not overflow.
unfoldable pub inc_ref : ℕ → Store → Store
inc_ref p s = record s { nshared = update s.nshared p (s.nshared p + 1) }

-- `fetch_sub(1) == 1`: the last reference releases the block.
unfoldable pub dec_ref : ℕ → Store → Store
dec_ref p s =
    if s.nshared p == 1
    then record s {
      nshared = update s.nshared p 0;
      released = (if s.user_data p then deleted p else deallocated p) ∷ s.released;
    }
    else record s { nshared = update s.nshared p (s.nshared p - 1) }

unfoldable pub full : ℕ → Store → Bool
full p s = leb (s.cap p) (s.size p)

unfoldable pub left_space : ℕ → Store → ℕ
left_space p s = s.cap p - s.size p
