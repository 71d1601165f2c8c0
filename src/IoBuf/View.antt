-- ===== src/IoBuf/View.antt =====
-- The two views of an IOBuf (inc/fast_iobuf.h): up to two references in place, or a ring of them.
use light_rpc.Prelude.{
  ℕ, ◌+◌, ◌-◌, ◌^◌, ◌≤◌, ◌<◌, ◌≡◌, ◌≢◌, ◌⊎◌, Bool, List, [], ◌∷◌, bit_and, ◌==◌, if◌then◌else◌,
  length, get_or, collect, All,
}
use light_rpc.Prelude.Bits.{add32}

-- `length` bytes of a block, from `offset` on.
pub record BlockRef : Type 0 where
  pub offset : ℕ
  pub length : ℕ
  pub block : ℕ

-- `reset_block_ref`
abbrev pub null_ref : BlockRef
null_ref = record { offset = 0; length = 0; block = 0 }

pub record BigView : Type 0 where
  pub start : ℕ
  pub refs : List BlockRef
  pub nref : ℕ
  pub cap_mask : ℕ
  pub nbytes : ℕ

-- The union of the two views; the sign of `magic` is the constructor.
pub data IoBuf : Type 0 where
  small : BlockRef → BlockRef → IoBuf
  big : BigView → IoBuf

abbrev pub initial_cap : ℕ
initial_cap = 32

abbrev pub empty_buf : IoBuf
empty_buf = small null_ref null_ref

abbrev pub ref_index : BigView → ℕ → ℕ
ref_index v i = bit_and (add32 v.start i) v.cap_mask

abbrev pub ring_ref_at : BigView → ℕ → BlockRef
ring_ref_at v i = get_or v.refs (ref_index v i) null_ref

abbrev pub capacity : BigView → ℕ
capacity v = add32 v.cap_mask 1

unfoldable pub buf_length : IoBuf → ℕ
buf_length (small r0 r1) = add32 r0.length r1.length
buf_length (big v) = v.nbytes

unfoldable pub is_empty : IoBuf → Bool
is_empty (small r0 r1) = r0.block == 0
is_empty (big v) = v.nbytes == 0

abbrev small_num : ℕ → ℕ → ℕ
small_num b0 b1 = (if b0 == 0 then 0 else 1) + (if b1 == 0 then 0 else 1)

unfoldable pub ref_num : IoBuf → ℕ
ref_num (small r0 r1) = small_num r0.block r1.block
ref_num (big v) = v.nref

abbrev small_at : BlockRef → BlockRef → ℕ → BlockRef
small_at r0 r1 i = if i == 0 then r0 else r1

-- `_ref_at(i)`, for i < _ref_num()
unfoldable pub ref_at : IoBuf → ℕ → BlockRef
ref_at (small r0 r1) i = small_at r0 r1 i
ref_at (big v) i = ring_ref_at v i

unfoldable pub front_ref : IoBuf → BlockRef
front_ref (small r0 r1) = r0
front_ref (big v) = get_or v.refs v.start null_ref

unfoldable pub back_ref : IoBuf → BlockRef
back_ref (small r0 r1) = if r1.block == 0 then r0 else r1
back_ref (big v) = ring_ref_at v (v.nref - 1)

-- The references in order: what the two views stand for.
unfoldable pub ref_list : IoBuf → List BlockRef
ref_list (small r0 r1) =
    if r0.block == 0 then [] else if r1.block == 0 then r0 ∷ [] else r0 ∷ r1 ∷ []
ref_list (big v) = collect (ring_ref_at v) v.nref

unfoldable pub total : List BlockRef → ℕ
total [] = 0
total (r ∷ rs) = r.length + total rs

-- A reference to a block, whose bytes have 32-bit positions.
pub record IsRef (r : BlockRef) : Type 0 where
  pub to_block : r.block ≢ 0
  pub in_word : r.offset + r.length < 2 ^ 32

-- The ring has a power of two of places, three or more of them taken.
pub record IsRing (v : BigView) : Type 0 where
  pub bits : ℕ
  pub power : v.cap_mask + 1 ≡ 2 ^ bits
  pub in_word : v.cap_mask + 1 ≤ 2 ^ 31
  pub room : length v.refs ≡ v.cap_mask + 1
  pub start_in : v.start < v.cap_mask + 1
  pub many : 2 < v.nref
  pub fits : v.nref ≤ v.cap_mask + 1
  pub counted : v.nbytes ≡ total (collect (ring_ref_at v) v.nref)

abbrev pub HasShape : IoBuf → Type 0
HasShape (small r0 r1) =
    ((r0 ≡ null_ref) × (r1 ≡ null_ref))
    ⊎ ((r0.block ≢ 0) × (r1 ≡ null_ref))
    ⊎ ((r0.block ≢ 0) × (r1.block ≢ 0))
HasShape (big v) = IsRing v

-- A well-formed buffer of fewer than 2^32 bytes.
pub record IsValid (b : IoBuf) : Type 0 where
  pub shape : HasShape b
  pub each : All IsRef (ref_list b)
  pub bounded : total (ref_list b) < 2 ^ 32
