-- ===== src/Endpoint/SgList.antt =====
-- RdmaIOBuf::cut_into_sglist_and_iobuf (src-endpoint/fast_rdma_endpoint.cc): the references of a buffer
-- become the entries of a scatter list, and move to the buffer of the send slot. `data_at` is the address
-- of a block's memory, and `region_id` is GetRegionId. The outer Option is that of the loop of `cutn`.
pub mod Moved
pub mod Gather
mod Tests
use light_rpc.Prelude.{
  ℕ, zero, suc, ◌+◌, ◌-◌, ◌%◌, ◌^◌, Bool, true, false, ◌||◌, List, [], ◌∷◌, Option, none, some, ltb,
  leb, ◌==◌, if◌then◌else◌,
}
use light_rpc.Prelude.Bits.{add64}
use light_rpc.IoBuf.Store.{Store}
use light_rpc.IoBuf.View.{BlockRef, IoBuf, ref_num, ref_at, front_ref, is_empty}
use light_rpc.IoBuf.Cut.{Cut, cutn}

-- An `ibv_sge`.
pub record Sge : Type 0 where
  pub addr : ℕ
  pub length : ℕ
  pub lkey : ℕ

-- `ok` is false for the result -1; `sges` has the entries written, the first first.
pub record SgCut : Type 0 where
  pub ok : Bool
  pub sges : List Sge
  pub len : ℕ
  pub self : IoBuf
  pub out : IoBuf
  pub store : Store

abbrev pub with_sge : Sge → Option SgCut → Option SgCut
with_sge e none = none
with_sge e (some c) = some (record c { sges = e ∷ c.sges })

abbrev pub then_cut : Option (ℕ × Cut) → (IoBuf → IoBuf → Store → Option SgCut) → Option SgCut
then_cut none next = none
then_cut (some (n, c)) next = next c.self c.out c.store

-- The bytes of the front reference that still fit.
abbrev pub front_part : ℕ → ℕ → ℕ → ℕ
front_part max_len len n = if ltb max_len (add64 len n) then max_len - len else n

unfoldable pub fetch1 : (ℕ → ℕ) → IoBuf → ℕ
fetch1 data_at b = if is_empty b then 0 else data_at (front_ref b).block + (front_ref b).offset

module _ (data_at : ℕ → ℕ) (region_id : ℕ → ℕ) where
  abbrev pub sge_of : ℕ → ℕ → Sge
  sge_of start n = record { addr = start; length = n % 2 ^ 32; lkey = region_id start }

  -- For `slots` entries that are left, after `len` bytes.
  unfoldable pub cut_into_sglist : ℕ → ℕ → ℕ → IoBuf → IoBuf → Store → Option SgCut
  cut_into_sglist zero max_len len b out s =
      some (record { ok = true; sges = []; len = len; self = b; out = out; store = s })
  cut_into_sglist (suc slots) max_len len b out s =
      let start = fetch1 data_at b in
      let n = front_part max_len len (ref_at b 0).length in
      let rest = then_cut (cutn n b out s) (cut_into_sglist slots max_len (add64 len n)) in
      if leb max_len len || ref_num b == 0
      then some (record { ok = true; sges = []; len = len; self = b; out = out; store = s })
      else if region_id start == 0
      then some (record { ok = false; sges = []; len = len; self = b; out = out; store = s })
      else with_sge (sge_of start n) rest
