-- ===== src/Endpoint/SgList/Gather.antt =====
-- The inner loop of CutFromIOBufList (src-endpoint/fast_rdma_endpoint.cc): buffers are cut, one after the
-- other, into the entries of one work request.
pub mod Bytes
pub mod Rounds
use light_rpc.Prelude.{
  ℕ, zero, suc, ◌+◌, ◌-◌, ◌^◌, ◌≤◌, ◌<◌, ◌≡◌, ◌≢◌, refl, sym, ap, ap₂, subst, ◌∙◌, ◌⊎◌, inl, inr,
  Bool, true, false, ◌||◌, Bool-cases, List, [], ◌∷◌, ◌++◌, All, append-nil, append_assoc, Option,
  none, some, length, length-append, length-take, length-drop, take, drop, take-append-drop, ltb,
  leb, ◌==◌, if◌then◌else◌, arith,
}
use light_rpc.Prelude.Bits.{add64, sub64}
use light_rpc.IoBuf.Store.{Store}
use light_rpc.IoBuf.View.{
  BlockRef, IoBuf, ref_num, is_empty, ref_list, total, IsValid, HasShape, small, big,
}
use light_rpc.IoBuf.Bytes.{length-bytes_of, bytes_of}
use light_rpc.IoBuf.Cut.Drops.{contents}
use light_rpc.Endpoint.SgList.{Sge, SgCut, cut_into_sglist}
use light_rpc.Endpoint.SgList.Moved.{
  Moved, sge_total, HasKey, Cuttable, cut_into_sglist-Moved, contents-total,
}

-- `from` has the buffers from the current one on.
pub record Gathered : Type 0 where
  pub ok : Bool
  pub sges : List Sge
  pub len : ℕ
  pub from : List IoBuf
  pub out : IoBuf
  pub store : Store

abbrev pub with_sges : List Sge → Option Gathered → Option Gathered
with_sges es none = none
with_sges es (some g) = some (record g { sges = es ++ g.sges })

abbrev pub after_cut :
    List IoBuf
    → ℕ
    → Option SgCut
    → (ℕ → ℕ → List IoBuf → IoBuf → Store → Option Gathered)
    → Option Gathered
after_cut bs len none next = none
after_cut bs len (some c) next =
    if c.ok
    then with_sges c.sges (next (length c.sges) (add64 len c.len) (c.self ∷ bs) c.out c.store)
    else some (record {
      ok = false;
      sges = c.sges;
      len = len;
      from = c.self ∷ bs;
      out = c.out;
      store = c.store;
    })

module _ (data_at : ℕ → ℕ) (region_id : ℕ → ℕ) (block_size : ℕ) where
  -- `slots` entries are left; `fuel` bounds the rounds.
  unfoldable pub gather : ℕ → ℕ → ℕ → List IoBuf → IoBuf → Store → Option Gathered
  gather zero slots len from out s = none
  gather (suc fuel) slots len [] out s =
      some (record { ok = true; sges = []; len = len; from = []; out = out; store = s })
  gather (suc fuel) slots len (b ∷ bs) out s =
      let skipped = gather fuel slots len bs out s in
      let cut =
        after_cut bs len (cut_into_sglist data_at region_id slots (sub64 block_size len) 0 b out s)
          (λ used. gather fuel (slots - used)) in
      if slots == 0 || leb block_size len
      then some (record { ok = true; sges = []; len = len; from = b ∷ bs; out = out; store = s })
      else if is_empty b
      then skipped
      else cut
