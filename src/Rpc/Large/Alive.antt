-- ===== src/Rpc/Large/Alive.antt =====
-- The messages of a large transfer do not fail the endpoint.
use light_rpc.Prelude.{
  ℕ, ◌≡◌, refl, ◌∙◌, Bool, true, false, List, Option, none, some, if_both, arith,
}
use light_rpc.Rpc.Large.{
  LargeMr, Segment, LargeWrite, Conn, Env, start_write, post_large_write_recv, post,
  cut_seg_from_iobuf, permit, on_notify, after_post, transfer, on_authority, scatter_list, max_sge,
  release_large_frame, on_large_transfer_complete,
}

module _ (env : Env) where
  pub start_write-failed :
      (frame : List ℕ) (c : Conn) → (start_write env frame c).1.failed ≡ c.failed
  unfolding start_write
  start_write-failed frame c = ground arith

  post_recv-failed : (mr : LargeMr) (c : Conn) → (post_large_write_recv env mr c).failed ≡ c.failed
  unfolding post_large_write_recv
  post_recv-failed mr c = ground arith

  permit-failed :
      (o : Option LargeMr) (rpc_id : ℕ) (c : Conn) → (permit env o rpc_id c).1.failed ≡ c.failed
  permit-failed none rpc_id c = refl
  permit-failed (some mr) rpc_id c = start_write-failed _ _ ∙ post_recv-failed mr c

  pub on_notify-failed : (rpc_id n : ℕ) (c : Conn) → (on_notify env rpc_id n c).1.failed ≡ c.failed
  unfolding on_notify
  on_notify-failed rpc_id n c = permit-failed _ rpc_id c

  post-failed :
      (o : Option (List ℕ)) (wr : List ℕ → LargeWrite) (c : Conn)
      → (post env o wr c).1.failed ≡ c.failed
  post-failed none wr c = refl
  post-failed (some b) wr c = ground arith

  cut_seg-failed :
      (buf : List Segment) (k a i r : ℕ) (c : Conn)
      → (cut_seg_from_iobuf env buf k a i r c).1.failed ≡ c.failed
  unfolding cut_seg_from_iobuf
  cut_seg-failed buf k a i r c =
      if_both (λ (w : Bool × Conn). w.1.failed ≡ c.failed) c.failed _ _ refl
        (post-failed (scatter_list max_sge buf) _ c)

  after_post-failed :
      (rpc_id : ℕ) (r : Bool × Conn) → (after_post env rpc_id r).1.failed ≡ r.1.failed
  unfolding on_large_transfer_complete release_large_frame
  after_post-failed rpc_id (true, c) = refl
  after_post-failed rpc_id (false, c) = refl

  transfer-failed :
      (o : Option (List Segment)) (rpc_id k a : ℕ) (c : Conn)
      → (transfer env o rpc_id k a c).1.failed ≡ c.failed
  transfer-failed none rpc_id k a c = refl
  transfer-failed (some f) rpc_id k a c =
      after_post-failed rpc_id _ ∙ cut_seg-failed f k a k rpc_id c

  pub on_authority-failed :
      (rpc_id k a : ℕ) (c : Conn) → (on_authority env rpc_id k a c).1.failed ≡ c.failed
  unfolding on_authority
  on_authority-failed rpc_id k a c = transfer-failed _ rpc_id k a c
