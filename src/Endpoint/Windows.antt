-- ===== src/Endpoint/Windows.antt =====
-- Sequences of sends and completions: what the send windows count.
use light_rpc.Prelude.{
  ℕ, zero, suc, ◌+◌, ◌/◌, ◌^◌, ◌≤◌, ◌<◌, ◌≡◌, ◌≢◌, refl, sym, ap, ap₂, subst, ◌∙◌, ◌⊎◌, inl, inr,
  Bool, true, false, Bool-cases, List, [], ◌∷◌, ◌++◌, append-nil, Option, arith,
}
use light_rpc.Prelude.Bits.{int_lt, add32}
use light_rpc.Endpoint.{
  Flow, SendWr, data_wr, Effect, reserved_wr_num, int_div, release_slots, post_data, wake_if,
  batch_sent, Completion, send_done, recv_done, handle_completion,
}
use light_rpc.Endpoint.Posting.{
  signaled_of, batch, acks, is_ack, batch-append, acks-append, signaled_of-append,
  signaled_of-wake_if, OnlyAcks, send_ack-OnlyAcks, received-OnlyAcks, Released,
  release_slots-Released,
}

-- `out` has the identifiers of the signaled work requests that are out, the first posted first.
pub record IsWindowed (f : Flow) (out : List ℕ) : Type 0 where
  pub some_capacity : 4 ≤ f.local_capacity
  pub fits : f.local_capacity ≤ f.sbuf_size
  pub size : f.sbuf_size < 2 ^ 16
  pub window : f.sq_window + f.sq_unsignaled + batch out ≡ f.local_capacity
  pub signaled : f.sq_unsignaled < f.local_capacity / 4
  pub imm_window : f.sq_imm_window + acks out ≡ reserved_wr_num
  pub current : f.sq_current < f.sbuf_size
  pub sent : f.sq_sent < f.sbuf_size
  pub ring :
      (f.sq_current ≡ f.sq_sent + (f.sq_unsignaled + batch out))
      ⊎ (f.sq_current + f.sbuf_size ≡ f.sq_sent + (f.sq_unsignaled + batch out))

module _ (post : SendWr → Bool) (next_ok : ℕ → Bool) (post_recv : ℕ → Bool) (zerocopy_min : ℕ) where
  abbrev pub handled : Completion → Flow → Option ℕ × Flow × List Effect
  handled wc f = handle_completion post next_ok post_recv zerocopy_min wc f

  -- A round of a write, the completion of the first work request that is out, and a receive.
  pub data Step : Flow → List ℕ → Flow → List ℕ → Type 0 where
    send :
        (last : Bool) (f : Flow) (out : List ℕ)
        → f.sq_window ≢ 0
        → f.remote_rq_window ≢ 0
        → (post_data post last f).0 ≡ true
        → Step f out (post_data post last f).1 (out ++ signaled_of (post_data post last f).2)
    complete :
        (wr_id : ℕ) (f : Flow) (out : List ℕ)
        → Step f
            (wr_id ∷ out)
            (handled (send_done wr_id) f).1
            (out ++ signaled_of (handled (send_done wr_id) f).2)
    receive :
        (byte_len : ℕ) (with_imm : Bool) (imm_data : ℕ) (f : Flow) (out : List ℕ)
        → Step f out
            (handled (recv_done byte_len with_imm imm_data) f).1
            (out ++ signaled_of (handled (recv_done byte_len with_imm imm_data) f).2)

  pub data Reach (f : Flow) (out : List ℕ) : Flow → List ℕ → Type 0 where
    here : Reach f out f out
    next : {g h : Flow} {gs hs : List ℕ} → Reach f out g gs → Step g gs h hs → Reach f out h hs

-- Acknowledgements alone.
acked :
    (f f' : Flow) (es : List Effect) (out : List ℕ)
    → OnlyAcks f f' es
    → IsWindowed f out
    → IsWindowed f' (out ++ signaled_of es)
acked f f' es out d v =
    let b = batch-append out (signaled_of es) in
    let a = acks-append out (signaled_of es) in
    let c = d.same.capacity in
    let w = d.same.window in
    let z = d.same.size in
    let u = d.same.unsignaled in
    let cur = d.same.current in
    let sent = d.same.sent in
    record {
      some_capacity = omega (arith, v.some_capacity, c);
      fits = omega (arith, v.fits, c, z);
      size = omega (arith, v.size, z);
      window = omega (arith, v.window, b, d.none_else, c, w, u);
      signaled = omega (arith, v.signaled, c, u);
      imm_window = omega (arith, v.imm_window, a, d.window);
      current = omega (arith, v.current, cur, z);
      sent = omega (arith, v.sent, sent, z);
      ring = omega (arith, v.ring, b, d.none_else, cur, sent, u, z);
    }

none_more : {f : Flow} {out xs : List ℕ} → xs ≡ [] → IsWindowed f out → IsWindowed f (out ++ xs)
none_more {f} {out} {xs} e v = subst (IsWindowed f) (sym (ap (λ l. out ++ l) e ∙ append-nil out)) v

batch_back :
    (n : ℕ) (f g : Flow) (es : List Effect) (woken : Bool) (out : List ℕ)
    → IsWindowed f (suc n ∷ out)
    → Released (suc n) f g es
    → IsWindowed
        (record g { sq_window = add32 f.sq_window (suc n) })
        (out ++ signaled_of (es ++ wake_if woken))
unfolding batch acks
batch_back n f g es woken out v d =
    let none_sent =
      signaled_of-append es (wake_if woken) ∙ ap₂ ◌++◌ d.none_sent (signaled_of-wake_if woken) in
    none_more none_sent (
      subst (λ (x : Flow). IsWindowed (record x { sq_window = add32 f.sq_window (suc n) }) out)
        (sym d.flow)
        (record {
          some_capacity = v.some_capacity;
          fits = v.fits;
          size = v.size;
          window = omega (arith, v.window, v.fits, v.size);
          signaled = v.signaled;
          imm_window = omega (arith, v.imm_window);
          current = v.current;
          sent = d.bound;
          ring = omega (arith, v.ring, d.moved, d.bound, v.current, v.window, v.fits);
        }))

sent_batch :
    (n : ℕ) (f : Flow) (out : List ℕ)
    → IsWindowed f (suc n ∷ out)
    → let (f', es) = batch_sent (suc n) f in IsWindowed f' (out ++ signaled_of es)
unfolding batch_sent batch
sent_batch n f out v =
    batch_back n f (release_slots (suc n) f).0 (release_slots (suc n) f).1 _ out v
      (release_slots-Released (suc n) f v.sent (omega (arith, v.window, v.fits)))

is_ack_pos : (w : ℕ) → 0 < w → is_ack w ≡ 0
is_ack_pos zero h = absurd (omega arith)
is_ack_pos (suc w) h = refl

sent_data :
    (post : SendWr → Bool) (last : Bool) (f : Flow) (out : List ℕ)
    → f.sq_window ≢ 0
    → IsWindowed f out
    → (post_data post last f).0 ≡ true
    → IsWindowed (post_data post last f).1 (out ++ signaled_of (post_data post last f).2)
unfolding post_data signaled_of batch acks
sent_data post last f out h v ok = elim (Bool-cases (post (data_wr last f))) [
  | inr bad ↦ absurd (not_posted ok bad)
  | inl good ↦ elim (Bool-cases (int_lt (add32 f.sq_unsignaled 1) (int_div f.local_capacity 4))) [
    | inl later ↦
        rw (good, later)
          (none_more refl (record {
            some_capacity = v.some_capacity;
            fits = v.fits;
            size = v.size;
            window = omega (arith, v.window, v.fits, v.size, h);
            signaled = ground (arith, v.fits, v.size, v.signaled);
            imm_window = v.imm_window;
            current = ground (arith, v.current);
            sent = v.sent;
            ring = ground (arith, v.ring, v.current, v.window, v.fits, v.size, v.sent);
          }))
    | inr now ↦
        let x = add32 f.sq_unsignaled 1 in
        let b = batch-append out (x ∷ []) in
        let a = acks-append out (x ∷ []) in
        rw (good, now)
          (record {
            some_capacity = v.some_capacity;
            fits = v.fits;
            size = v.size;
            window = omega (arith, v.window, v.fits, v.size, h, b);
            signaled = omega (arith, v.some_capacity);
            imm_window =
                omega (
                  arith,
                  v.imm_window,
                  a,
                  is_ack_pos x (omega (arith, v.signaled, v.fits, v.size)),
                );
            current = ground (arith, v.current);
            sent = v.sent;
            ring = ground (arith, v.ring, v.current, v.window, v.fits, v.size, v.sent, b);
          })
  ]
]
  where
    not_posted : (post_data post last f).0 ≡ true → post (data_wr last f) ≡ false → ⊥
    not_posted ok bad = let failed : (post_data post last f).0 ≡ false = rw bad refl in absurd cc

module _ (post : SendWr → Bool) (next_ok : ℕ → Bool) (post_recv : ℕ → Bool) (zerocopy_min : ℕ) where
  Step-IsWindowed :
      {f : Flow} {out : List ℕ} {f' : Flow} {out' : List ℕ}
      → Step post next_ok post_recv zerocopy_min f out f' out'
      → IsWindowed f out
      → IsWindowed f' out'
  unfolding handle_completion batch acks
  Step-IsWindowed (send last f out h k ok) v = sent_data post last f out h v ok
  Step-IsWindowed (complete zero f out) v =
      let back : IsWindowed (record f { sq_imm_window = add32 f.sq_imm_window 1 }) out = record {
        some_capacity = v.some_capacity;
        fits = v.fits;
        size = v.size;
        window = omega (arith, v.window);
        signaled = v.signaled;
        imm_window = omega (arith, v.imm_window);
        current = v.current;
        sent = v.sent;
        ring = omega (arith, v.ring);
      } in
      acked _ _ _ out (send_ack-OnlyAcks post 0 _ (omega (arith, v.imm_window))) back
  Step-IsWindowed (complete (suc n) f out) v = sent_batch n f out v
  Step-IsWindowed (receive byte_len with_imm imm_data f out) v =
      acked _ _ _ out
        (received-OnlyAcks post next_ok post_recv zerocopy_min byte_len with_imm imm_data f
          (omega (arith, v.imm_window)))
        v

  -- After any sequence of sends, of completions in the order of posting and of receives, the slots of
  -- the window, those of sends whose completion is not asked for yet and those of the batches that
  -- are out add up to the capacity; the acknowledgements that are out and their window add up to the
  -- reserved three; and the ring of send buffers, whose first busy slot is `sq_sent`, has exactly the
  -- busy slots up to `sq_current`, so that no buffer is overwritten before its send is done. It
  -- supposes the same at the start.
  pub Reach-IsWindowed :
      {f : Flow} {out : List ℕ} {f' : Flow} {out' : List ℕ}
      → IsWindowed f out
      → Reach post next_ok post_recv zerocopy_min f out f' out'
      → IsWindowed f' out'
  Reach-IsWindowed v here = v
  Reach-IsWindowed v (next steps step) = Step-IsWindowed step (Reach-IsWindowed v steps)

  -- A sender whose send window is used up is never stuck: a batch with some sends is out, whose
  -- completion gives slots back.
  pub Reach-window_returns :
      {f : Flow} {out : List ℕ} {f' : Flow} {out' : List ℕ}
      → IsWindowed f out
      → Reach post next_ok post_recv zerocopy_min f out f' out'
      → (0 < f'.sq_window) ⊎ (0 < batch out')
  Reach-window_returns v steps = let w = Reach-IsWindowed v steps in window_or_batch w
    where
      window_or_batch :
          {f : Flow} {out : List ℕ} → IsWindowed f out → (0 < f.sq_window) ⊎ (0 < batch out)
      window_or_batch w = omega (arith, w.window, w.signaled, w.some_capacity)
