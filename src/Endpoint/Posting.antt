-- ===== src/Endpoint/Posting.antt =====
-- What one operation does to the send windows and to the work requests that are out.
use light_rpc.Prelude.{
  ℕ, zero, suc, ◌+◌, ◌≤◌, ◌<◌, ◌≡◌, refl, sym, ap, ap₂, ◌∙◌, ◌⊎◌, inl, inr, Bool, true, false, ◌&&◌,
  ◌||◌, Bool-cases, List, [], ◌∷◌, ◌++◌, append_assoc, ltb, leb, ◌==◌, if◌then◌else◌, arith,
}
use light_rpc.Prelude.Bits.{int_lt, add32}
use light_rpc.Endpoint.{
  Flow, SendWr, Effect, int_div, htonl_word, next_slot, post_send, post_receive, clear_sbuf,
  clear_rbuf, cut_rbuf, copy_rbuf, wake_for_writable, release_slots, send_imm, send_ack, wake_if,
  take_credits, post_recv_loop, post_recv_wrs, take_bytes, ack_recv, received,
}

abbrev pub id_of : SendWr → List ℕ
id_of wr = if wr.signaled then wr.wr_id ∷ [] else []

-- The identifiers of the signaled work requests that are posted, in order.
unfoldable pub signaled_of : List Effect → List ℕ
signaled_of [] = []
signaled_of (post_send wr ∷ es) = id_of wr ++ signaled_of es
signaled_of (post_receive slot z ∷ es) = signaled_of es
signaled_of (clear_sbuf slot ∷ es) = signaled_of es
signaled_of (clear_rbuf slot ∷ es) = signaled_of es
signaled_of (cut_rbuf slot n ∷ es) = signaled_of es
signaled_of (copy_rbuf slot n ∷ es) = signaled_of es
signaled_of (wake_for_writable ∷ es) = signaled_of es

-- The data that identifiers stand for, and how many are of pure acknowledgements.
unfoldable pub batch : List ℕ → ℕ
batch [] = 0
batch (w ∷ ws) = w + batch ws

abbrev pub is_ack : ℕ → ℕ
is_ack zero = 1
is_ack (suc n) = 0

unfoldable pub acks : List ℕ → ℕ
acks [] = 0
acks (w ∷ ws) = is_ack w + acks ws

pub batch-append : (xs ys : List ℕ) → batch (xs ++ ys) ≡ batch xs + batch ys
unfolding batch
batch-append [] ys = omega arith
batch-append (x ∷ xs) ys = omega (arith, batch-append xs ys)

pub acks-append : (xs ys : List ℕ) → acks (xs ++ ys) ≡ acks xs + acks ys
unfolding acks
acks-append [] ys = omega arith
acks-append (x ∷ xs) ys = omega (arith, acks-append xs ys)

pub signaled_of-append :
    (es fs : List Effect) → signaled_of (es ++ fs) ≡ signaled_of es ++ signaled_of fs
unfolding signaled_of
signaled_of-append [] fs = refl
signaled_of-append (post_send wr ∷ es) fs =
    ap (λ l. id_of wr ++ l) (signaled_of-append es fs)
    ∙ sym (append_assoc (id_of wr) (signaled_of es) (signaled_of fs))
signaled_of-append (post_receive slot z ∷ es) fs = signaled_of-append es fs
signaled_of-append (clear_sbuf slot ∷ es) fs = signaled_of-append es fs
signaled_of-append (clear_rbuf slot ∷ es) fs = signaled_of-append es fs
signaled_of-append (cut_rbuf slot n ∷ es) fs = signaled_of-append es fs
signaled_of-append (copy_rbuf slot n ∷ es) fs = signaled_of-append es fs
signaled_of-append (wake_for_writable ∷ es) fs = signaled_of-append es fs

-- The fields of the send windows of data stay.
pub record Same (f f' : Flow) : Type 0 where
  pub capacity : f'.local_capacity ≡ f.local_capacity
  pub window : f'.sq_window ≡ f.sq_window
  pub size : f'.sbuf_size ≡ f.sbuf_size
  pub current : f'.sq_current ≡ f.sq_current
  pub sent : f'.sq_sent ≡ f.sq_sent
  pub unsignaled : f'.sq_unsignaled ≡ f.sq_unsignaled

-- Only acknowledgements are posted, each out of the window for these.
pub record OnlyAcks (f : Flow) (f' : Flow) (es : List Effect) : Type 0 where
  pub same : Same f f'
  pub none_else : batch (signaled_of es) ≡ 0
  pub window : f'.sq_imm_window + acks (signaled_of es) ≡ f.sq_imm_window

Same-trans : {f g h : Flow} → Same f g → Same g h → Same f h
Same-trans d e = record {
  capacity = e.capacity ∙ d.capacity;
  window = e.window ∙ d.window;
  size = e.size ∙ d.size;
  current = e.current ∙ d.current;
  sent = e.sent ∙ d.sent;
  unsignaled = e.unsignaled ∙ d.unsignaled;
}

Same-refl : {f : Flow} → Same f f
Same-refl = record {
  capacity = refl;
  window = refl;
  size = refl;
  current = refl;
  sent = refl;
  unsignaled = refl;
}

pub send_ack-OnlyAcks :
    (post : SendWr → Bool) (num : ℕ) (f : Flow)
    → f.sq_imm_window ≤ 3
    → let (ok, f', es) = send_ack post num f in OnlyAcks f f' es
unfolding send_ack send_imm signaled_of batch acks
send_ack-OnlyAcks post num f h =
    elim (Bool-cases (int_lt (int_div f.remote_capacity 2) (add32 f.new_rq_wrs num))) [
      | inr few ↦ rw few (record { same = same; none_else = refl; window = omega arith })
      | inl many ↦ elim (Bool-cases (int_lt 0 f.sq_imm_window)) [
        | inr full ↦
            rw (many, full) (record { same = same; none_else = refl; window = omega arith })
        | inl room ↦ elim (Bool-cases (add32 f.new_rq_wrs num == 0)) [
          | inl zero_acks ↦
              rw (many, room, zero_acks)
                (record { same = same; none_else = refl; window = omega arith })
          | inr some_acks ↦ elim (Bool-cases (post (wr (add32 f.new_rq_wrs num)))) [
            | inl ok ↦
                rw (many, room, some_acks, ok)
                  (record { same = same; none_else = refl; window = ground arith })
            | inr bad ↦
                rw (many, room, some_acks, bad)
                  (record { same = same; none_else = refl; window = omega arith })
          ]
        ]
      ]
    ]
  where
    wr : ℕ → SendWr
    wr imm = record { imm_data = htonl_word imm; solicited = true; signaled = true; wr_id = 0 }

    same : {w n : ℕ} → Same f (record f { sq_imm_window = w; new_rq_wrs = n })
    same = record {
      capacity = refl;
      window = refl;
      size = refl;
      current = refl;
      sent = refl;
      unsignaled = refl;
    }

-- A receive posted again changes no send window.
record OnlyReceives (f f' : Flow) (es : List Effect) : Type 0 where
  same : Same f f'
  window : f'.sq_imm_window ≡ f.sq_imm_window
  none_sent : signaled_of es ≡ []

post_recv_wrs-OnlyReceives :
    (next_ok : ℕ → Bool) (post_recv : ℕ → Bool) (zerocopy : Bool) (f : Flow)
    → let (ok, f', es) = post_recv_wrs next_ok post_recv 1 zerocopy f in OnlyReceives f f' es
unfolding post_recv_loop signaled_of
post_recv_wrs-OnlyReceives next_ok post_recv zerocopy f = elim (Bool-cases zerocopy) [
  | inl z ↦ elim (Bool-cases (next_ok f.rq_received)) [
    | inr e ↦ rw (z, e) (record { same = Same-refl; window = refl; none_sent = refl })
    | inl e ↦ elim (Bool-cases (post_recv f.rq_received)) [
      | inr bad ↦ rw (z, e, bad) (record { same = Same-refl; window = refl; none_sent = refl })
      | inl ok ↦ rw (z, e, ok) (record { same = same; window = refl; none_sent = refl })
    ]
  ]
  | inr z ↦ elim (Bool-cases (post_recv f.rq_received)) [
    | inr bad ↦ rw (z, bad) (record { same = Same-refl; window = refl; none_sent = refl })
    | inl ok ↦ rw (z, ok) (record { same = same; window = refl; none_sent = refl })
  ]
]
  where
    same : {i n : ℕ} → Same f (record f { rq_received = i; new_rq_wrs = n })
    same = record {
      capacity = refl;
      window = refl;
      size = refl;
      current = refl;
      sent = refl;
      unsignaled = refl;
    }

pub signaled_of-wake_if : (b : Bool) → signaled_of (wake_if b) ≡ []
unfolding signaled_of
signaled_of-wake_if true = refl
signaled_of-wake_if false = refl

take_credits-OnlyReceives :
    (with_imm : Bool) (imm_data : ℕ) (f : Flow)
    → let (f', es) = take_credits with_imm imm_data f in OnlyReceives f f' es
unfolding take_credits signaled_of
take_credits-OnlyReceives with_imm imm_data f = elim (Bool-cases (with_imm && ltb 0 imm_data)) [
  | inr e ↦ rw e (record { same = Same-refl; window = refl; none_sent = refl })
  | inl e ↦ rw e (record { same = same; window = refl; none_sent = signaled_of-wake_if _ })
]
  where
    same : {n : ℕ} → Same f (record f { remote_rq_window = n })
    same = record {
      capacity = refl;
      window = refl;
      size = refl;
      current = refl;
      sent = refl;
      unsignaled = refl;
    }

signaled_of-take_bytes :
    (byte_len : ℕ) (zerocopy : Bool) (f : Flow) → signaled_of (take_bytes byte_len zerocopy f) ≡ []
unfolding signaled_of
signaled_of-take_bytes byte_len zerocopy f = elim (Bool-cases (byte_len == 0)) [
  | inl e ↦ rw e refl
  | inr e ↦ rw e (by_copy zerocopy)
]
  where
    by_copy :
        (z : Bool)
        → signaled_of (
            if z
            then cut_rbuf f.rq_received byte_len ∷ []
            else copy_rbuf f.rq_received byte_len ∷ [])
          ≡ []
    by_copy true = refl
    by_copy false = refl

ack_recv-OnlyAcks :
    (post : SendWr → Bool) (next_ok : ℕ → Bool) (post_recv : ℕ → Bool) (zerocopy_min byte_len : ℕ)
    (before : List Effect) (f g : Flow) (ok : Bool) (h : Flow) (es : List Effect)
    → signaled_of before ≡ []
    → OnlyReceives f g []
    → OnlyReceives g h es
    → f.sq_imm_window ≤ 3
    → let (r, f', es') = ack_recv post next_ok post_recv zerocopy_min byte_len before (ok, h, es) in
      OnlyAcks f f' es'
unfolding batch acks
ack_recv-OnlyAcks post next_ok post_recv zerocopy_min byte_len before f g false h es b d e i =
    let none_sent : signaled_of (before ++ es) ≡ [] =
      signaled_of-append before es ∙ ap₂ ◌++◌ b e.none_sent in
    record {
      same = Same-trans d.same e.same;
      none_else = ap batch none_sent;
      window = omega (arith, ap acks none_sent, d.window, e.window);
    }
ack_recv-OnlyAcks post next_ok post_recv zerocopy_min zero before f g true h es b d e i =
    let none_sent : signaled_of (before ++ es) ≡ [] =
      signaled_of-append before es ∙ ap₂ ◌++◌ b e.none_sent in
    record {
      same = Same-trans d.same e.same;
      none_else = ap batch none_sent;
      window = omega (arith, ap acks none_sent, d.window, e.window);
    }
ack_recv-OnlyAcks post next_ok post_recv zerocopy_min (suc n) before f g true h es b d e i =
    let acked = send_ack-OnlyAcks post 1 h (omega (arith, d.window, e.window)) in
    let effects = (send_ack post 1 h).2 in
    let none_sent : signaled_of (before ++ es) ≡ [] =
      signaled_of-append before es ∙ ap₂ ◌++◌ b e.none_sent in
    let sent : signaled_of (before ++ es ++ effects) ≡ signaled_of effects =
      signaled_of-append (before ++ es) effects ∙ ap (λ l. l ++ signaled_of effects) none_sent in
    let some_bytes : (suc n == 0) ≡ false = ground arith in
    rw some_bytes (record {
      same = Same-trans (Same-trans d.same e.same) acked.same;
      none_else = ap batch sent ∙ acked.none_else;
      window = omega (arith, ap acks sent, acked.window, d.window, e.window);
    })

pub received-OnlyAcks :
    (post : SendWr → Bool) (next_ok : ℕ → Bool) (post_recv : ℕ → Bool) (zerocopy_min byte_len : ℕ)
    (with_imm : Bool) (imm_data : ℕ) (f : Flow)
    → f.sq_imm_window ≤ 3
    → let (r, f', es) = received post next_ok post_recv zerocopy_min byte_len with_imm imm_data f in
      OnlyAcks f f' es
unfolding signaled_of
received-OnlyAcks post next_ok post_recv zerocopy_min byte_len with_imm imm_data f i =
    let zerocopy = byte_len == 0 || leb zerocopy_min byte_len in
    let before = take_bytes byte_len zerocopy f ++ (take_credits with_imm imm_data f).1 in
    let credited = take_credits-OnlyReceives with_imm imm_data f in
    let g = (take_credits with_imm imm_data f).0 in
    let posted = post_recv_wrs next_ok post_recv 1 zerocopy g in
    ack_recv-OnlyAcks post next_ok post_recv zerocopy_min byte_len before f g posted.0 posted.1
      posted.2
      (signaled_of-append (take_bytes byte_len zerocopy f) (take_credits with_imm imm_data f).1
        ∙ ap₂ ◌++◌ (signaled_of-take_bytes byte_len zerocopy f) credited.none_sent)
      (record { same = credited.same; window = credited.window; none_sent = refl })
      (post_recv_wrs-OnlyReceives next_ok post_recv zerocopy g) i

-- The slots of a batch are released one after the other round the ring.
pub record Released (n : ℕ) (f f' : Flow) (es : List Effect) : Type 0 where
  pub slot : ℕ
  pub flow : f' ≡ record f { sq_sent = slot }
  pub bound : slot < f.sbuf_size
  pub moved : (slot ≡ f.sq_sent + n) ⊎ (slot + f.sbuf_size ≡ f.sq_sent + n)
  pub none_sent : signaled_of es ≡ []

pub release_slots-Released :
    (n : ℕ) (f : Flow)
    → f.sq_sent < f.sbuf_size
    → n ≤ f.sbuf_size
    → let (f', es) = release_slots n f in Released n f f' es
unfolding release_slots signaled_of
release_slots-Released zero f h k = record {
  slot = f.sq_sent;
  flow = refl;
  bound = h;
  moved = omega arith;
  none_sent = refl;
}
release_slots-Released (suc n) f h k =
    let inside : ltb f.sq_sent f.sbuf_size ≡ true = ground arith in
    let s = next_slot f.sq_sent f.sbuf_size in
    let later = release_slots-Released n (record f { sq_sent = s }) (ground arith) (omega arith) in
    rw inside (record {
      slot = later.slot;
      flow = later.flow;
      bound = later.bound;
      moved = ground (arith, later.moved, later.bound);
      none_sent = later.none_sent;
    })
