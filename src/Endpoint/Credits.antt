-- ===== src/Endpoint/Credits.antt =====
-- The windows that a handshake gives, and the credits that come with receives.
use light_rpc.Prelude.{
  ℕ, ◌^◌, ◌≤◌, ◌<◌, ◌≡◌, refl, ap, inl, inr, Bool, true, ◌&&◌, Bool-cases, [], Option, ltb, arith,
}
use light_rpc.Prelude.Bits.{add32}
use light_rpc.Hello.{HelloMessage}
use light_rpc.Endpoint.{
  Flow, QueueSizes, negotiate, resize_rings, htonl_word, ntohs_word, is_writable, take_credits,
}
use light_rpc.Endpoint.Windows.{IsWindowed}

-- Nothing was sent yet.
pub record IsFresh (f : Flow) : Type 0 where
  pub current : f.sq_current ≡ 0
  pub sent : f.sq_sent ≡ 0
  pub unsignaled : f.sq_unsignaled ≡ 0

-- Both sides of a connection after the handshake.
pub record Negotiated (f g : Flow) : Type 0 where
  pub windowed : IsWindowed f []
  pub writable : is_writable f ≡ true
  pub forth : f.local_capacity ≡ g.remote_capacity
  pub back : f.remote_capacity ≡ g.local_capacity
  pub many : 13 ≤ f.local_capacity

-- The sizes that a side announces.
abbrev pub announced : HelloMessage → QueueSizes
announced m = record { sq_size = m.sq_size; rq_size = m.rq_size }

-- Both handshakes come to the same.
abbrev params : HelloMessage → HelloMessage → Flow → Option Flow
params mine other f = resize_rings (announced mine) (negotiate (announced mine) other f)

-- The receiver swaps a half of the immediate's word, the sender swapped the whole: fewer than 65536
-- credits come out as none, so that the window for the remote receives stays as it is.
pub take_credits_lem :
    (credits : ℕ) (with_imm : Bool) (f : Flow)
    → credits < 2 ^ 16
    → f.remote_rq_window < 2 ^ 32
    → (take_credits with_imm (htonl_word credits) f).0 ≡ f
unfolding take_credits
take_credits_lem credits with_imm f h k =
    let lost : ntohs_word (htonl_word credits) ≡ 0 = omega arith in
    let same : add32 f.remote_rq_window (ntohs_word (htonl_word credits)) ≡ f.remote_rq_window =
      omega (arith, lost) in
    elim (Bool-cases (with_imm && ltb 0 (htonl_word credits))) [
      | inr e ↦ rw e refl
      | inl e ↦ rw e (ap (λ w. record f { remote_rq_window = w }) same)
    ]
