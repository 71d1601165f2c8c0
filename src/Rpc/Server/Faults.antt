-- ===== src/Rpc/Server/Faults.antt =====
-- Which frames `OnProcessRequest` reads within their bounds.
use light_rpc.Prelude.{
  ℕ, ◌+◌, ◌*◌, ◌^◌, ◌≤◌, ◌<◌, ◌≡◌, ◌≢◌, ◌↔◌, inl, inr, refl, sym, ap, ◌∙◌, false, Bool-cases, List,
  Option, none, some, ltb, ◌==◌, if◌then◌else◌, drop, length, length-drop, arith, ◌>>=◌,
}
use light_rpc.Hello.{ntohl_at}
use light_rpc.Rpc.{msg_notify, msg_authority, read32}
use light_rpc.Rpc.Words.{read32_long, read32_short}
use light_rpc.Rpc.Large.{Conn, Env, on_authority}
use light_rpc.Rpc.Service.{Protobuf, ServiceInfo}
use light_rpc.Rpc.Server.{
  Handled, on_normal, on_process_request, read_notify, read_authority, by_type, read_header, only,
}

-- The bytes that are read of a frame: four words, or six of an authority.
abbrev pub words_read : List ℕ → ℕ
words_read frame = if ntohl_at (drop 4 frame) == msg_authority then 24 else 16

some-none {ℓ} : {A : Type ℓ} {a : A} → some a ≢ none
some-none e = cc

-- The same test for three reads in a row, which begin a frame and an authority.
module _ {ℓ} {A : Type ℓ} (k : ℕ → ℕ → ℕ → List ℕ → Option A) where
  abbrev read3 : List ℕ → Option A
  read3 l = do x ← read32 l; y ← read32 x.1; z ← read32 y.1; k x.0 y.0 z.0 z.1

  pub read3_long :
      (l : List ℕ)
      → 12 ≤ length l
      → read3 l
        ≡ k
            (ntohl_at l)
            (ntohl_at (drop 4 l))
            (ntohl_at (drop 4 (drop 4 l)))
            (drop 4 (drop 4 (drop 4 l)))
  read3_long l h =
      rw
        (
          read32_long l (omega arith),
          read32_long (drop 4 l) (omega (arith, length-drop 4 l)),
          read32_long (drop 4 (drop 4 l))
              (omega (arith, length-drop 4 l, length-drop 4 (drop 4 l))),
        )
        refl

  pub read3_short : (l : List ℕ) → length l < 12 → read3 l ≡ none
  read3_short l h = elim (Bool-cases (ltb (length l) 4)) [
    | inl e ↦ rw (read32_short l (ground arith)) refl
    | inr e ↦
        let four : 4 ≤ length l = ground arith in
        let l1 = length-drop 4 l in
        elim (Bool-cases (ltb (length l) 8)) [
          | inl f ↦
              let lt : length l < 8 = ground arith in
              rw (read32_long l four, read32_short (drop 4 l) (omega arith)) refl
          | inr f ↦
              let ge : 8 ≤ length l = ground arith in
              let l2 = length-drop 4 (drop 4 l) in
              rw
                (
                  read32_long l four,
                  read32_long (drop 4 l) (omega arith),
                  read32_short (drop 4 (drop 4 l)) (omega arith),
                )
                refl
        ]
  ]

module _ {S M R : Type 0} (proto : Protobuf S M R) (env : Env) where
  -- What is left behind the header: four bytes, or twelve of an authority.
  abbrev words_left : ℕ → ℕ
  words_left msg_type = if msg_type == msg_authority then 12 else 4

  on_normal_iff :
      (services : List (List ℕ × ServiceInfo S)) (t rpc_id : ℕ) (l : List ℕ) (c : Conn)
      → (on_normal proto env services t rpc_id l c ≡ none) ↔ (length l < 4)
  unfolding on_normal
  on_normal_iff services t rpc_id l c = elim (Bool-cases (ltb (length l) 4)) [
    | inl e ↦ (λ p. ground arith, λ p. rw (read32_short l p) refl)
    | inr e ↦ (rw (read32_long l (ground arith)) (λ p. absurd (cc)), λ p. absurd (ground arith))
  ]

  read_notify_iff :
      (rpc_id : ℕ) (l : List ℕ) (c : Conn)
      → (read_notify proto env rpc_id l c ≡ none) ↔ (length l < 4)
  read_notify_iff rpc_id l c = elim (Bool-cases (ltb (length l) 4)) [
    | inl e ↦ (λ p. ground arith, λ p. rw (read32_short l p) refl)
    | inr e ↦ (rw (read32_long l (ground arith)) (λ p. absurd (cc)), λ p. absurd (ground arith))
  ]

  read_authority_iff :
      (rpc_id : ℕ) (l : List ℕ) (c : Conn)
      → (read_authority proto env rpc_id l c ≡ none) ↔ (length l < 12)
  read_authority_iff rpc_id l c = elim (Bool-cases (ltb (length l) 12)) [
    | inl e ↦ (λ p. ground arith, λ p. read3_short _ l p)
    | inr e ↦
        let ge : 12 ≤ length l = ground arith in
        let eq =
          read3_long
            (λ rkey hi lo r.
              some
                (only {S = S} {M = M} {R = R} (on_authority env rpc_id rkey (hi * 2 ^ 32 + lo) c)))
            l ge in
        (λ p. absurd (some-none (sym eq ∙ p)), λ p. absurd (ground arith))
  ]

  by_type_iff :
      (services : List (List ℕ × ServiceInfo S)) (t msg_type rpc_id : ℕ) (l : List ℕ) (c : Conn)
      → (by_type proto env services t msg_type rpc_id l c ≡ none) ↔ (length l < words_left msg_type)
  by_type_iff services t msg_type rpc_id l c = elim (Bool-cases (msg_type == msg_notify)) [
    | inl e ↦
        let other : (msg_type == msg_authority) ≡ false = ground arith in
        rw (e, other) (read_notify_iff rpc_id l c)
    | inr e ↦ elim (Bool-cases (msg_type == msg_authority)) [
      | inl f ↦ rw (e, f) (read_authority_iff rpc_id l c)
      | inr f ↦ rw (e, f) (on_normal_iff services t rpc_id l c)
    ]
  ]

  pub on_process_request_alive :
      (services : List (List ℕ × ServiceInfo S)) (c : Conn) (frame : List ℕ)
      → c.failed ≡ false
      → on_process_request proto env (some services) c frame
        ≡ read_header proto env services frame c
  unfolding on_process_request
  on_process_request_alive services c frame alive =
      ap (λ b. if b then some (only (false, c)) else read_header proto env services frame c) alive

  left_iff :
      (frame : List ℕ)
      → 12 ≤ length frame
      → (length (drop 4 (drop 4 (drop 4 frame))) < words_left (ntohl_at (drop 4 frame)))
        ↔ (length frame < words_read frame)
  left_iff frame h =
      let l1 = length-drop 4 frame in
      let l2 = length-drop 4 (drop 4 frame) in
      let l3 = length-drop 4 (drop 4 (drop 4 frame)) in
      let e : length (drop 4 (drop 4 (drop 4 frame))) + 12 ≡ length frame = omega arith in
      elim (Bool-cases (ntohl_at (drop 4 frame) == msg_authority)) [
        | inl f ↦ rw f (λ p. omega arith, λ p. omega arith)
        | inr f ↦ rw f (λ p. omega arith, λ p. omega arith)
      ]

  short_read : (frame : List ℕ) → length frame < 12 → length frame < words_read frame
  short_read frame h = elim (Bool-cases (ntohl_at (drop 4 frame) == msg_authority)) [
    | inl f ↦ rw f (omega arith)
    | inr f ↦ rw f (omega arith)
  ]

  -- With every word that is read in one block of the frame, `OnProcessRequest` reads outside of it, on
  -- a connection that has not failed, exactly when it has fewer than 16 bytes, or than 24 where its type is
  -- MSG_AUTHORITY.
  reads_iff :
      (services : List (List ℕ × ServiceInfo S)) (c : Conn) (frame : List ℕ)
      → c.failed ≡ false
      → (on_process_request proto env (some services) c frame ≡ none)
        ↔ (length frame < words_read frame)
  reads_iff services c frame alive =
      let live = on_process_request_alive services c frame alive in
      elim (Bool-cases (ltb (length frame) 12)) [
        | inl e ↦
            let lt : length frame < 12 = ground arith in
            (λ p. short_read frame lt, λ p. live ∙ read3_short (header services c) frame lt)
        | inr e ↦
            let ge : 12 ≤ length frame = ground arith in
            let eq = live ∙ read3_long (header services c) frame ge in
            let typed =
              by_type_iff services (ntohl_at frame) (ntohl_at (drop 4 frame))
                (ntohl_at (drop 4 (drop 4 frame))) (drop 4 (drop 4 (drop 4 frame))) c in
            let room = left_iff frame ge in
            (λ p. room.0 (typed.0 (sym eq ∙ p)), λ p. eq ∙ typed.1 (room.1 p))
      ]
    where
      header : List (List ℕ × ServiceInfo S) → Conn → ℕ → ℕ → ℕ → List ℕ → Option (Handled S M R)
      header services c t msg_type rpc_id l = by_type proto env services t msg_type rpc_id l c

  -- On a connection that has not failed, `OnProcessRequest` reads outside of every frame that has fewer
  -- than 16 bytes, or than 24 where its type is MSG_AUTHORITY.
  pub on_process_request_reads :
      (services : List (List ℕ × ServiceInfo S)) (c : Conn) (frame : List ℕ)
      → c.failed ≡ false
      → length frame < words_read frame
      → on_process_request proto env (some services) c frame ≡ none
  on_process_request_reads services c frame alive h = (reads_iff services c frame alive).1 h
