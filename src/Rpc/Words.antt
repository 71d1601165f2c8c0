-- ===== src/Rpc/Words.antt =====
-- Words read back, and the bytes in front of a frame.
use light_rpc.Prelude.{
  ℕ, ◌+◌, ◌*◌, ◌/◌, ◌%◌, ◌^◌, ◌≤◌, ◌<◌, ◌≡◌, refl, List, [], ◌∷◌, ◌++◌, none, some, ap, length,
  arith, drop, Option, ◌>>=◌, ltb, if◌then◌else◌,
}
use light_rpc.Hello.{htonl, ntohl_at}
use light_rpc.Rpc.{read32}

pub read32-htonl : (v : ℕ) (rest : List ℕ) → v < 2 ^ 32 → read32 (htonl v ++ rest) ≡ some (v, rest)
unfolding read32
read32-htonl v rest h =
    let e : ((v / 16777216 % 256 * 256 + v / 65536 % 256) * 256 + v / 256 % 256) * 256 + v % 256
        ≡ v =
      omega arith in
    ap (λ (n : ℕ). some (n, rest)) e

pub read32_long : (l : List ℕ) → 4 ≤ length l → read32 l ≡ some (ntohl_at l, drop 4 l)
unfolding read32
read32_long [] h = absurd (omega arith)
read32_long (a ∷ []) h = absurd (omega arith)
read32_long (a ∷ b ∷ []) h = absurd (omega arith)
read32_long (a ∷ b ∷ c ∷ []) h = absurd (omega arith)
read32_long (a ∷ b ∷ c ∷ d ∷ l) h = refl

pub read32_short : (l : List ℕ) → length l < 4 → read32 l ≡ none
unfolding read32
read32_short [] h = refl
read32_short (a ∷ []) h = refl
read32_short (a ∷ b ∷ []) h = refl
read32_short (a ∷ b ∷ c ∷ []) h = refl
read32_short (a ∷ b ∷ c ∷ d ∷ l) h = absurd (omega arith)

-- The next word of a `do` block.
pub bind-htonl {ℓ} :
    {A : Type ℓ} (v : ℕ) (rest : List ℕ) (k : ℕ × List ℕ → Option A)
    → v < 2 ^ 32
    → (read32 (htonl v ++ rest) >>= k) ≡ k (v, rest)
bind-htonl v rest k h = ap (λ w. w >>= k) (read32-htonl v rest h)

-- The attachment is what is left, or nothing where its size is 0.
pub attached : (a : List ℕ) → (if ltb 0 (length a) then a else []) ≡ a
attached [] = refl
attached (x ∷ a) = ground arith
