-- ===== src/Prelude/Maps.antt =====
-- Maps as functions, and the list of the values of a function.
use Prim.Native.Nat.{ℕ, zero, suc, ◌<◌}
use mathlib.Core.Path.{◌≡◌, refl, ap, ap₂}
use mathlib.Core.List.{List, [], ◌∷◌, ◌++◌}
use native.Mathlib.Omega.{arith}
use light_rpc.Prelude.Tests.{◌==◌, if◌then◌else◌}
use light_rpc.Prelude.Lists.{length, get_or}

abbrev pub update {ℓ} : {A : Type ℓ} → (ℕ → A) → ℕ → A → ℕ → A
update f p v q = if p == q then v else f q

module _ {ℓ} {A : Type ℓ} where
  -- f 0, f 1, …, f (n - 1)
  abbrev pub collect : (ℕ → A) → ℕ → List A
  collect f zero = []
  collect f (suc n) = f 0 ∷ collect (λ i. f (suc i)) n

  pub length-collect : (f : ℕ → A) (n : ℕ) → length (collect f n) ≡ n
  length-collect f zero = refl
  length-collect f (suc n) = ap suc (length-collect (λ i. f (suc i)) n)

  pub collect_ext :
      (f g : ℕ → A) (n : ℕ) → ((i : ℕ) → i < n → f i ≡ g i) → collect f n ≡ collect g n
  collect_ext f g zero h = refl
  collect_ext f g (suc n) h =
      ap₂ ◌∷◌ (h 0 (omega arith))
        (collect_ext (λ i. f (suc i)) (λ i. g (suc i)) n (λ i l. h (suc i) (omega arith)))

  -- The last value stands at the end.
  pub collect_snoc : (f : ℕ → A) (n : ℕ) → collect f (suc n) ≡ collect f n ++ (f n ∷ [])
  collect_snoc f zero = refl
  collect_snoc f (suc n) = ap (◌∷◌ (f 0)) (collect_snoc (λ i. f (suc i)) n)

  -- Reading back what was collected, also with more behind it.
  pub get_or-collect :
      (f : ℕ → A) (n i : ℕ) (ys : List A) (d : A) → i < n → get_or (collect f n ++ ys) i d ≡ f i
  get_or-collect f zero i ys d h = absurd (omega arith)
  get_or-collect f (suc n) zero ys d h = refl
  get_or-collect f (suc n) (suc i) ys d h = get_or-collect (λ i. f (suc i)) n i ys d (omega arith)
