-- ===== src/IoBuf/Cut/Lists.antt =====
-- Taking and dropping bytes of lists, slices and reference lists.
use light_rpc.Prelude.{
  ℕ, zero, suc, ◌+◌, ◌-◌, ◌≤◌, ◌≡◌, refl, sym, ap, ap₂, ◌∙◌, List, [], ◌∷◌, ◌++◌, length, drop,
  take, arith,
}
use light_rpc.IoBuf.View.{BlockRef}
use light_rpc.IoBuf.Bytes.{Memory, slice, ref_bytes, bytes_of, length-slice}
use light_rpc.IoBuf.Cut.Trim.{skip}

module _ {A : Type 0} where
  pub drop-append_past :
      (xs ys : List A) (n : ℕ) → length xs ≤ n → drop n (xs ++ ys) ≡ drop (n - length xs) ys
  drop-append_past [] ys n h = ap (λ k. drop k ys) (omega arith)
  drop-append_past (x ∷ xs) ys zero h = absurd (omega arith)
  drop-append_past (x ∷ xs) ys (suc n) h =
      drop-append_past xs ys n (omega arith) ∙ ap (λ k. drop k ys) (omega arith)

  pub drop-append_within :
      (xs ys : List A) (n : ℕ) → n ≤ length xs → drop n (xs ++ ys) ≡ drop n xs ++ ys
  drop-append_within xs ys zero h = refl
  drop-append_within [] ys (suc n) h = absurd (omega arith)
  drop-append_within (x ∷ xs) ys (suc n) h = drop-append_within xs ys n (omega arith)

  pub take-append_past :
      (xs ys : List A) (n : ℕ) → length xs ≤ n → take n (xs ++ ys) ≡ xs ++ take (n - length xs) ys
  take-append_past [] ys n h = ap (λ k. take k ys) (omega arith)
  take-append_past (x ∷ xs) ys zero h = absurd (omega arith)
  take-append_past (x ∷ xs) ys (suc n) h =
      ap (◌∷◌ x) (take-append_past xs ys n (omega arith) ∙ ap (λ k. xs ++ take k ys) (omega arith))

  pub take-append_within : (xs ys : List A) (n : ℕ) → n ≤ length xs → take n (xs ++ ys) ≡ take n xs
  take-append_within xs ys zero h = refl
  take-append_within [] ys (suc n) h = absurd (omega arith)
  take-append_within (x ∷ xs) ys (suc n) h = ap (◌∷◌ x) (take-append_within xs ys n (omega arith))

  pub take_all : (xs : List A) (n : ℕ) → length xs ≤ n → take n xs ≡ xs
  take_all [] zero h = refl
  take_all [] (suc n) h = refl
  take_all (x ∷ xs) zero h = absurd (omega arith)
  take_all (x ∷ xs) (suc n) h = ap (◌∷◌ x) (take_all xs n (omega arith))

  pub drop_all : (xs : List A) (n : ℕ) → length xs ≤ n → drop n xs ≡ []
  drop_all [] zero h = refl
  drop_all [] (suc n) h = refl
  drop_all (x ∷ xs) zero h = absurd (omega arith)
  drop_all (x ∷ xs) (suc n) h = drop_all xs n (omega arith)

  pub drop-drop : (xs : List A) (a b : ℕ) → drop b (drop a xs) ≡ drop (a + b) xs
  drop-drop xs zero b = ap (λ k. drop k xs) (omega arith)
  drop-drop [] (suc a) b = drop_all [] b (omega arith) ∙ sym (drop_all [] (suc a + b) (omega arith))
  drop-drop (x ∷ xs) (suc a) b =
      drop-drop xs a b ∙ ap (λ k. drop k (x ∷ xs)) {x = suc (a + b)} (omega arith)

module _ {A : Type 0} where
  pub take_add : (xs : List A) (a b : ℕ) → take (a + b) xs ≡ take a xs ++ take b (drop a xs)
  take_add xs zero b = ap (λ k. take k xs) (omega arith)
  take_add [] (suc a) b = take_all [] (suc a + b) (omega arith) ∙ sym (take_all [] b (omega arith))
  take_add (x ∷ xs) (suc a) b =
      ap (λ k. take k (x ∷ xs)) {y = suc (a + b)} (omega arith) ∙ ap (◌∷◌ x) (take_add xs a b)

pub drop-slice :
    (d : ℕ → ℕ) (o len n : ℕ) → n ≤ len → drop n (slice d o len) ≡ slice d (o + n) (len - n)
unfolding slice
drop-slice d o len zero h = ap₂ (slice d) {y = o + 0} (omega arith) (omega arith)
drop-slice d o zero (suc n) h = absurd (omega arith)
drop-slice d o (suc len) (suc n) h =
    drop-slice d (suc o) len n (omega arith)
    ∙ ap₂ (slice d) {y = o + suc n} (omega arith) (omega arith)

pub take-slice : (d : ℕ → ℕ) (o len n : ℕ) → n ≤ len → take n (slice d o len) ≡ slice d o n
unfolding slice
take-slice d o len zero h = refl
take-slice d o zero (suc n) h = absurd (omega arith)
take-slice d o (suc len) (suc n) h = ap (◌∷◌ (d o)) (take-slice d (suc o) len n (omega arith))

module _ (m : Memory) (x : BlockRef) (xs : List BlockRef) where
  pub bytes_of-skip :
      (n : ℕ) → n ≤ x.length → bytes_of m (skip n x ∷ xs) ≡ drop n (bytes_of m (x ∷ xs))
  unfolding bytes_of ref_bytes
  bytes_of-skip n h =
      ap (λ l. l ++ bytes_of m xs) (sym (drop-slice (m x.block) x.offset x.length n h))
      ∙ sym (
          drop-append_within (ref_bytes m x) (bytes_of m xs) n
            (omega (arith, length-slice (m x.block) x.offset x.length)))

  pub bytes_of-tail : bytes_of m xs ≡ drop x.length (bytes_of m (x ∷ xs))
  unfolding bytes_of ref_bytes
  bytes_of-tail = sym (
      drop-append_past (ref_bytes m x) (bytes_of m xs) x.length
        (omega (arith, length-slice (m x.block) x.offset x.length))
      ∙ ap (λ k. drop k (bytes_of m xs)) {y = 0}
          (omega (arith, length-slice (m x.block) x.offset x.length)))

  pub take-bytes_of_within :
      (n : ℕ) → n ≤ x.length → take n (bytes_of m (x ∷ xs)) ≡ slice (m x.block) x.offset n
  unfolding bytes_of ref_bytes
  take-bytes_of_within n h =
      take-append_within (ref_bytes m x) (bytes_of m xs) n
        (omega (arith, length-slice (m x.block) x.offset x.length))
      ∙ take-slice (m x.block) x.offset x.length n h

  pub take-bytes_of_past :
      (n : ℕ)
      → x.length ≤ n
      → take n (bytes_of m (x ∷ xs)) ≡ ref_bytes m x ++ take (n - x.length) (bytes_of m xs)
  unfolding bytes_of ref_bytes
  take-bytes_of_past n h =
      take-append_past (ref_bytes m x) (bytes_of m xs) n
        (omega (arith, length-slice (m x.block) x.offset x.length))
      ∙ ap (λ k. ref_bytes m x ++ take (n - k) (bytes_of m xs))
          (length-slice (m x.block) x.offset x.length)
