-- ===== src/Events/Entries.antt =====
-- Entries of a map that was changed at one key.
use light_rpc.Prelude.{
  ℕ, ◌≡◌, ◌≢◌, sym, ◌∙◌, ◌⊎◌, inl, inr, true, false, not_both, List, none, some, ◌==◌, ==_iff,
  if_true, if_false, Bool-cases, find, erase, insert, find-insert, find-erase, arith,
}

pub some-none : {x : ℕ} → some x ≢ none
some-none e = cc

pub same_some : {x y : ℕ} → some x ≡ some y → x ≡ y
same_some e = cc

pub same_id : {x y : ℕ} → (x == y) ≡ true → x ≡ y
same_id {x} {y} e = (==_iff x y).0 e

pub other_id : {x y : ℕ} → x ≢ y → (x == y) ≡ false
other_id h = ground arith

-- Where an entry of a changed map comes from.
pub inserted :
    (fd id other x : ℕ) (m : List (ℕ × ℕ))
    → find other (insert fd id m) ≡ some x
    → ((fd ≡ other) × (id ≡ x)) ⊎ ((fd ≢ other) × (find other m ≡ some x))
inserted fd id other x m e = elim (Bool-cases (fd == other)) [
  | inl f ↦ inl (same_id f, same_some (sym (find-insert fd other id m ∙ if_true _ _ f) ∙ e))
  | inr f ↦ inr (
    (λ h. not_both ((==_iff fd other).1 h) f),
    sym (find-insert fd other id m ∙ if_false _ _ f) ∙ e,
  )
]

pub erased :
    (fd other x : ℕ) (m : List (ℕ × ℕ))
    → find other (erase fd m) ≡ some x
    → (fd ≢ other) × (find other m ≡ some x)
erased fd other x m e = elim (Bool-cases (fd == other)) [
  | inl f ↦ absurd (some-none (sym e ∙ (find-erase fd other m ∙ if_true _ _ f)))
  | inr f ↦
      ((λ h. not_both ((==_iff fd other).1 h) f), sym (find-erase fd other m ∙ if_false _ _ f) ∙ e)
]

pub insert_keeps :
    (fd id other x : ℕ) (m : List (ℕ × ℕ))
    → fd ≢ other
    → find other m ≡ some x
    → find other (insert fd id m) ≡ some x
insert_keeps fd id other x m h e = find-insert fd other id m ∙ if_false _ _ (other_id h) ∙ e

pub insert_finds : (fd id : ℕ) (m : List (ℕ × ℕ)) → find fd (insert fd id m) ≡ some id
insert_finds fd id m =
    let same : (fd == fd) ≡ true = ground arith in find-insert fd fd id m ∙ if_true _ _ same

pub erase_keeps :
    (fd other x : ℕ) (m : List (ℕ × ℕ))
    → fd ≢ other
    → find other m ≡ some x
    → find other (erase fd m) ≡ some x
erase_keeps fd other x m h e = find-erase fd other m ∙ if_false _ _ (other_id h) ∙ e
