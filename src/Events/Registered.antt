-- ===== src/Events/Registered.antt =====
-- Registrations under calls in any order.
use light_rpc.Prelude.{
  mem, ℕ, ◌≡◌, ◌≢◌, refl, sym, ap, ap₂, ◌∙◌, subst, ◌⊎◌, inl, inr, Bool, true, false, not, ◌||◌,
  Option, none, some, ◌==◌, if_true, if_false, Bool-cases, find, erase, insert,
}
use light_rpc.Events.{
  EventDispatcher, set_failed_by_id, add_source, register_event, remove_source, unregister_event,
}
use light_rpc.Events.Entries.{
  some-none, same_id, other_id, inserted, erased, insert_keeps, insert_finds, erase_keeps,
}

-- An id that Create gives is new: it is of no registration so far.
abbrev pub IsNew : ℕ → EventDispatcher → Type 0
IsNew id d = (mem id d.failed ≡ false) × ((fd : ℕ) → find fd d.fd_map ≢ some id)

pub data Step (d : EventDispatcher) : EventDispatcher → Type 0 where
  registers :
      (id : ℕ) (added : Bool) (fd : ℕ) (r : Option ℕ)
      → IsNew id d
      → Step d (register_event (some id) added fd r d).2
  unregisters :
      (deleted : Bool) (fd : ℕ) (r : Option ℕ) → Step d (unregister_event deleted fd r d).1
  closes : (fd : ℕ) → Step d (record d { sources = erase fd d.sources })

pub data Reach (d : EventDispatcher) : EventDispatcher → Type 0 where
  start : Reach d d
  after : {d1 d2 : EventDispatcher} → Reach d d1 → Step d1 d2 → Reach d d2

-- What the kernel watches is registered under the same id; a registered id has not failed, and is of
-- one descriptor.
pub record IsConsistent (d : EventDispatcher) : Type 0 where
  pub watched : (fd id : ℕ) → find fd d.sources ≡ some id → find fd d.fd_map ≡ some id
  pub live : (fd id : ℕ) → find fd d.fd_map ≡ some id → mem id d.failed ≡ false
  pub one_fd :
      (fd other id : ℕ) → find fd d.fd_map ≡ some id → find other d.fd_map ≡ some id → fd ≡ other

-- Failing an id that is not registered.
fail-IsConsistent :
    (id : ℕ) (d : EventDispatcher)
    → ((fd : ℕ) → find fd d.fd_map ≢ some id)
    → IsConsistent d
    → IsConsistent (set_failed_by_id id d)
fail-IsConsistent id d new v = record {
  watched = v.watched;
  live =
      λ fd x e. ap₂ ◌||◌ (other_id (λ (h : id ≡ x). new fd (e ∙ ap some (sym h)))) (v.live fd x e);
  one_fd = v.one_fd;
}

module _ (id fd : ℕ) (d : EventDispatcher) (new : IsNew id d) (v : IsConsistent d) where
  published-IsConsistent :
      IsConsistent (record d { fd_map = insert fd id d.fd_map; sources = insert fd id d.sources })
  published-IsConsistent = record {
    watched = λ other x e. watch other x (inserted fd id other x d.sources e);
    live = λ other x e. lives other x (inserted fd id other x d.fd_map e);
    one_fd = λ a b x e f. one a b x (inserted fd id a x d.fd_map e) (inserted fd id b x d.fd_map f);
  }
    where
      watch :
          (other x : ℕ)
          → ((fd ≡ other) × (id ≡ x)) ⊎ ((fd ≢ other) × (find other d.sources ≡ some x))
          → find other (insert fd id d.fd_map) ≡ some x
      watch other x (inl (f, g)) =
          ap (λ k. find k (insert fd id d.fd_map)) (sym f) ∙ insert_finds fd id d.fd_map ∙ ap some g
      watch other x (inr (f, g)) = insert_keeps fd id other x d.fd_map f (v.watched other x g)

      lives :
          (other x : ℕ)
          → ((fd ≡ other) × (id ≡ x)) ⊎ ((fd ≢ other) × (find other d.fd_map ≡ some x))
          → mem x d.failed ≡ false
      lives other x (inl (f, g)) = ap (λ k. mem k d.failed) (sym g) ∙ new.0
      lives other x (inr (f, g)) = v.live other x g

      one :
          (a b x : ℕ)
          → ((fd ≡ a) × (id ≡ x)) ⊎ ((fd ≢ a) × (find a d.fd_map ≡ some x))
          → ((fd ≡ b) × (id ≡ x)) ⊎ ((fd ≢ b) × (find b d.fd_map ≡ some x))
          → a ≡ b
      one a b x (inl (f, g)) (inl (f2, g2)) = sym f ∙ f2
      one a b x (inl (f, g)) (inr (f2, g2)) = absurd (new.1 b (g2 ∙ ap some (sym g)))
      one a b x (inr (f, g)) (inl (f2, g2)) = absurd (new.1 a (g ∙ ap some (sym g2)))
      one a b x (inr (f, g)) (inr (f2, g2)) = v.one_fd a b x g g2

  -- Back out: the descriptor was not in the map, and is not again.
  abbrev backed_out : EventDispatcher
  backed_out = record d { fd_map = erase fd (insert fd id d.fd_map) }

  from_before : (other x : ℕ) → find other backed_out.fd_map ≡ some x → find other d.fd_map ≡ some x
  from_before other x e =
      let (apart, there) = erased fd other x (insert fd id d.fd_map) e in
      back apart (inserted fd id other x d.fd_map there)
    where
      back :
          fd ≢ other
          → ((fd ≡ other) × (id ≡ x)) ⊎ ((fd ≢ other) × (find other d.fd_map ≡ some x))
          → find other d.fd_map ≡ some x
      back h (inl (f, g)) = absurd (h f)
      back h (inr (f, g)) = g

  backed_out-IsConsistent : find fd d.fd_map ≡ none → IsConsistent backed_out
  backed_out-IsConsistent absent = record {
    watched = λ other x e.
        let there = v.watched other x e in
        let apart : fd ≢ other =
          λ h. some-none (sym there ∙ ap (λ k. find k d.fd_map) (sym h) ∙ absent) in
        erase_keeps fd other x (insert fd id d.fd_map) apart
          (insert_keeps fd id other x d.fd_map apart there);
    live = λ other x e. v.live other x (from_before other x e);
    one_fd = λ a b x e f. v.one_fd a b x (from_before a x e) (from_before b x f);
  }

  add-IsConsistent :
      (o : Option ℕ) (added : Bool) (r : Option ℕ)
      → find fd d.fd_map ≡ o
      → IsConsistent (add_source o added fd id r d).2
  add-IsConsistent (some other) added r e = fail-IsConsistent id d new.1 v
  add-IsConsistent none true r e = published-IsConsistent
  add-IsConsistent none false r e =
      fail-IsConsistent id backed_out (λ other h. new.1 other (from_before other id h))
        (backed_out-IsConsistent e)

-- Removing a registration by its own id.
removed-IsConsistent :
    (id fd : ℕ) (d : EventDispatcher)
    → find fd d.fd_map ≡ some id
    → IsConsistent d
    → IsConsistent (
        set_failed_by_id id (record d { fd_map = erase fd d.fd_map; sources = erase fd d.sources }))
removed-IsConsistent id fd d there v =
    fail-IsConsistent id (record d { fd_map = erase fd d.fd_map; sources = erase fd d.sources })
      (λ other h.
        let (apart, g) = erased fd other id d.fd_map h in apart (v.one_fd fd other id there g))
      (record {
        watched = λ other x e.
            let (apart, g) = erased fd other x d.sources e in
            erase_keeps fd other x d.fd_map apart (v.watched other x g);
        live = λ other x e. let (apart, g) = erased fd other x d.fd_map e in v.live other x g;
        one_fd =
            λ a b x e f. v.one_fd a b x (erased fd a x d.fd_map e).1 (erased fd b x d.fd_map f).1;
      })

remove-IsConsistent :
    (o : Option ℕ) (deleted : Bool) (fd id : ℕ) (d : EventDispatcher)
    → find fd d.fd_map ≡ o
    → IsConsistent d
    → IsConsistent (remove_source o deleted fd id d).1
remove-IsConsistent none deleted fd id d e v = v
remove-IsConsistent (some x) deleted fd id d e v = elim (Bool-cases (x == id)) [
  | inl f ↦
      subst {A = Bool × EventDispatcher} (λ w. IsConsistent w.1) (sym (if_false _ _ (ap not f)))
        (removed-IsConsistent id fd d (e ∙ ap some (same_id f)) v)
  | inr f ↦
      subst {A = Bool × EventDispatcher} (λ w. IsConsistent w.1) (sym (if_true _ _ (ap not f))) v
]

unregister-IsConsistent :
    (deleted : Bool) (fd : ℕ) (r : Option ℕ) (d : EventDispatcher)
    → IsConsistent d
    → IsConsistent (unregister_event deleted fd r d).1
unfolding unregister_event
unregister-IsConsistent deleted fd none d v = v
unregister-IsConsistent deleted fd (some id) d v =
    remove-IsConsistent (find fd d.fd_map) deleted fd id d refl v

Step-IsConsistent : {d e : EventDispatcher} → Step d e → IsConsistent d → IsConsistent e
unfolding register_event
Step-IsConsistent {d} (registers id added fd r new) v =
    add-IsConsistent id fd d new v (find fd d.fd_map) added r refl
Step-IsConsistent {d} (unregisters deleted fd r) v = unregister-IsConsistent deleted fd r d v
Step-IsConsistent {d} (closes fd) v = record {
  watched = λ other x e. v.watched other x (erased fd other x d.sources e).1;
  live = v.live;
  one_fd = v.one_fd;
}

-- In any sequence of RegisterEvent with new ids, on every outcome of epoll_ctl, UnregisterEvent with any
-- descriptor and registration, and closed descriptors, from a consistent dispatcher, as the empty
-- one: what the kernel watches is registered under the same id, a registered id has not failed, so
-- that its events reach its callback, and no id is of two descriptors.
pub Reach-IsConsistent : {d e : EventDispatcher} → Reach d e → IsConsistent d → IsConsistent e
Reach-IsConsistent start v = v
Reach-IsConsistent (after r s) v = Step-IsConsistent s (Reach-IsConsistent r v)
