-- ===== src/WriteQueue/Chains.antt =====
-- Lists of requests linked through `next`.
use light_rpc.Prelude.{
  ℕ, zero, suc, ◌<◌, ◌≡◌, ◌≢◌, refl, sym, ◌∙◌, true, false, List, [], ◌∷◌, ◌++◌, All, Option, some,
  length, ◌==◌, update, arith,
}
use light_rpc.WriteQueue.{reverse_links}

abbrev pub first : List ℕ → ℕ → ℕ
first [] p = p
first (n ∷ ns) p = n

-- Each links to the one behind it, the last to `end`.
abbrev pub Links : (ℕ → Option ℕ) → List ℕ → ℕ → Type 0
Links next [] end = Unit
Links next (n ∷ ns) end = (next n ≡ some (first ns end)) × Links next ns end

abbrev pub Without : ℕ → List ℕ → Type 0
Without p ns = All (λ n. n ≢ p) ns

abbrev pub Distinct : List ℕ → Type 0
Distinct [] = Unit
Distinct (n ∷ ns) = Without n ns × Distinct ns

unfoldable pub reverse_onto : List ℕ → List ℕ → List ℕ
reverse_onto [] ds = ds
reverse_onto (n ∷ ns) ds = reverse_onto ns (n ∷ ds)

pub update_other : (f : ℕ → Option ℕ) (p q : ℕ) (v : Option ℕ) → q ≢ p → update f p v q ≡ f q
update_other f p q v h = let other : (p == q) ≡ false = ground arith in rw other refl

pub update_same : (f : ℕ → Option ℕ) (p : ℕ) (v : Option ℕ) → update f p v p ≡ v
update_same f p v = let here : (p == p) ≡ true = ground arith in rw here refl

-- A change elsewhere.
pub Links-update :
    (next : ℕ → Option ℕ) (ns : List ℕ) (end p : ℕ) (v : Option ℕ)
    → Without p ns
    → Links next ns end
    → Links (update next p v) ns end
Links-update next [] end p v w l = tt
Links-update next (n ∷ ns) end p v w l =
    (update_other next p n v w.0 ∙ l.0, Links-update next ns end p v w.1 l.1)

other : (p q : ℕ) → p ≢ q → (p == q) ≡ false
other p q h = ground arith

heads : (n : ℕ) (ns ds : List ℕ) → All (λ d. Without d (n ∷ ns)) ds → Without n ds
heads n ns [] w = tt
heads n ns (d ∷ ds) w = ((λ e. w.0.0 (sym e)), heads n ns ds w.1)

tails : (n : ℕ) (ns ds : List ℕ) → All (λ d. Without d (n ∷ ns)) ds → All (λ d. Without d ns) ds
tails n ns [] w = tt
tails n ns (d ∷ ds) w = (w.0.1, tails n ns ds w.1)

-- One request put before the others.
turned :
    (next : ℕ → Option ℕ) (n : ℕ) (ds : List ℕ)
    → Without n ds
    → Links next ds 0
    → Links (update next n (some (first ds 0))) (n ∷ ds) 0
turned next n ds w m =
    (update_same next n (some (first ds 0)), Links-update next ds 0 n (some (first ds 0)) w m)

-- The walk turns the new requests round and puts them before those it has.
pub reverse_links_lem :
    (fuel old_head n : ℕ) (ns ds : List ℕ) (next : ℕ → Option ℕ)
    → length ns < fuel
    → Without 0 (n ∷ ns)
    → Without old_head (n ∷ ns)
    → old_head ≢ 0
    → Distinct (n ∷ ns)
    → All (λ d. Without d (n ∷ ns)) ds
    → Links next (n ∷ ns) old_head
    → Links next ds 0
    → (tail : ℕ) × (next' : ℕ → Option ℕ) × (reverse_links fuel old_head n (first ds 0) next
        ≡ some (tail, next'))
      × (tail ≡ first (reverse_onto (n ∷ ns) ds) 0)
      × Links next' (reverse_onto (n ∷ ns) ds) 0
      × ((m : ℕ) → Without m (n ∷ ns) → next' m ≡ next m)
unfolding reverse_links reverse_onto
reverse_links_lem zero old_head n ns ds next h z o y d w l m = absurd (omega arith)
reverse_links_lem (suc fuel) old_head n [] ds next h z o y d w l m =
    let named : (old_head == 0) ≡ false = ground arith in
    let reached : (old_head == old_head) ≡ true = ground arith in
    rw (l.0, named, reached)
      (
        n,
        update next n (some (first ds 0)),
        refl,
        refl,
        turned next n ds (heads n [] ds w) m,
        λ k a. update_other next n k (some (first ds 0)) (λ e. a.0 (sym e)),
      )
reverse_links_lem (suc fuel) old_head n (k ∷ ns) ds next h z o y d w l m =
    let named : (k == 0) ≡ false = other k 0 z.1.0 in
    let before : (k == old_head) ≡ false = other k old_head o.1.0 in
    let (tail, next', run, start, links, same) =
      reverse_links_lem fuel old_head k ns (n ∷ ds) (update next n (some (first ds 0)))
        (omega arith) z.1 o.1 y d.1 (d.0, tails n (k ∷ ns) ds w)
        (Links-update next (k ∷ ns) old_head n (some (first ds 0)) d.0 l.1)
        (turned next n ds (heads n (k ∷ ns) ds w) m) in
    rw (l.0, named, before)
      (
        tail,
        next',
        run,
        start,
        links,
        λ j a. same j a.1 ∙ update_other next n j (some (first ds 0)) (λ e. a.0 (sym e)),
      )

-- What holds of each request holds in the other order.
pub All-reverse_onto :
    (P : ℕ → Type 0) (ns ds : List ℕ) → All P ns → All P ds → All P (reverse_onto ns ds)
unfolding reverse_onto
All-reverse_onto P [] ds a b = b
All-reverse_onto P (n ∷ ns) ds a b = All-reverse_onto P ns (n ∷ ds) a.1 (a.0, b)

pub reverse_onto-append :
    (ns ds es : List ℕ) → reverse_onto ns (ds ++ es) ≡ reverse_onto ns ds ++ es
unfolding reverse_onto
reverse_onto-append [] ds es = refl
reverse_onto-append (n ∷ ns) ds es = reverse_onto-append ns (n ∷ ds) es

pub Links-last :
    (next : ℕ → Option ℕ) (ns : List ℕ) (n end : ℕ)
    → Links next (ns ++ n ∷ []) end
    → next n ≡ some end
Links-last next [] n end l = l.0
Links-last next (k ∷ ns) n end l = Links-last next ns n end l.1

pub Links-append :
    (next : ℕ → Option ℕ) (xs ys : List ℕ) (end : ℕ)
    → Links next xs (first ys end)
    → Links next ys end
    → Links next (xs ++ ys) end
Links-append next [] ys end l m = m
Links-append next (x ∷ []) ys end l m = (l.0, m)
Links-append next (x ∷ k ∷ xs) ys end l m = (l.0, Links-append next (k ∷ xs) ys end l.1 m)

-- Those before the last one, which they link to.
pub Links-front :
    (next : ℕ → Option ℕ) (ns : List ℕ) (n end : ℕ)
    → Links next (ns ++ n ∷ []) end
    → Links next ns n
Links-front next [] n end l = tt
Links-front next (k ∷ []) n end l = (l.0, tt)
Links-front next (k ∷ j ∷ ns) n end l = (l.0, Links-front next (j ∷ ns) n end l.1)

-- Where the links of each are the same.
pub Links-same :
    (next next' : ℕ → Option ℕ) (ns : List ℕ) (end : ℕ)
    → All (λ n. next' n ≡ next n) ns
    → Links next ns end
    → Links next' ns end
Links-same next next' [] end a l = tt
Links-same next next' (n ∷ ns) end a l = (a.0 ∙ l.0, Links-same next next' ns end a.1 l.1)
