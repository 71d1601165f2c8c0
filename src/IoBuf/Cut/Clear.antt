-- ===== src/IoBuf/Cut/Clear.antt =====
-- `clear` gives up every reference.
use light_rpc.Prelude.{ℕ, ◌+◌, ◌≤◌, ◌≡◌, refl, sym, ◌∙◌, inl, inr, List, [], ◌∷◌, arith}
use light_rpc.IoBuf.Store.{Store, dec_ref}
use light_rpc.IoBuf.View.{BlockRef, null_ref, IoBuf, small, big, total, IsValid, HasShape, ref_list}
use light_rpc.IoBuf.Push.{not_null}
use light_rpc.IoBuf.Bytes.{bytes_of, length-bytes_of, bytes-dec_ref}
use light_rpc.IoBuf.Shares.{shares, Counted, nshared-dec_ref}
use light_rpc.IoBuf.Cut.{dec_refs, clear}
use light_rpc.IoBuf.Cut.Lists.{drop_all}
use light_rpc.IoBuf.Cut.Drops.{contents, Drops}

-- Clearing gives up every reference.
pub dec_refs-balance :
    (xs : List BlockRef) (s : Store)
    → Counted s xs
    → (p : ℕ) → (dec_refs xs s).nshared p + shares p xs ≡ s.nshared p
unfolding dec_refs shares
dec_refs-balance [] s c p = omega arith
dec_refs-balance (x ∷ xs) s c p =
    omega
      (arith, dec_refs-balance xs (dec_ref x.block s) after p, nshared-dec_ref x.block p s first)
  where
    first : 1 ≤ s.nshared x.block
    first = ground (arith, c x.block)

    after : Counted (dec_ref x.block s) xs
    after q = omega (arith, c q, nshared-dec_ref x.block q s first)

pub bytes-dec_refs : (xs : List BlockRef) (s : Store) → (dec_refs xs s).bytes ≡ s.bytes
unfolding dec_refs
bytes-dec_refs [] s = refl
bytes-dec_refs (x ∷ xs) s = bytes-dec_refs xs (dec_ref x.block s) ∙ bytes-dec_ref x.block s

-- `clear` is giving up the references in order, and leaves an empty buffer.
pub clear_lem :
    (b : IoBuf) (s : Store)
    → HasShape b
    → clear b s ≡ (small null_ref null_ref, dec_refs (ref_list b) s)
unfolding clear dec_refs ref_list
clear_lem (small r0 r1) s (inl (e0, e1)) = rw (e0, e1)
clear_lem (small r0 r1) s (inr (inl (n0, e1))) = rw (e1, not_null r0.block n0)
clear_lem (small r0 r1) s (inr (inr (n0, n1))) = rw (not_null r0.block n0, not_null r1.block n1)
clear_lem (big v) s w = refl

pub empty-IsValid : IsValid (small null_ref null_ref)
unfolding ref_list total
empty-IsValid = record { shape = inl (refl, refl); each = tt; bounded = omega arith }

pub clear-Drops :
    (n : ℕ) (b : IoBuf) (s : Store)
    → IsValid b
    → total (ref_list b) ≤ n
    → Drops n b s (clear b s).0 (clear b s).1
unfolding ref_list shares bytes_of
clear-Drops n b s v h = rw (clear_lem b s v.shape) (record {
  valid = empty-IsValid;
  rest = sym (drop_all (contents b s) n (omega (arith, length-bytes_of s.bytes (ref_list b))));
  memory = bytes-dec_refs (ref_list b) s;
  balance = λ c p. omega (arith, dec_refs-balance (ref_list b) s c p);
})
