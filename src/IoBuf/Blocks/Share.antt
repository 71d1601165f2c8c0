-- ===== src/IoBuf/Blocks/Share.antt =====
-- The thread's cache of blocks: what `share_tls_block` and `release_tls_block` keep.
use light_rpc.Prelude.{
  ℕ, ◌+◌, ◌^◌, ◌≤◌, ◌<◌, ◌≡◌, ◌≢◌, ◌⊎◌, refl, ap, ◌∙◌, inl, inr, Bool, true, false, Bool-cases,
  ◌||◌, List, [], ◌∷◌, Option, none, some, All, length, leb, ◌==◌, arith,
}
use light_rpc.Prelude.Bits.{sub64}
use light_rpc.IoBuf.Store.{Store, dec_ref, full}
use light_rpc.IoBuf.Shares.{one, nshared-dec_ref}
use light_rpc.IoBuf.Bytes.{bytes-dec_ref}
use light_rpc.IoBuf.Blocks.{
  Tls, max_blocks_per_thread, drop_full, no_chain, create_block, take_head, share_tls_block,
  release_tls_block,
}

-- How often a block stands in the chain.
unfoldable pub held : ℕ → List ℕ → ℕ
held q [] = 0
held q (p ∷ ps) = one p q + held q ps

pub record IsTls (t : Tls) : Type 0 where
  pub counted : t.num_blocks ≡ length t.chain
  pub few : length t.chain ≤ max_blocks_per_thread
  pub named : All (λ p. p ≢ 0) t.chain

-- Every block in the chain is shared by the cache.
abbrev pub Holding : Tls → Store → Type 0
Holding t s = (q : ℕ) → held q t.chain ≤ s.nshared q

-- Each block's count moved with the cache's hold on it.
abbrev pub Settled : List ℕ → Store → List ℕ → Store → Type 0
Settled ps s qs s' = (q : ℕ) → s'.nshared q + held q ps ≡ s.nshared q + held q qs

-- The head of the chain has room.
abbrev pub HeadFree : List ℕ → Store → Type 0
HeadFree [] s = Unit
HeadFree (p ∷ ps) s = full p s ≡ false

full-dec_ref : (p q : ℕ) (s : Store) → full p (dec_ref q s) ≡ full p s
unfolding full dec_ref
full-dec_ref p q s = elim (Bool-cases (s.nshared q == 1)) [ inl e ↦ rw e refl | inr e ↦ rw e refl ]

drop_full_lem :
    (ps : List ℕ) (num : ℕ) (s : Store)
    → num ≡ length ps
    → length ps ≤ max_blocks_per_thread
    → ((q : ℕ) → held q ps ≤ s.nshared q)
    → let (qs, num', s') = drop_full ps num s in
      (num' ≡ length qs)
      × (length qs ≤ length ps)
      × HeadFree qs s'
      × Settled ps s qs s'
      × (s'.bytes ≡ s.bytes)
unfolding drop_full held
drop_full_lem [] num s e few own = (e, omega arith, tt, λ q. refl, refl)
drop_full_lem (p ∷ ps) num s e few own = elim (Bool-cases (full p s)) [
  | inr free ↦ rw free (e, omega arith, free, λ q. refl, refl)
  | inl no_room ↦
      let mine : 1 ≤ s.nshared p = ground (arith, own p) in
      let (count, fewer, head, settled, memory) =
        drop_full_lem ps (sub64 num 1) (dec_ref p s) (omega arith) (omega arith)
          (λ q. omega (arith, own q, nshared-dec_ref p q s mine)) in
      rw no_room (
        count,
        omega arith,
        head,
        λ q. omega (arith, settled q, nshared-dec_ref p q s mine),
        memory ∙ bytes-dec_ref p s,
      )
]

drop_full-All :
    (P : ℕ → Type 0) (ps : List ℕ) (num : ℕ) (s : Store) → All P ps → All P (drop_full ps num s).0
unfolding drop_full
drop_full-All P [] num s a = tt
drop_full-All P (p ∷ ps) num s a = elim (Bool-cases (full p s)) [
  | inl e ↦ rw e (drop_full-All P ps (sub64 num 1) (dec_ref p s) a.1)
  | inr e ↦ rw e a
]

-- The blocks' sizes and capacities.
abbrev SameSizes : Store → Store → Type 0
SameSizes s s' = (s'.size ≡ s.size) × (s'.cap ≡ s.cap)

dec_ref-SameSizes : (p : ℕ) (s : Store) → SameSizes s (dec_ref p s)
unfolding dec_ref
dec_ref-SameSizes p s = elim (Bool-cases (s.nshared p == 1)) [
  | inl e ↦ rw e (refl, refl)
  | inr e ↦ rw e (refl, refl)
]

drop_full-SameSizes : (ps : List ℕ) (num : ℕ) (s : Store) → SameSizes s (drop_full ps num s).2
unfolding drop_full
drop_full-SameSizes [] num s = (refl, refl)
drop_full-SameSizes (p ∷ ps) num s = elim (Bool-cases (full p s)) [
  | inl e ↦
      let (size, cap) = drop_full-SameSizes ps (sub64 num 1) (dec_ref p s) in
      let (size', cap') = dec_ref-SameSizes p s in rw e (size ∙ size', cap ∙ cap')
  | inr e ↦ rw e (refl, refl)
]

-- The block that is returned, the head of the chain, has room.
abbrev pub SharedHead : Option ℕ → Tls → Store → Type 0
SharedHead none t s = t.chain ≡ []
SharedHead (some p) t s = (ps : List ℕ) × (t.chain ≡ p ∷ ps) × (full p s ≡ false)

pub record Sharing (t : Tls) (s : Store) (result : Option ℕ) (t' : Tls) (s' : Store) : Type 0 where
  pub valid : IsTls t'
  pub head : SharedHead result t' s'
  pub settled : Settled t.chain s t'.chain s'
  pub memory : s'.bytes ≡ s.bytes

module _ (pool : Store → Option ℕ)
    (fresh : (s : Store) (p : ℕ) → pool s ≡ some p → (p ≢ 0) × (s.nshared p ≡ 0)) where
  -- `share_tls_block` on a cache of eight blocks at most, all shared by it, returns the first block
  -- that has room, at the head of the chain, or else a new one of the pool, which becomes the only
  -- one, or none. Full blocks before it are given up: each block's count moves with the cache's hold on it. The
  -- cache stays well-formed, and no byte of a block changes. It supposes that a block that
  -- the pool gives is not null and has no shares.
  pub share_tls_block_lem :
      (t : Tls) (s : Store)
      → IsTls t
      → Holding t s
      → let (result, t', s') = share_tls_block pool t s in Sharing t s result t' s'
  unfolding share_tls_block
  share_tls_block_lem t s v own =
      let (count, fewer, head, settled, memory) =
        drop_full_lem t.chain t.num_blocks s v.counted v.few own in
      from_chain (t.registered || no_chain t.chain) (drop_full t.chain t.num_blocks s).0
        (drop_full t.chain t.num_blocks s).1 (drop_full t.chain t.num_blocks s).2 count fewer
        (drop_full-All (λ p. p ≢ 0) t.chain t.num_blocks s v.named) head settled memory
    where
      from_pool :
          (registered : Bool) (num : ℕ) (s1 : Store) (given : Option ℕ)
          → pool s1 ≡ given
          → num ≡ 0
          → Settled t.chain s [] s1
          → s1.bytes ≡ s.bytes
          → let (result, t', s') = create_block pool [] num registered given s1 in
            Sharing t s result t' s'
      from_pool registered num s1 none e z settled memory = record {
        valid = record { counted = z; few = omega arith; named = tt };
        head = refl;
        settled = settled;
        memory = memory;
      }
      from_pool registered num s1 (some p) e z settled memory = record {
        valid = record { counted = omega arith; few = omega arith; named = ((fresh s1 p e).0, tt) };
        head = ([], refl, unfold full in ground arith);
        settled = λ q. unfold held in ground (arith, settled q, settled p, (fresh s1 p e).1);
        memory = memory;
      }

      from_chain :
          (registered : Bool) (qs : List ℕ) (num : ℕ) (s1 : Store)
          → num ≡ length qs
          → length qs ≤ length t.chain
          → All (λ p. p ≢ 0) qs
          → HeadFree qs s1
          → Settled t.chain s qs s1
          → s1.bytes ≡ s.bytes
          → let (result, t', s') = take_head pool registered qs num s1 in Sharing t s result t' s'
      from_chain registered [] num s1 count fewer named head settled memory =
          from_pool registered num s1 (pool s1) refl count settled memory
      from_chain registered (p ∷ ps) num s1 count fewer named head settled memory = record {
        valid = record { counted = count; few = omega (arith, v.few); named = named };
        head = (ps, refl, head);
        settled = settled;
        memory = memory;
      }

  -- A block that others share, besides the cache, keeps its size; capacities stay 32-bit words.
  pub share_tls_block-size :
      (t : Tls) (s : Store) (q : ℕ)
      → IsTls t
      → Holding t s
      → held q t.chain < s.nshared q
      → (share_tls_block pool t s).2.size q ≡ s.size q
  unfolding share_tls_block held
  share_tls_block-size t s q v own others =
      let (count, fewer, head, settled, memory) =
        drop_full_lem t.chain t.num_blocks s v.counted v.few own in
      from_chain (t.registered || no_chain t.chain) (drop_full t.chain t.num_blocks s).0
        (drop_full t.chain t.num_blocks s).1 (drop_full t.chain t.num_blocks s).2
        (drop_full-SameSizes t.chain t.num_blocks s).0 (omega (arith, settled q))
    where
      from_pool :
          (registered : Bool) (num : ℕ) (s1 : Store) (given : Option ℕ)
          → pool s1 ≡ given
          → s1.size ≡ s.size
          → 1 ≤ s1.nshared q
          → (create_block pool [] num registered given s1).2.size q ≡ s.size q
      from_pool registered num s1 none e size shared = ap (λ f. f q) size
      from_pool registered num s1 (some p) e size shared =
          ground (arith, (fresh s1 p e).1, ap (λ f. f q) size)

      from_chain :
          (registered : Bool) (qs : List ℕ) (num : ℕ) (s1 : Store)
          → s1.size ≡ s.size
          → 1 ≤ s1.nshared q
          → (take_head pool registered qs num s1).2.size q ≡ s.size q
      from_chain registered [] num s1 size shared =
          from_pool registered num s1 (pool s1) refl size shared
      from_chain registered (p ∷ ps) num s1 size shared = ap (λ f. f q) size

  pub share_tls_block-cap :
      (t : Tls) (s : Store) (q : ℕ) → s.cap q < 2 ^ 32 → (share_tls_block pool t s).2.cap q < 2 ^ 32
  unfolding share_tls_block
  share_tls_block-cap t s q h =
      from_chain (t.registered || no_chain t.chain) (drop_full t.chain t.num_blocks s).0
        (drop_full t.chain t.num_blocks s).1 (drop_full t.chain t.num_blocks s).2
        (drop_full-SameSizes t.chain t.num_blocks s).1
    where
      from_pool :
          (registered : Bool) (num : ℕ) (s1 : Store) (given : Option ℕ)
          → s1.cap ≡ s.cap
          → (create_block pool [] num registered given s1).2.cap q < 2 ^ 32
      from_pool registered num s1 none cap = omega (arith, ap (λ f. f q) cap)
      from_pool registered num s1 (some p) cap = ground (arith, ap (λ f. f q) cap)

      from_chain :
          (registered : Bool) (qs : List ℕ) (num : ℕ) (s1 : Store)
          → s1.cap ≡ s.cap
          → (take_head pool registered qs num s1).2.cap q < 2 ^ 32
      from_chain registered [] num s1 cap = from_pool registered num s1 (pool s1) cap
      from_chain registered (p ∷ ps) num s1 cap = omega (arith, ap (λ f. f q) cap)

  -- No block is given only where the pool has none and none is left in the cache.
  pub share_tls_block-none :
      (t : Tls) (s : Store)
      → (share_tls_block pool t s).0 ≡ none
      → (pool (share_tls_block pool t s).2 ≡ none) × ((share_tls_block pool t s).1.chain ≡ [])
  unfolding share_tls_block
  share_tls_block-none t s e =
      refused (t.registered || no_chain t.chain) (drop_full t.chain t.num_blocks s).0
        (drop_full t.chain t.num_blocks s).1 (drop_full t.chain t.num_blocks s).2 e
    where
      given :
          (registered : Bool) (num : ℕ) (s1 : Store) (o : Option ℕ)
          → pool s1 ≡ o
          → (create_block pool [] num registered o s1).0 ≡ none
          → (pool (create_block pool [] num registered o s1).2 ≡ none)
            × ((create_block pool [] num registered o s1).1.chain ≡ [])
      given registered num s1 none f e = (f, refl)
      given registered num s1 (some p) f e = absurd (cc)

      refused :
          (registered : Bool) (qs : List ℕ) (num : ℕ) (s1 : Store)
          → (take_head pool registered qs num s1).0 ≡ none
          → (pool (take_head pool registered qs num s1).2 ≡ none)
            × ((take_head pool registered qs num s1).1.chain ≡ [])
      refused registered [] num s1 e = given registered num s1 (pool s1) refl e
      refused registered (p ∷ ps) num s1 e = absurd (cc)

-- `release_tls_block` keeps the cache well-formed: the block given, of which the caller has a share, is cached while the cache
-- has fewer than eight and the block has room, and its share is given up otherwise.
pub release_tls_block_lem :
    (p : ℕ) (t : Tls) (s : Store)
    → p ≢ 0
    → IsTls t
    → ((q : ℕ) → one p q + held q t.chain ≤ s.nshared q)
    → let (t', s') = release_tls_block p t s in
      IsTls t'
      × Settled (p ∷ t.chain) s t'.chain s'
      × (s'.bytes ≡ s.bytes)
      × ((t'.chain ≡ p ∷ t.chain)
          ⊎ ((t'.chain ≡ t.chain) × ((full p s ≡ true) ⊎ (t.num_blocks ≡ max_blocks_per_thread))))
unfolding release_tls_block held
release_tls_block_lem p t s named v own = elim (Bool-cases (full p s)) [
  | inl no_room ↦
      rw no_room (v, λ q. omega (arith, given_up q), bytes-dec_ref p s, inr (refl, inl refl))
  | inr free ↦ elim (Bool-cases (leb max_blocks_per_thread t.num_blocks)) [
    | inl many ↦
        rw (free, many)
          (
            v,
            λ q. omega (arith, given_up q),
            bytes-dec_ref p s,
            inr (refl, inr (ground (arith, v.counted, v.few))),
          )
    | inr room ↦
        let below : length t.chain < max_blocks_per_thread = ground (arith, v.counted) in
        rw (free, room)
          (
            record {
              counted = omega (arith, v.counted);
              few = omega arith;
              named = (named, v.named);
            },
            λ q. refl,
            refl,
            inl refl,
          )
  ]
]
  where
    given_up : (q : ℕ) → (dec_ref p s).nshared q + one p q ≡ s.nshared q
    given_up q = nshared-dec_ref p q s (ground (arith, own p))
