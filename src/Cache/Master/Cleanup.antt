-- ===== src/Cache/Master/Cleanup.antt =====
-- The last block and the masterchain blocks after the publication of a block (cache.go,
-- `GetMasterBlock`).
use mathlib.Core.List.Memᴰ
use tonutils_liteserver_prox.Base.{
  Eq, nat_key, ap, ℕ, ◌+◌, ◌^◌, ◌≤◌, ◌<◌, ◌≡◌, refl, ◌↔◌, ◌⊎◌, inl, inr, Bool, true, false,
  Bool-cases, Option, none, some, List, [], ◌∷◌, Memᴰ, arith, subst, sym, ◌∙◌,
}
use tonutils_liteserver_prox.Base.Maps.{Map, retain}
use tonutils_liteserver_prox.Base.Hoare.{Post, Post-imp}
use tonutils_liteserver_prox.Ton.{Ton, ArcCache, BlockIdExt}
use tonutils_liteserver_prox.Cache.State.{State, MasterBlock, CacheConfig}
use tonutils_liteserver_prox.Cache.Master.Publish.{publish, is_newer, keep_master_block}
use tonutils_liteserver_prox.Cache.Master.Publication.{Published, kept, advanced, publish-Published}

-- The seqno `k` lies at most `window` behind `last`, where a seqno above `last` counts as one
-- before the overflow of a uint32.
abbrev pub Within : (window k last : ℕ) → Type 0
Within window k last =
    ((k ≤ last) × (last ≤ k + window)) ⊎ ((last < k) × (last + 2 ^ 32 ≤ k + window))

module _ {K V : Type 0} ⦃key : Eq K⦄ where
  retain-Memᴰ :
      (p : K → V → Bool) (k : K) (v : V) (m : Map K V)
      → Memᴰ (k, v) (retain p m) ↔ (Memᴰ (k, v) m × (p k v ≡ true))
  unfolding retain
  retain-Memᴰ p k v [] = (λ h. absurd (Memᴰ.not-nil h), λ h. absurd (Memᴰ.not-nil h.0))
  retain-Memᴰ p k v ((j, w) ∷ m) = elim (Bool-cases (p j w)) [
    | inl stays ↦ rw stays (
      λ h. elim (Memᴰ.cases_cons h) [
        | inl e ↦ (Memᴰ.head e, ap (λ x. p x.0 x.1) e ∙ stays)
        | inr h' ↦ let (there, holds) = (retain-Memᴰ p k v m).0 h' in (Memᴰ.tail there, holds)
      ],
      λ (h, holds). elim (Memᴰ.cases_cons h) [
        | inl e ↦ Memᴰ.head e
        | inr h' ↦ Memᴰ.tail ((retain-Memᴰ p k v m).1 (h', holds))
      ],
    )
    | inr goes ↦ rw goes (
      λ h. let (there, holds) = (retain-Memᴰ p k v m).0 h in (Memᴰ.tail there, holds),
      λ (h, holds). elim (Memᴰ.cases_cons h) [
        | inl e ↦ let same = ap (λ x. p x.0 x.1) e in absurd (cc)
        | inr h' ↦ (retain-Memᴰ p k v m).1 (h', holds)
      ],
    )
  ]

module _ (t : Ton) (a : ArcCache) where
  keep_master_block-Within :
      (cfg : CacheConfig) (last : BlockIdExt) (k : ℕ) (b : MasterBlock t a)
      → last.seqno < 2 ^ 32
      → b.block.id.seqno < 2 ^ 32
      → (keep_master_block t a cfg last k (some b) ≡ true)
        ↔ Within cfg.max_master_block_seqno_diff_to_cache b.block.id.seqno last.seqno
  unfolding keep_master_block
  keep_master_block-Within cfg last k b h j = ground arith

  -- `b` becomes, or stays, the last block. A masterchain entry is kept exactly if it has no data
  -- yet or lies in the window of the configuration.
  pub data Cleaned (id : BlockIdExt) (s s' : State t a) : Type 0 where
    not_newer :
        (last : BlockIdExt)
        → s.last_block ≡ some last
        → id.seqno ≤ last.seqno
        → s' ≡ s
        → Cleaned id s s'
    newest :
        ((last : BlockIdExt) → s.last_block ≡ some last → last.seqno < id.seqno)
        → s'.last_block ≡ some id
        → ((k : ℕ) → Memᴰ (k, none) s'.master_blocks ↔ Memᴰ (k, none) s.master_blocks)
        → ((k : ℕ) (b : MasterBlock t a)
            → b.block.id.seqno < 2 ^ 32
            → Memᴰ (k, some b) s'.master_blocks ↔ (
                Memᴰ (k, some b) s.master_blocks
                × Within s.config.max_master_block_seqno_diff_to_cache b.block.id.seqno id.seqno))
        → s'.broadcasts ≡ s.broadcasts + 1
        → Cleaned id s s'

  last_of_old :
      (id : BlockIdExt) (l : Option BlockIdExt)
      → is_newer t a id l ≡ false
      → (last : BlockIdExt) × (l ≡ some last) × (id.seqno ≤ last.seqno)
  unfolding is_newer
  last_of_old id none old = absurd (cc)
  last_of_old id (some last) old = (last, refl, ground arith)

  last_of_new :
      (id : BlockIdExt) (l : Option BlockIdExt)
      → is_newer t a id l ≡ true
      → (last : BlockIdExt) → l ≡ some last
      → last.seqno < id.seqno
  unfolding is_newer
  last_of_new id none new last e = absurd (cc)
  last_of_new id (some x) new last e =
      let same : x ≡ last = cc in subst (λ y. y.seqno < id.seqno) same (ground arith)

  Published-Cleaned :
      (id : BlockIdExt) (s s' : State t a)
      → id.seqno < 2 ^ 32
      → Published t a id s s'
      → Cleaned id s s'
  Published-Cleaned id s s' h (kept old same) =
      let (last, e, bound) = last_of_old id s.last_block old in not_newer last e bound same
  Published-Cleaned id s s' h (advanced new last master cfg br) =
      newest (last_of_new id s.last_block new) last
        (λ k.
          subst (λ m. Memᴰ (k, none) m ↔ Memᴰ (k, none) s.master_blocks) (sym master) (unfetched k))
        (λ k b j.
          subst
            (λ m. Memᴰ (k, some b) m ↔ (
              Memᴰ (k, some b) s.master_blocks
              × Within s.config.max_master_block_seqno_diff_to_cache b.block.id.seqno id.seqno))
            (sym master) (fetched k b j))
        br
    where
      stays :
          (k : ℕ) (o : Option (MasterBlock t a))
          → Memᴰ (k, o) (retain (keep_master_block t a s.config id) s.master_blocks)
            ↔ (Memᴰ (k, o) s.master_blocks × (keep_master_block t a s.config id k o ≡ true))
      stays k o = retain-Memᴰ (keep_master_block t a s.config id) k o s.master_blocks

      unfetched :
          (k : ℕ)
          → Memᴰ (k, none) (retain (keep_master_block t a s.config id) s.master_blocks)
            ↔ Memᴰ (k, none) s.master_blocks
      unfetched k =
          (λ x. ((stays k none).0 x).0, λ x. (stays k none).1 (x, unfold keep_master_block in refl))

      fetched :
          (k : ℕ) (b : MasterBlock t a)
          → b.block.id.seqno < 2 ^ 32
          → Memᴰ (k, some b) (retain (keep_master_block t a s.config id) s.master_blocks) ↔ (
              Memᴰ (k, some b) s.master_blocks
              × Within s.config.max_master_block_seqno_diff_to_cache b.block.id.seqno id.seqno)
      fetched k b j =
          let window = keep_master_block-Within s.config id k b h j in
          (
            λ x. let (there, keep) = (stays k (some b)).0 x in (there, window.0 keep),
            λ x. (stays k (some b)).1 (x.0, window.1 x.1),
          )

  -- For seqnos of 32 bits: the publication of a fetched block, which neither fails nor panics,
  -- changes nothing if a block with that seqno or a newer one is the last block. Else it makes it
  -- the last block and broadcasts once; of the masterchain entries it keeps those without data,
  -- those in the window of the configuration, counted back from the new block and around the
  -- overflow, and no others, and it adds none.
  pub publish-Cleaned :
      (id : BlockIdExt) (shards : List BlockIdExt) (s : State t a)
      → id.seqno < 2 ^ 32
      → Post (λ _ s'. Cleaned id s s') (λ _. ⊥) (publish t a id shards s)
  publish-Cleaned id shards s h =
      Post-imp (λ _ s' p. Published-Cleaned id s s' h p) (λ _ e. e)
        (publish-Published t a id shards s)
