-- ===== src/Cache/Shard/Poison.antt =====
-- The entry of a shard block keeps the id of the first request for its seqno, also when that id
-- was wrong and the fetch for it failed.
use tonutils_liteserver_prox.Base.{
  ◌≡◌, ◌≢◌, refl, ap, subst, sym, ◌∙◌, Bool, true, false, not, Option, none, some, arith, nat_key,
  bytes_key, ◌==◌, Bool-cases, inl, inr,
}
use tonutils_liteserver_prox.Base.Int.{int_key, int_eq_iff, pos}
use tonutils_liteserver_prox.Base.Maps.{lookup}
use tonutils_liteserver_prox.Base.Action.{Result, Error, ls, err, ◌>>◌}
use tonutils_liteserver_prox.Base.Hoare.{Post, bind-Post, Post-imp}
use tonutils_liteserver_prox.Ton.{Ton, TonLaws, ArcCache, BlockIdExt}
use tonutils_liteserver_prox.Cache.State.{State, Block, Body, ShardBlock, ShardInfo, masterchain}
use tonutils_liteserver_prox.Cache.Shard.{
  answer_shard, fill_shard, cache_shard_block, cache_block_if_needed, need_shard, store_shard,
  shard_entry,
}
use tonutils_liteserver_prox.Cache.Shard.Entry.{
  key, HasEntry, Filled, store_shard-HasEntry, fill_shard-Filled,
}

-- the error for an id that is not the one in the cache
abbrev pub wrong_id : Error
wrong_id = ls (record { code = pos 403; text = "incorrect block id" })

-- The entry for `id` bears the id `own`, with data or without.
abbrev pub Bears : (t : Ton) (a : ArcCache) → BlockIdExt → BlockIdExt → State t a → Type 0
Bears t a id own s = (o : Option (Body t a)) × HasEntry t a id (record { id = own; body = o }) s

module _ (t : Ton) (a : ArcCache) (id : BlockIdExt) (other : id.workchain ≢ masterchain) where
  not_master : not (id.workchain == masterchain) ≡ true
  not_master = ground (arith, int_eq_iff id.workchain masterchain)

  shard_branch :
      (ctx : t.Ctx) (s : State t a)
      → cache_block_if_needed t a ctx id s ≡ cache_shard_block t a ctx id s
  unfolding cache_block_if_needed
  shard_branch ctx s = rw (not_master, cache_block_if_needed) refl

  module _ (ctx : t.Ctx) (s : State t a) (si : ShardInfo t a)
      (shard : lookup (key t a id) s.shard_blocks ≡ some si) where
    at_entry :
        cache_shard_block t a ctx id s
        ≡ answer_shard t a ctx id
            (need_shard t a id (some si) s)
            (lookup id.seqno si.shard_blocks)
            s
    unfolding cache_shard_block
    at_entry =
        ap (λ x. answer_shard t a ctx id (need_shard t a id x s) (shard_entry t a x id.seqno) s)
          shard

    -- the fetch of a recent block whose entry holds no data, under the id that the entry bears
    abbrev fetch : BlockIdExt → Result (State t a) (Option (Block t a) × Bool)
    fetch own =
        (store_shard t a (key t a id) id.seqno (record { id = own; body = none })
            >> fill_shard t a ctx id (key t a id) (record { id = own; body = none }))
          s

    fetch_starts :
        (own : BlockIdExt) (o : Option (ShardBlock t a))
        → lookup id.seqno si.shard_blocks ≡ o
        → answer_shard t a ctx id true o s ≡ fetch own
        → need_shard t a id (some si) s ≡ true
        → cache_shard_block t a ctx id s ≡ fetch own
    fetch_starts own o e starts need = at_entry ∙ (rw (need, e) starts)

    fetch-Filled :
        (own : BlockIdExt)
        → Post (Filled t a id own) (HasEntry t a id (record { id = own; body = none })) (fetch own)
    fetch-Filled own =
        bind-Post _ _ _ (store_shard-HasEntry t a id _ s (si, shard))
          λ _ s' h. fill_shard-Filled t a id ctx own s' h

    -- An entry with data is compared with the id that is asked for.
    other_refused :
        (bad : BlockIdExt) (body : Body t a)
        → lookup id.seqno si.shard_blocks ≡ some (record { id = bad; body = some body })
        → t.id_equals bad id ≡ false
        → cache_shard_block t a ctx id s ≡ err wrong_id s
    other_refused bad body e differ = at_entry ∙ (rw e (unfold answer_shard in rw differ refl))

  -- Whatever becomes of the first request for a recent seqno of a shard that the cache knows, the
  -- entry of that seqno afterwards bears the id of that request, right or wrong. If the request
  -- succeeds, the data has the root hash of that id.
  pub first_id_kept :
      (ctx : t.Ctx) (s : State t a) (si : ShardInfo t a)
      → lookup (key t a id) s.shard_blocks ≡ some si
      → lookup id.seqno si.shard_blocks ≡ none
      → need_shard t a id (some si) s ≡ true
      → Post
          (λ r s'. Filled t a id id r s' × Bears t a id id s')
          (Bears t a id id)
          (cache_block_if_needed t a ctx id s)
  first_id_kept ctx s si shard empty need = subst (Post _ _) (sym (shard_branch ctx s)) (
      subst (Post _ _)
        (sym (fetch_starts ctx s si shard id none empty (unfold answer_shard in refl) need))
        (Post-imp (λ r s' f. (f, (some f.0, f.3))) (λ s' h. (none, h))
          (fetch-Filled ctx s si shard id)))

  -- With ids compared as documented: a request for a recent block `id` of a shard that the cache
  -- knows, while the entry of its seqno has no data and bears another id, either fails and leaves
  -- the entry so, or returns data with the root hash of `id` under the other id, in a state in
  -- which every further request for `id` is refused.
  pub wrong_id_poisons :
      (laws : TonLaws t) (ctx : t.Ctx) (bad : BlockIdExt) (s : State t a) (si : ShardInfo t a)
      → bad ≢ id
      → lookup (key t a id) s.shard_blocks ≡ some si
      → lookup id.seqno si.shard_blocks ≡ some (record { id = bad; body = none })
      → need_shard t a id (some si) s ≡ true
      → Post
          (λ r s'.
            Filled t a id bad r s'
            × ((later : t.Ctx) → cache_block_if_needed t a later id s' ≡ err wrong_id s'))
          (HasEntry t a id (record { id = bad; body = none }))
          (cache_block_if_needed t a ctx id s)
  wrong_id_poisons laws ctx bad s si differ shard entry need =
      subst (Post _ _) (sym (shard_branch ctx s)) (
        subst (Post _ _)
          (sym (fetch_starts ctx s si shard bad _ entry (unfold answer_shard in refl) need))
          (Post-imp
            (λ r s' f. (
              f,
              λ later.
                  shard_branch later s' ∙ other_refused later s' f.3.0 f.3.1 bad f.0 f.3.2 unequal,
            ))
            (λ s' h. h) (fetch-Filled ctx s si shard bad)))
    where
      unequal : t.id_equals bad id ≡ false
      unequal = elim (Bool-cases (t.id_equals bad id)) [
        | inl same ↦ absurd (differ ((laws.equals_iff bad id).0 same))
        | inr e ↦ e
      ]
