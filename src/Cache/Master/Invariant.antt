-- ===== src/Cache/Master/Invariant.antt =====
-- The masterchain blocks in the cache are the ones that their ids name, and none is newer than the
-- last block.
use native.Mathlib.Nat.{le_trans}
use tonutils_liteserver_prox.Base.{
  ℕ, ◌≤◌, ◌≡◌, refl, ap, sym, subst, Bool, true, false, Option, none, some, List, [], ◌∷◌, All,
  Bool-cases, Option-cases, inl, inr, arith, nat_key,
}
use tonutils_liteserver_prox.Base.Int.{int_key, int_eq_iff}
use tonutils_liteserver_prox.Base.Maps.{Map, lookup, All-insert, All-lookup, All-retain}
use tonutils_liteserver_prox.Base.Action.{Error, Fallible, ok, err, Action, lift, wrapping}
use tonutils_liteserver_prox.Base.Hoare.{
  Post, returns, fails, bind-Post, lift-Post, wrapping-Post, Post-imp, pure-Post,
}
use tonutils_liteserver_prox.Ton.{Ton, TonLaws, ArcCache, BlockIdExt, McExtra}
use tonutils_liteserver_prox.Cache.State.{State, MasterBlock, masterchain}
use tonutils_liteserver_prox.Cache.Frame.{
  Frame, Frame-refl, Framed, get_block-Framed, get_blockchain_config-Framed,
  new_accounts_cache-Framed,
}
use tonutils_liteserver_prox.Cache.Master.Publish.{is_newer, publish}
use tonutils_liteserver_prox.Cache.Master.Publication.{Published, kept, advanced, publish-Published}
use tonutils_liteserver_prox.Cache.Master.{
  last_seqno, refusal, fetched, ensure_entry, master_config, new_master_block, store_master,
  fill_master, get_master_block, get_blockchain_config, answer_master,
}

module _ (t : Ton) (a : ArcCache) where
  -- A fetched block is the one that its id names: the seqno is its key, and the root hash is the
  -- hash of its data.
  pub record IsGenuine (k : ℕ) (b : MasterBlock t a) : Type 0 where
    pub keyed : b.block.id.seqno ≡ k
    pub in_masterchain : b.block.id.workchain ≡ masterchain
    pub hashed : t.cell_hash b.block.body.data_cell ≡ b.block.id.root_hash
    pub own_master : b.block.body.master_id ≡ b.block.id

  -- what holds of an entry when the last seqno is `n`
  abbrev pub EntryOk : ℕ → ℕ × Option (MasterBlock t a) → Type 0
  EntryOk n (k, none) = Unit {0}
  EntryOk n (k, some b) = IsGenuine k b × (b.block.id.seqno ≤ n)

  EntryOk-mono :
      (m n : ℕ) (es : Map ℕ (Option (MasterBlock t a)))
      → m ≤ n
      → All (EntryOk m) es
      → All (EntryOk n) es
  EntryOk-mono m n [] h v = tt
  EntryOk-mono m n ((k, none) ∷ es) h v = (tt, EntryOk-mono m n es h v.1)
  EntryOk-mono m n ((k, some b) ∷ es) h v = ((v.0.0, omega arith), EntryOk-mono m n es h v.1)

  older_bound :
      (id : BlockIdExt) (l : Option BlockIdExt)
      → is_newer t a id l ≡ false
      → id.seqno ≤ last_seqno t a l
  unfolding is_newer last_seqno
  older_bound id none h = cc
  older_bound id (some last) h = ground arith

  newer_bound :
      (id : BlockIdExt) (l : Option BlockIdExt)
      → is_newer t a id l ≡ true
      → last_seqno t a l ≤ id.seqno
  unfolding is_newer last_seqno
  newer_bound id none h = omega arith
  newer_bound id (some last) h = ground arith

  refusal-masterchain :
      (id : BlockIdExt) (s : State t a) → refusal t a id s ≡ none → id.workchain ≡ masterchain
  unfolding refusal
  refusal-masterchain id s h = ground (arith, int_eq_iff id.workchain masterchain)

  master_config-Framed :
      (ctx : t.Ctx) (id : BlockIdExt) (custom : McExtra t.Dict)
      → Framed t a (master_config t a ctx id custom) (λ _. Unit {0})
  unfolding master_config
  master_config-Framed ctx id custom s = elim (Bool-cases custom.key_block) [
    | inl key ↦ rw key (returns (tt, Frame-refl t a s))
    | inr plain_block ↦ rw plain_block (of_previous (fetched t a (lookup _ s.master_blocks)))
  ]
    where
      of_previous :
          (prev : Option (MasterBlock t a))
          → Post
              (λ _ s'. Unit {0} × Frame t a s s')
              (Frame t a s)
              (elim prev [
                | some p ↦ ok p.config s
                | none ↦ wrapping "failed to get config" (get_blockchain_config t a ctx id) s
              ])
      of_previous (some p) = returns (tt, Frame-refl t a s)
      of_previous none = wrapping-Post _ _ s (get_blockchain_config-Framed t a ctx id s)

  module _ (m : ℕ) where
    -- The last seqno is at least `m`, and all entries are genuine and at most the last seqno.
    pub record IsValid (s : State t a) : Type 0 where
      pub reached : m ≤ last_seqno t a s.last_block
      pub entries : All (EntryOk (last_seqno t a s.last_block)) s.master_blocks

    -- `IsValid` speaks of two fields only.
    pub IsValid-same :
        {s s' : State t a}
        → s'.last_block ≡ s.last_block
        → s'.master_blocks ≡ s.master_blocks
        → IsValid s
        → IsValid s'
    IsValid-same {s} {s'} l ms v = record {
      reached = rw l v.reached;
      entries = rw (l, ms) v.entries;
    }

    pub Frame-IsValid : {s s' : State t a} → IsValid s → Frame t a s s' → IsValid s'
    Frame-IsValid v f = IsValid-same f.last_block f.master_blocks v

    -- The entries are genuine, and none is newer than the last block and the block `id`.
    abbrev pub IsReady : BlockIdExt → State t a → Type 0
    IsReady id s =
        (m ≤ last_seqno t a s.last_block)
        × ((n : ℕ)
            → last_seqno t a s.last_block ≤ n
            → id.seqno ≤ n
            → All (EntryOk n) s.master_blocks)

    store_master-IsReady :
        (id : BlockIdExt) (b : MasterBlock t a) (s : State t a)
        → IsGenuine id.seqno b
        → b.block.id ≡ id
        → IsValid s
        → Post (λ _ s'. IsReady id s') IsValid (store_master t a id b s)
    unfolding store_master
    store_master-IsReady id b s g e v = returns (
      v.reached,
      λ n h k.
          All-insert _ id.seqno (some b) s.master_blocks
            (g, rw (ap (λ (x : BlockIdExt). x.seqno) e) k)
            (EntryOk-mono _ n s.master_blocks h v.entries),
    )

    -- The last block is `id` or a newer one.
    abbrev pub HasReached : BlockIdExt → State t a → Type 0
    HasReached id s = id.seqno ≤ last_seqno t a s.last_block

    -- `publish` makes a state valid whose entries are genuine and at most the published block.
    publish-IsValid :
        (id : BlockIdExt) (shards : List BlockIdExt) (s : State t a)
        → IsReady id s
        → Post (λ _ s'. IsValid s' × HasReached id s') (λ _. ⊥) (publish t a id shards s)
    publish-IsValid id shards s h =
        Post-imp (λ _ s' p. of_published s' p) (λ _ e. e) (publish-Published t a id shards s)
      where
        of_published : (s' : State t a) → Published t a id s s' → IsValid s' × HasReached id s'
        of_published s' (kept old e) =
            subst (λ x. IsValid x × HasReached id x) (sym e)
              (
                record {
                  reached = h.0;
                  entries = h.1 _ (omega arith) (older_bound id s.last_block old);
                },
                older_bound id s.last_block old,
              )
        of_published s' (advanced new last ms cfg br) = (
          record {
            reached = rw last (unfold last_seqno in le_trans h.0 (newer_bound id s.last_block new));
            entries =
                rw (last, ms)
                  (All-retain _ _ s.master_blocks (
                    unfold last_seqno in
                    h.1 id.seqno (newer_bound id s.last_block new) (omega arith)));
          },
          rw last (unfold last_seqno in omega arith),
        )

    ensure_entry-IsValid : (k : ℕ) (s : State t a) → IsValid s → IsValid (ensure_entry t a k s)
    unfolding ensure_entry
    ensure_entry-IsValid k s v = elim (Option-cases (lookup k s.master_blocks)) [
      | inl e ↦
          rw (e, ensure_entry)
            (record {
              reached = v.reached;
              entries = All-insert _ k none s.master_blocks tt v.entries;
            })
      | inr (b, e) ↦ rw (e, ensure_entry) v
    ]

    lift-IsValid :
        {A : Type 0} (x : Fallible A) (s : State t a)
        → IsValid s
        → Post (λ _ s'. IsValid s') IsValid (lift x s)
    lift-IsValid x s v = lift-Post _ _ x s (λ _ _. v) v

    pub Framed-IsValid :
        {A : Type 0} (Q : A → Type 0) (m : Action (State t a) A)
        → Framed t a m Q
        → (s : State t a) → IsValid s
        → Post (λ x s'. Q x × IsValid s') IsValid (m s)
    Framed-IsValid Q m f s v =
        Post-imp (λ _ _ p. (p.0, Frame-IsValid v p.1)) (λ _ g. Frame-IsValid v g) (f s)

    -- what a call of `GetMasterBlock` for `id` returns
    abbrev pub Answers : BlockIdExt → MasterBlock t a × Bool → State t a → Type 0
    Answers id r s' = IsValid s' × HasReached id s' × (r.0.block.id ≡ id) × IsGenuine id.seqno r.0

    fill_master-IsValid :
        (ctx : t.Ctx) (id : BlockIdExt) (s : State t a)
        → id.workchain ≡ masterchain
        → IsValid s
        → Post
            (λ b s'. IsValid s' × HasReached id s' × (b.block.id ≡ id) × IsGenuine id.seqno b)
            IsValid
            (fill_master t a ctx id s)
    unfolding fill_master
    fill_master-IsValid ctx id s wc v =
        bind-Post _ _ _ (wrapping-Post _ _ s (Framed-IsValid _ _ (get_block-Framed t a ctx id) s v))
          λ cell s₁ (hash, v₁). bind-Post _ _ _ (lift-IsValid _ s₁ v₁) λ block s₂ v₂.
            bind-Post _ _ _ (lift-IsValid _ s₂ v₂) λ first s₃ v₃.
              bind-Post _ _ _ (lift-IsValid _ s₃ v₃) λ second s₄ v₄.
                bind-Post _ _ _ (lift-IsValid _ s₄ v₄) λ parts s₅ v₅.
                  bind-Post _ _ _ (Framed-IsValid _ _ (master_config-Framed ctx id parts.1) s₅ v₅)
                    λ cfg s₆ (_, v₆). bind-Post _ _ _ (lift-IsValid _ s₆ v₆) λ accounts s₇ v₇.
                      bind-Post _ _ _ (lift-IsValid _ s₇ v₇) λ shards s₈ v₈.
                        bind-Post _ _ _ (Framed-IsValid _ _ (new_accounts_cache-Framed t a) s₈ v₈)
                          λ cache s₉ (_, v₉).
                            let b =
                              new_master_block t a id cell accounts cache second.0 block.gen_utime
                                cfg in
                            let g : IsGenuine id.seqno b = record {
                              keyed = refl;
                              in_masterchain = wc;
                              hashed = hash;
                              own_master = refl;
                            } in
                            bind-Post _ _ _ (store_master-IsReady id b s₉ g refl v₉) λ _ s₁₀ ready.
                              bind-Post _ _ _
                                (Post-imp (λ _ _ v'. v') (λ _ x. absurd x)
                                  (publish-IsValid id shards s₁₀ ready))
                                λ _ s' v'. pure-Post _ s' (v'.0, v'.1, refl, g)

    fetched-EntryOk :
        (k : ℕ) (b : MasterBlock t a) (s : State t a)
        → fetched t a (lookup k s.master_blocks) ≡ some b
        → IsValid s
        → IsGenuine k b × (b.block.id.seqno ≤ last_seqno t a s.last_block)
    fetched-EntryOk k b s e v = All-lookup _ k (some b) s.master_blocks (ground arith) v.entries

    -- With ids compared as documented, and whatever the backends answer, a call of
    -- `GetMasterBlock` in a valid cache leaves a valid cache, also when it fails: the last seqno
    -- does not fall below `m`, and each fetched entry is genuine and at most the last seqno. If it
    -- returns a block, that block has the requested id, which lies in the masterchain, its data
    -- has the root hash of that id, and the last seqno is then at least its seqno.
    pub get_master_block-IsValid :
        (laws : TonLaws t) (ctx : t.Ctx) (id : BlockIdExt) (s : State t a)
        → IsValid s
        → Post (Answers id) IsValid (get_master_block t a ctx id s)
    unfolding get_master_block
    get_master_block-IsValid laws ctx id s v = of_refusal (refusal t a id s) refl
      where
        s₁ : State t a
        s₁ = ensure_entry t a id.seqno s

        v₁ : IsValid s₁
        v₁ = ensure_entry-IsValid id.seqno s v

        of_entry :
            (o : Option (MasterBlock t a))
            → fetched t a (lookup id.seqno s₁.master_blocks) ≡ o
            → id.workchain ≡ masterchain
            → Post (Answers id) IsValid (answer_master t a ctx id o s₁)
        of_entry (some b) e wc = elim (Bool-cases (t.id_equals b.block.id id)) [
          | inl same ↦ rw same (
              let (g, bound) = fetched-EntryOk id.seqno b s₁ e v₁ in
              returns (
                v₁,
                subst (λ k. k ≤ last_seqno t a s₁.last_block) g.keyed bound,
                (laws.equals_iff _ _).0 same,
                g,
              ))
          | inr other ↦ rw other (fails v₁)
        ]
        of_entry none e wc =
            bind-Post _ _ _ (fill_master-IsValid ctx id s₁ wc v₁)
              λ b s' r. pure-Post _ s' (r.0, r.1, r.2, r.3)

        of_refusal :
            (o : Option Error)
            → refusal t a id s ≡ o
            → Post (Answers id) IsValid (elim o [
              | some e ↦ err e s
              | none ↦ answer_master t a ctx id (fetched t a (lookup id.seqno s₁.master_blocks)) s₁
            ])
        of_refusal (some e) h = fails v
        of_refusal none h = of_entry _ refl (refusal-masterchain id s h)
