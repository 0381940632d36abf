-- ===== src/Cache/Frame.antt =====
-- Queries leave the maps of the cache alone, and the answers that are let through are checked.
use tonutils_liteserver_prox.Base.{
  String, ◌≡◌, refl, ◌∙◌, bytes_eq_sound, arith, Bool-cases, ltb, inl, inr,
}
use tonutils_liteserver_prox.Base.Action.{
  Fallible, good, bad, Result, ok, err, panic, Action, lift, ◌>>=◌,
}
use tonutils_liteserver_prox.Base.Hoare.{Post, returns, fails, panics, bind-Post, lift-Post}
use tonutils_liteserver_prox.Ton.{
  Ton, ArcCache, BlockIdExt, Request, Message, AccountState, block_data, get_block_data,
}
use tonutils_liteserver_prox.Backend.{Net, query}
use tonutils_liteserver_prox.Cache.State.{State, ask, read_clock}
use tonutils_liteserver_prox.Cache.Fetch.{
  block_of_answer, get_block, get_blockchain_config, config_of_answer,
}
use tonutils_liteserver_prox.Cache.Accounts.{keep_accounts_cache, new_accounts_cache}

module _ (t : Ton) (a : ArcCache) where
  -- `s'` differs from `s` at most in the network and in the caches of accounts.
  pub record Frame (s s' : State t a) : Type 0 where
    pub config : s'.config ≡ s.config
    pub libs_cache : s'.libs_cache ≡ s.libs_cache
    pub last_block : s'.last_block ≡ s.last_block
    pub zero_state : s'.zero_state ≡ s.zero_state
    pub master_blocks : s'.master_blocks ≡ s.master_blocks
    pub shard_blocks : s'.shard_blocks ≡ s.shard_blocks
    pub broadcasts : s'.broadcasts ≡ s.broadcasts

  pub Frame-refl : (s : State t a) → Frame s s
  Frame-refl s = record {
    config = refl;
    libs_cache = refl;
    last_block = refl;
    zero_state = refl;
    master_blocks = refl;
    shard_blocks = refl;
    broadcasts = refl;
  }

  pub Frame-trans : {s s' s'' : State t a} → Frame s s' → Frame s' s'' → Frame s s''
  Frame-trans f g = record {
    config = g.config ∙ f.config;
    libs_cache = g.libs_cache ∙ f.libs_cache;
    last_block = g.last_block ∙ f.last_block;
    zero_state = g.zero_state ∙ f.zero_state;
    master_blocks = g.master_blocks ∙ f.master_blocks;
    shard_blocks = g.shard_blocks ∙ f.shard_blocks;
    broadcasts = g.broadcasts ∙ f.broadcasts;
  }

  -- an action that ends in a frame of the state in which it began
  abbrev pub Framed : {A : Type 0} → Action (State t a) A → (A → Type 0) → Type 0
  Framed m Q = (s : State t a) → Post (λ x s'. Q x × Frame s s') (Frame s) (m s)

  of_net : (s : State t a) (n : Net t) → Frame s (record s { net = n })
  of_net s n = record {
    config = refl;
    libs_cache = refl;
    last_block = refl;
    zero_state = refl;
    master_blocks = refl;
    shard_blocks = refl;
    broadcasts = refl;
  }

  pub ask-Framed : (ctx : t.Ctx) (req : Request) → Framed (ask t a ctx req) (λ _. Unit {0})
  unfolding ask
  ask-Framed ctx req s = go (query t ctx req s.net)
    where
      go :
          (r : Result (Net t) (Message t.Cell))
          → Post
              (λ x s'. Unit {0} × Frame s s')
              (Frame s)
              (elim r [
                | ok m n ↦ ok m (record s { net = n })
                | err e n ↦ err e (record s { net = n })
                | panic p n ↦ panic p (record s { net = n })
              ])
      go (ok m n) = returns (tt, of_net s n)
      go (err e n) = fails (of_net s n)
      go (panic p n) = panics (of_net s n)

  pub read_clock-Framed : Framed (read_clock t a) (λ _. Unit {0})
  unfolding read_clock
  read_clock-Framed s = returns (tt, of_net s _)

  -- a query and a check of its answer
  pub checked-Framed :
      {A : Type 0} (Q : A → Type 0) (ctx : t.Ctx) (req : Request)
      (check : Message t.Cell → Fallible A)
      → ((m : Message t.Cell) (x : A) → check m ≡ good x → Q x)
      → Framed (ask t a ctx req >>= λ m. lift (check m)) Q
  checked-Framed Q ctx req check sound s =
      bind-Post _ _ s (ask-Framed ctx req s)
        λ m s' f. lift-Post _ _ (check m) s' (λ x e. (sound m x e, f.1)) f.1

  block_of_answer-hash :
      (id : BlockIdExt) (m : Message t.Cell) (c : t.Cell)
      → block_of_answer t id m ≡ good c
      → t.cell_hash c ≡ id.root_hash
  unfolding block_of_answer
  block_of_answer-hash id (block_data of payload) c e =
      ground (arith, bytes_eq_sound (t.cell_hash payload) id.root_hash)
  block_of_answer-hash id _ c e = cc

  -- `getBlock` lets only cells through whose hash is the root hash of the id.
  pub get_block-Framed :
      (ctx : t.Ctx) (id : BlockIdExt)
      → Framed (get_block t a ctx id) (λ c. t.cell_hash c ≡ id.root_hash)
  unfolding get_block
  get_block-Framed ctx id =
      checked-Framed _ ctx (get_block_data id) (block_of_answer t id) (block_of_answer-hash id)

  pub get_blockchain_config-Framed :
      (ctx : t.Ctx) (id : BlockIdExt) → Framed (get_blockchain_config t a ctx id) (λ _. Unit {0})
  unfolding get_blockchain_config
  get_blockchain_config-Framed ctx id = checked-Framed _ ctx _ (config_of_answer t id) (λ m x e. tt)

  keep_accounts_cache-Framed :
      (x : Fallible (a.Arc String (AccountState t.Cell)))
      → Framed (keep_accounts_cache t a x) (λ _. Unit {0})
  unfolding keep_accounts_cache
  keep_accounts_cache-Framed (good c) s = returns (
    tt,
    record {
      config = refl;
      libs_cache = refl;
      last_block = refl;
      zero_state = refl;
      master_blocks = refl;
      shard_blocks = refl;
      broadcasts = refl;
    },
  )
  keep_accounts_cache-Framed (bad e) s = fails (Frame-refl s)

  pub new_accounts_cache-Framed : Framed (new_accounts_cache t a) (λ _. Unit {0})
  unfolding new_accounts_cache
  new_accounts_cache-Framed s = elim (Bool-cases (ltb 0 s.config.max_cached_accounts_per_block)) [
    | inl on ↦ rw on (keep_accounts_cache-Framed _ s)
    | inr off ↦ rw off (returns (tt, Frame-refl s))
  ]
