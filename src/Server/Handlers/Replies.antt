-- ===== src/Server/Handlers/Replies.antt =====
-- What the replies of the handlers hold.
use tonutils_liteserver_prox.Base.Int.{pos}
use tonutils_liteserver_prox.Base.{
  ◌≢◌, String, Bytes, ◌≡◌, refl, sym, ap, ◌∙◌, subst, Option, Option-cases, none, inl, inr, some,
  List, All, Bool, ℕ,
}
use tonutils_liteserver_prox.Base.Action.{
  Error, ls, plain, wrapped, good, Action, Result, ok, err, panic, LsError,
}
use tonutils_liteserver_prox.Base.Hoare.{Post, returns, fails, panics}
use tonutils_liteserver_prox.Ton.{
  Ton, TonLaws, ArcCache, ArcLaws, library_result, MasterchainInfo, ls_error, Message, BlockIdExt,
  masterchain_info,
}
use tonutils_liteserver_prox.Cache.Libraries.{get_libraries}
use tonutils_liteserver_prox.Cache.Master.{get_last_master_block, get_master_block, get_zero_state}
use tonutils_liteserver_prox.Cache.Master.Invariant.{IsValid, Answers, get_master_block-IsValid}
use tonutils_liteserver_prox.Cache.State.{State, MasterBlock}
use tonutils_liteserver_prox.Cache.Libraries.Genuine.{IsNamed, IsGenuine, get_libraries-Given}
use tonutils_liteserver_prox.Server.Services.{Services, WaitMasterBlock, services}
use tonutils_liteserver_prox.Server.Handlers.{
  with_zero_state, HitType, Reply, answering, err_timeout, failure, handle_get_libraries,
  handle_get_masterchain_info, libraries_reply, masterchain_info_reply,
}

-- a reply that is an `LSError`
abbrev pub IsError : (t : Ton) → Reply t → Type 0
IsError t r = (x : LsError) × (r.0 ≡ some (ls_error x))

module _ (t : Ton) (a : ArcCache) {S : Type 0} (v : Services t a S) where
  -- How `answering` goes on: `R` holds of the reply after an error, and of the reply that `f` gives.
  pub answering-Post :
      {A : Type 0} {Q : A → S → Type 0} {E : S → Type 0} {R : Reply t → S → Type 0}
      (text : Error → String) (hit : HitType) (ctx : t.Ctx) (m : Action S A)
      (f : A → Action S (Reply t)) (s : S)
      → Post Q E (m s)
      → ((e : Error) (s' : S) → E s' → R (failure t a v text hit ctx e s') s')
      → ((x : A) (s' : S) → Q x s' → Post R E (f x s'))
      → Post R E (answering t a v text hit ctx m f s)
  unfolding answering
  answering-Post {A} {Q} {E} {R} text hit ctx m f s p after next = go (m s) p
    where
      go :
          (r : Result S A)
          → Post Q E r
          → Post R E (elim r [
            | ok x s' ↦ f x s'
            | err e s' ↦ ok (failure t a v text hit ctx e s') s'
            | panic x s' ↦ panic x s'
          ])
      go (ok x s') (returns q) = next x s' q
      go (err e s') (fails h) = returns (after e s' h)
      go (panic x s') (panics h) = panics h

  -- A failure is answered by an `LSError`.
  pub failure-IsError :
      (text : Error → String) (hit : HitType) (ctx : t.Ctx) (e : Error) (s : S)
      → IsError t (failure t a v text hit ctx e s)
  unfolding failure
  failure-IsError text hit ctx (ls x) s = (x, refl)
  failure-IsError text hit ctx (plain m) s = elim (Option-cases (t.ctx_err ctx (v.world s))) [
    | inl e ↦ (record { code = pos 500; text = text (plain m) }, rw (e, failure) refl)
    | inr (x, e) ↦ (err_timeout, rw (e, failure) refl)
  ]
  failure-IsError text hit ctx (wrapped m y) s = elim (Option-cases (t.ctx_err ctx (v.world s))) [
    | inl e ↦ (record { code = pos 500; text = text (wrapped m y) }, rw (e, failure) refl)
    | inr (x, e) ↦ (err_timeout, rw (e, failure) refl)
  ]

module _ (t : Ton) (a : ArcCache) (wait : WaitMasterBlock t a)
    (random : ℕ → State t a → Bytes) where
  -- the server over a `BlockCache`
  abbrev over_cache : Services t a (State t a)
  over_cache = services t a wait random

  -- each library of a reply has the hash under which it is sent
  abbrev pub SendsGenuine : Reply t → Type 0
  SendsGenuine r =
      (es : List (Bytes × t.Cell))
      → r.0 ≡ some (library_result es)
      → All (λ x. IsNamed t a x.0 x.1) es

  failure-SendsGenuine :
      (text : Error → String) (hit : HitType) (ctx : t.Ctx) (e : Error) (s : State t a)
      → SendsGenuine (failure t a over_cache text hit ctx e s)
  failure-SendsGenuine text hit ctx e s es h =
      let (x, f) = failure-IsError t a over_cache text hit ctx e s in absurd (differ x (sym f ∙ h))
    where
      differ :
          (x : LsError)
          → ◌≢◌ {A = Option (Message t.Cell)} (some (ls_error x)) (some (library_result es))
      differ x p = cc

  libraries_reply-SendsGenuine :
      (cached : Bool) (d : t.Dict) (all : List (Bytes × t.Cell))
      → t.dict_load_all d ≡ good all
      → All (λ e. IsNamed t a e.0 e.1) all
      → SendsGenuine (libraries_reply t cached (t.dict_load_all d))
  unfolding libraries_reply
  libraries_reply-SendsGenuine cached d all listed g es e =
      let sent : ◌≡◌ {A = Option (Message t.Cell)} (some (library_result all))
          (some (library_result es)) =
        sym (ap (λ x. (libraries_reply t cached x).0) listed) ∙ e in
      let same : all ≡ es = cc in subst (All (λ x. IsNamed t a x.0 x.1)) same g

  -- With dictionaries and ARC caches as documented, and libraries in the cache that have the hashes
  -- that are their keys: whatever the backends answer, each library that `handleGetLibraries`
  -- sends to a client has the hash under which it is sent.
  pub handle_get_libraries-SendsGenuine :
      (laws : ArcLaws a) (ton : TonLaws t) (ctx : t.Ctx) (hashes : List Bytes) (s : State t a)
      → IsGenuine t a laws ton s
      → Post
          (λ r _. SendsGenuine r)
          (IsGenuine t a laws ton)
          (handle_get_libraries t a over_cache ctx hashes s)
  unfolding handle_get_libraries
  handle_get_libraries-SendsGenuine laws ton ctx hashes s g =
      answering-Post t a over_cache (λ _. "failed to get libraries") HitType.failed_validate ctx
        (get_libraries t a ctx hashes) (λ r s'. ok (libraries_reply t r.1 (t.dict_load_all r.0)) s')
        s (get_libraries-Given t a laws ton ctx hashes s g)
        (λ e s' _. failure-SendsGenuine (λ _. "failed to get libraries") _ ctx e s')
        λ r s' v. returns (libraries_reply-SendsGenuine r.1 r.0 v.0.0 v.0.1 v.0.2)

  get_last_master_block-known :
      (ctx : t.Ctx) (s : State t a) (last : BlockIdExt)
      → s.last_block ≡ some last
      → get_last_master_block t a ctx s ≡ get_master_block t a ctx last s
  unfolding get_last_master_block
  get_last_master_block-known ctx s last e = ap of_last e
    where
      of_last : Option BlockIdExt → Result (State t a) (MasterBlock t a × Bool)
      of_last none = err (plain "last master is not fetched yet") s
      of_last (some b) = get_master_block t a ctx b s

  -- the reply names `last`, if it is masterchain information
  abbrev pub Names : BlockIdExt → Reply t → Type 0
  Names last r = (i : MasterchainInfo) → r.0 ≡ some (masterchain_info i) → i.last ≡ last

  failure-Names :
      (text : Error → String) (hit : HitType) (ctx : t.Ctx) (e : Error) (s : State t a)
      (last : BlockIdExt)
      → Names last (failure t a over_cache text hit ctx e s)
  failure-Names text hit ctx e s last i h =
      let (x, f) = failure-IsError t a over_cache text hit ctx e s in absurd (differ x (sym f ∙ h))
    where
      differ :
          (x : LsError)
          → ◌≢◌ {A = Option (Message t.Cell)} (some (ls_error x)) (some (masterchain_info i))
      differ x p = cc

  masterchain_info_reply-Names :
      (m : ℕ) (b : MasterBlock t a) (cached : Bool) (s : State t a)
      → IsValid t a m s
      → Post
          (λ r s'. Names b.block.id r × IsValid t a m s')
          (IsValid t a m)
          (masterchain_info_reply t a over_cache b cached s)
  unfolding masterchain_info_reply get_zero_state
  masterchain_info_reply-Names m b cached s v = elim (Option-cases s.zero_state) [
    | inl e ↦ rw (e, masterchain_info_reply, with_zero_state) (returns ((λ i h. cc), v))
    | inr (z, e) ↦ rw (e, masterchain_info_reply, with_zero_state) (returns ((λ i h. cc), v))
  ]

  -- With ids compared as documented, in a valid cache with a known last block, and whatever the
  -- backends answer: masterchain information that `handleGetMasterchainInfo` sends names that
  -- block, and the cache stays valid.
  pub handle_get_masterchain_info-Names :
      (laws : TonLaws t) (m : ℕ) (ctx : t.Ctx) (last : BlockIdExt) (s : State t a)
      → IsValid t a m s
      → s.last_block ≡ some last
      → Post
          (λ r s'. Names last r × IsValid t a m s')
          (IsValid t a m)
          (handle_get_masterchain_info t a over_cache ctx s)
  unfolding handle_get_masterchain_info
  handle_get_masterchain_info-Names laws m ctx last s v known =
      answering-Post t a over_cache (λ _. "failed to resolve master block") HitType.failed_internal
        ctx (get_last_master_block t a ctx) (λ r. masterchain_info_reply t a over_cache r.0 r.1) s
        (last_master known)
        (λ e s' v'. (failure-Names (λ _. "failed to resolve master block") _ ctx e s' last, v'))
        λ r s' p.
          subst
            (λ i.
              Post (λ x s''. Names i x × IsValid t a m s'') (IsValid t a m)
                (masterchain_info_reply t a over_cache r.0 r.1 s'))
            p.2 (masterchain_info_reply-Names m r.0 r.1 s' p.0)
    where
      last_master :
          s.last_block ≡ some last
          → Post (Answers t a m last) (IsValid t a m) (get_last_master_block t a ctx s)
      last_master e =
          subst (Post _ _) (sym (get_last_master_block-known ctx s last e))
            (get_master_block-IsValid t a m laws ctx last s v)
