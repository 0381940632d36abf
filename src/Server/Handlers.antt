-- ===== src/Server/Handlers.antt =====
-- The handlers of `ProxyBalancer` for all requests but get methods: each asks the cache, and turns
-- an error into an answer.
pub mod Replies
pub mod Replying
mod Tests
use tonutils_liteserver_prox.Base.{
  ℕ, String, Bytes, Bool, true, false, not, Option, none, some, List, [], ◌∷◌, nat_eq,
  if◌then◌else◌, ◌%◌, ◌^◌,
}
use tonutils_liteserver_prox.Base.Int.{pos, ℤ}
use tonutils_liteserver_prox.Base.Action.{
  LsError, Error, ls, plain, wrapped, Fallible, good, bad, Action, Result, ok, err, panic, pure,
  continue,
}
use tonutils_liteserver_prox.Ton.{
  Ton, ArcCache, BlockIdExt, BlockInfoShort, Message, ls_error, library_result, block_data,
  block_header, masterchain_info, masterchain_info_ext, ZeroStateIdExt, AccountId, account_state,
  transaction_info,
}
use tonutils_liteserver_prox.Backend.{unix}
use tonutils_liteserver_prox.Cache.State.{MasterBlock}
use tonutils_liteserver_prox.Server.Services.{Services}

pub data HitType : Type 0 where
  emulated : HitType
  backend : HitType
  cache : HitType
  gp_cache : HitType
  failed_validate : HitType
  failed_internal : HitType

-- `if cached { hit = HitTypeCache }`
abbrev pub hit_of : Bool → HitType
hit_of true = HitType.cache
hit_of false = HitType.backend

-- `ErrTimeout`
abbrev pub err_timeout : LsError
err_timeout = record { code = pos 652; text = "timeout" }

module _ (t : Ton) where
  -- What a handler returns, nil for a request that goes to a backend.
  abbrev pub Reply : Type 0
  Reply = Option (Message t.Cell) × HitType

  abbrev pub internal : String → Reply
  internal text =
      (some (ls_error (record { code = pos 500; text = text })), HitType.failed_internal)

  -- the reply of `handleGetLibraries` for a dictionary
  unfoldable pub libraries_reply : Bool → Fallible (List (Bytes × t.Cell)) → Reply
  libraries_reply cached (good all) = (some (library_result all), hit_of cached)
  libraries_reply cached (bad e) = internal "failed to load libraries"

module _ (t : Ton) (a : ArcCache) {S : Type 0} (v : Services t a S) where
  open t use {Cell, Ctx}
  open v use {cache as kept, world, time_now}

  -- The branches of a handler on an error of the cache: an `LSError` is passed on, with the given
  -- hit type.
  unfoldable pub failure : (Error → String) → HitType → Ctx → Error → S → Reply t
  failure text hit ctx (ls e) s = (some (ls_error e), hit)
  failure text hit ctx (plain m) s = elim (t.ctx_err ctx (world s)) [
    | none ↦ internal t (text (plain m))
    | some _ ↦ (some (ls_error err_timeout), HitType.failed_validate)
  ]
  failure text hit ctx (wrapped m e) s = elim (t.ctx_err ctx (world s)) [
    | none ↦ internal t (text (wrapped m e))
    | some _ ↦ (some (ls_error err_timeout), HitType.failed_validate)
  ]

  -- `x, err := m; if err != nil { … }`, then `f x`
  unfoldable pub answering :
      {A : Type 0}
      → (Error → String)
      → HitType
      → Ctx
      → Action S A
      → (A → Action S (Reply t))
      → Action S (Reply t)
  unfolding failure
  answering text hit ctx m f s = elim (m s) [
    | ok x s' ↦ f x s'
    | err e s' ↦ ok (failure text hit ctx e s') s'
    | panic p s' ↦ panic p s'
  ]

  unfoldable pub handle_get_libraries : Ctx → List Bytes → Action S (Reply t)
  unfolding answering libraries_reply
  handle_get_libraries ctx hashes =
      answering (λ _. "failed to get libraries") HitType.failed_validate ctx
        (kept.get_libraries ctx hashes) λ r s. ok (libraries_reply t r.1 (t.dict_load_all r.0)) s

  unfoldable pub handle_get_block : Ctx → BlockIdExt → Action S (Reply t)
  unfolding answering
  handle_get_block ctx id =
      answering (λ _. "failed to get block") HitType.failed_validate ctx (kept.get_block ctx id)
        λ r s. ok (some (block_data r.0 r.1), hit_of r.2) s

  unfoldable pub handle_get_transaction : Ctx → BlockIdExt → AccountId → ℤ → Action S (Reply t)
  unfolding answering
  handle_get_transaction ctx id account lt =
      answering (λ _. "failed to get transaction") HitType.failed_validate ctx
        (kept.get_transaction ctx id account lt)
        λ r s. ok (some (transaction_info r.0), if r.1 then HitType.emulated else HitType.backend) s

  unfoldable pub handle_get_account : Ctx → BlockIdExt → AccountId → Action S (Reply t)
  unfolding answering
  handle_get_account ctx id account =
      answering (λ _. "failed to get account state") HitType.failed_validate ctx
        (kept.get_account_state ctx id (t.new_address account.workchain account.id))
        λ r s. ok (some (account_state r.0), hit_of r.1) s

  -- `zero, err := s.cache.GetZeroState(); if err != nil { … }`, then `f zero`
  unfoldable pub with_zero_state : (ZeroStateIdExt → Action S (Reply t)) → Action S (Reply t)
  with_zero_state f s = elim (kept.get_zero_state s) [
    | ok z s' ↦ f z s'
    | err e s' ↦ ok (internal t "failed to resolve zero state") s'
    | panic p s' ↦ panic p s'
  ]

  -- the rest of `handleGetMasterchainInfo`, for the last block
  unfoldable pub masterchain_info_reply : MasterBlock t a → Bool → Action S (Reply t)
  unfolding with_zero_state
  masterchain_info_reply b cached = with_zero_state λ z s.
      ok
        (
          some (
              masterchain_info
                (record { last = b.block.id; state_root_hash = b.state_hash; init = z })),
          hit_of cached,
        )
        s

  unfoldable pub handle_get_masterchain_info : Ctx → Action S (Reply t)
  unfolding answering masterchain_info_reply
  handle_get_masterchain_info ctx =
      answering (λ _. "failed to resolve master block") HitType.failed_internal ctx
        (kept.get_last_master_block ctx) λ r. masterchain_info_reply r.0 r.1

  -- the rest of `handleGetMasterchainInfoExt`, for the last block
  unfoldable pub masterchain_info_ext_reply : MasterBlock t a → Bool → Action S (Reply t)
  unfolding with_zero_state
  masterchain_info_ext_reply b cached = with_zero_state λ z s. continue (time_now s) λ now s'.
      ok
        (
          some (
              masterchain_info_ext (record {
                mode = 0;
                version = 0x101;
                capabilities = 7;
                last = b.block.id;
                last_utime = b.gen_time;
                now = unix now % 2 ^ 32;
                state_root_hash = b.state_hash;
                init = z;
              })),
          hit_of cached,
        )
        s'

  unfoldable pub handle_get_masterchain_info_ext : Ctx → ℕ → Action S (Reply t)
  unfolding answering masterchain_info_ext_reply
  handle_get_masterchain_info_ext ctx mode =
      if not (nat_eq mode 0)
      then (λ s.
          ok
            (
              some (ls_error (record { code = pos 400; text = "non zero mode is not supported" })),
              HitType.failed_validate,
            )
            s)
      else answering (λ _. "failed to resolve master block") HitType.failed_internal ctx
          (kept.get_last_master_block ctx) λ r. masterchain_info_ext_reply r.0 r.1

  unfoldable pub handle_lookup_block : ℕ → BlockInfoShort → Action S (Reply t)
  handle_lookup_block mode id s =
      if not (nat_eq mode 1)
      then ok (none, HitType.backend) s
      else elim (kept.lookup_block_in_cache id s) [
        | ok (some header) s' ↦ ok (some (block_header header), HitType.cache) s'
        | ok none s' ↦ ok (none, HitType.backend) s'
        | err e s' ↦ ok (internal t "failed to lookup block in cache") s'
        | panic p s' ↦ panic p s'
      ]
