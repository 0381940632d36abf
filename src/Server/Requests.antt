-- ===== src/Server/Requests.antt =====
-- `handleRequest`: a message from a client, up to the packets that it gets. Server/Limits has the
-- limits, Server/Dispatch the wait for a block and the choice of a handler.
pub mod Frozen
pub mod Limited
pub mod Answered
pub mod OverCache
pub mod Runs
mod Tests
use text.Mathlib.Text.{◌==◌ as str_eq}
use Prim.Native.String
use Prim.Native.String.{◌++◌ as ◌<>◌}
use tonutils_liteserver_prox.Base.{
  ℕ, ◌%◌, ◌^◌, String, Bytes, Bool, true, false, not, ◌||◌, Option, none, some, List, [], ◌∷◌,
  if◌then◌else◌, ◌==◌, nat_key, bytes_key,
}
use tonutils_liteserver_prox.Base.Int.{ℤ, pos, int_key}
use tonutils_liteserver_prox.Base.Maps.{Map, lookup, insert}
use tonutils_liteserver_prox.Base.Action.{
  LsError, Error, ls, plain, wrapped, Fallible, good, bad, Action, Result, ok, err, panic, pure,
  continue, ◌>>=◌,
}
use tonutils_liteserver_prox.Ton.{
  Ton, ArcCache, Request, Message, ls_error, version, current_time, also, end, queries, get_version,
  get_time, get_masterchain_inf, wait_masterchain_seqno, get_masterchain_info_ext, get_libraries,
  get_one_transaction, get_block_data, get_account_state, run_smc_method, lookup_block,
}
use tonutils_liteserver_prox.Backend.{unix}
use tonutils_liteserver_prox.Cache.State.{to_uint32}
use tonutils_liteserver_prox.Emulate.{Tvm, cell}
use tonutils_liteserver_prox.Server.Connections.{ServerClient, Connections, touch}
use tonutils_liteserver_prox.Server.Services.{Services}
use tonutils_liteserver_prox.Server.Checksum.{checksum}
use tonutils_liteserver_prox.Server.Handlers.{
  HitType, Reply, handle_get_masterchain_info_ext, handle_get_masterchain_info,
  handle_get_libraries, handle_get_transaction, handle_get_block, handle_get_account,
  handle_lookup_block,
}
use tonutils_liteserver_prox.Server.Limits.{Limiters, KeyConfig, charge}
use tonutils_liteserver_prox.Server.Dispatch.{
  error_message, Waited, go_on, stop, check_wait, dispatch,
}
use tonutils_liteserver_prox.Server.RunMethod.{handle_run_smc_method}

-- What a client sends, as far as `handleRequest` tells it apart.
pub data Incoming : Type 0 where
  lite_server_query : (id : Bytes) → Request → Incoming
  other_query : (id : Bytes) → Incoming
  tcp_ping : (random_id : ℕ) → Incoming
  other_message : (kind : String) → Incoming

pub data Packet (C : Type 0) : Type 0 where
  answer : (id : Bytes) → Message C → Packet C
  tcp_pong : (random_id : ℕ) → Packet C

-- `strings.HasSuffix`
unfoldable pub has_suffix : String → String → Bool
has_suffix suffix String.[] = str_eq String.[] suffix
has_suffix suffix (String.◌∷◌ c text) =
    let rest = has_suffix suffix text in str_eq (String.◌∷◌ c text) suffix || rest

module _ (t : Ton) where
  -- The bytes whose checksum is the key of a request: none if it cannot be serialised.
  unfoldable pub key_bytes : Request → Bytes
  key_bytes r = elim (t.serialize r) [ good bytes ↦ bytes | bad e ↦ [] ]

  -- the answer for an error of a backend
  unfoldable pub forward_error : Error → Message t.Cell
  unfolding has_suffix
  forward_error (ls e) = ls_error e
  forward_error (plain m) =
      if has_suffix "context canceled" (t.error_text (plain m))
      then error_message (pos 400) "canceled"
      else error_message (pos 502) "backend node timeout"
  forward_error (wrapped m e) =
      if has_suffix "context canceled" (t.error_text (wrapped m e))
      then error_message (pos 400) "canceled"
      else error_message (pos 502) "backend node timeout"

module _ (t : Ton) (a : ArcCache) (l : Limiters) where
  open t use {Cell, Ctx}

  -- The fields of `ProxyBalancer`, with the state `store` of the cache and the balancer.
  pub record Proxy (S : Type 0) : Type 0 where
    pub store : S
    pub configs : Map Bytes (KeyConfig l)
    pub connections : Connections
    pub gp_cache : Option (a.Arc ℕ (Message Cell))
    pub only_proxy : Bool

  module _ {S : Type 0} where
    -- an action on the store
    unfoldable pub within : {A : Type 0} → Action S A → Action (Proxy S) A
    within m p = elim (m p.store) [
      | ok x s ↦ ok x (record p { store = s })
      | err e s ↦ err e (record p { store = s })
      | panic x s ↦ panic x (record p { store = s })
    ]

    -- What the cache of answers has for a request. Where the request cannot be serialised, the
    -- code assigns an error to `resp` before it overwrites it here.
    unfoldable pub gp_lookup : Request → Action (Proxy S) (Option (Message Cell))
    unfolding key_bytes
    gp_lookup r p = elim p.gp_cache [
      | none ↦ ok none p
      | some g ↦
          let (found, g') = a.get ℕ (Message Cell) nat_key (checksum (key_bytes t r)) g in
          ok found (record p { gp_cache = some g' })
    ]

    -- `if s.gpCache != nil { s.gpCache.Add(gpKey, resp) }`
    unfoldable pub gp_store : Request → Message Cell → Action (Proxy S) (Unit {0})
    unfolding key_bytes
    gp_store r m p = elim p.gp_cache [
      | none ↦ ok tt p
      | some g ↦ ok tt (record p {
        gp_cache = some (a.add ℕ (Message Cell) nat_key (checksum (key_bytes t r)) m g);
      })
    ]

module _ (t : Ton) (a : ArcCache) (l : Limiters) (vm : Tvm t) {S : Type 0}
    (v : Services t a S) where
  open t use {Cell, Ctx}
  open v use {query_liteserver}

  -- The query to a backend, with a timeout of seven seconds.
  unfoldable pub forward : Ctx → Request → Action (Proxy t a l S) (Message Cell)
  unfolding within gp_store forward_error
  forward ctx r p = elim (within t a l (query_liteserver (t.with_timeout 7 ctx) r) p) [
    | ok m p' ↦ continue (gp_store t a l r m p') λ _. ok m
    | err e p' ↦ ok (forward_error t e) p'
    | panic x p' ↦ panic x p'
  ]

  -- from `resp`, where it is nil from the cache of answers or a backend
  unfoldable pub complete :
      Ctx → Request → Option (Message Cell) → Action (Proxy t a l S) (Message Cell)
  unfolding gp_lookup forward
  complete ctx r (some m) p = ok m p
  complete ctx r none p =
      continue (gp_lookup t a l r p)
        λ found p'. elim found [ some m ↦ ok m p' | none ↦ forward ctx r p' ]

  -- from the request behind the wait to the answer
  unfoldable pub answer_request : Ctx → Request → Action (Proxy t a l S) (Message Cell)
  unfolding dispatch within complete
  answer_request ctx r p =
      if p.only_proxy
      then complete ctx r none p
      else continue (within t a l (dispatch t a vm v ctx r) p) λ reply p'. complete ctx r reply.0 p'

  -- The goroutine of a request: the answer, nothing if it sends none.
  unfoldable pub answer_query : Ctx → Request → Action (Proxy t a l S) (Option (Message Cell))
  unfolding check_wait within answer_request
  answer_query ctx r p =
      if p.only_proxy
      then continue (answer_request ctx r p) (λ m. ok (some m))
      else continue (within t a l (check_wait t a vm v ctx r) p) λ waited p'. elim waited [
        | go_on q ↦ continue (answer_request ctx q p') λ m. ok (some m)
        | stop m ↦ ok m p'
      ]

  abbrev pub answer_packets : Bytes → Option (Message Cell) → List (Packet Cell)
  answer_packets id none = []
  answer_packets id (some m) = answer id m ∷ []

  -- a query, at a time in nanoseconds, of a client whose key has the limits `cfg`
  unfoldable pub handle_query :
      Ctx
      → ServerClient
      → ℕ
      → KeyConfig l
      → Bytes
      → Request
      → Action (Proxy t a l S) (List (Packet Cell))
  unfolding charge answer_query
  handle_query ctx sc now cfg id r p =
      let (refused, cfg') = charge l now sc.ip cfg in
      let p' = record p { configs = insert sc.server_key cfg' p.configs } in
      if refused
      then ok (answer id (error_message (pos 429) "too many requests") ∷ []) p'
      else continue (answer_query ctx r p') (λ m. ok (answer_packets id m))

  unfoldable pub handle_message :
      Ctx → ServerClient → ℕ → KeyConfig l → Incoming → Action (Proxy t a l S) (List (Packet Cell))
  unfolding handle_query
  handle_message ctx sc now cfg (lite_server_query id r) = handle_query ctx sc now cfg id r
  handle_message ctx sc now cfg (other_query id) =
      err (plain "something unknown: adnl.MessageQuery")
  handle_message ctx sc now cfg (tcp_ping random_id) = ok (tcp_pong random_id ∷ [])
  handle_message ctx sc now cfg (other_message kind) = err (plain ("something unknown: " <> kind))

  -- What the proxy sends for a message, once all that it starts has come to an end.
  unfoldable pub handle_request :
      Ctx → ServerClient → ℕ → Incoming → Action (Proxy t a l S) (List (Packet Cell))
  unfolding handle_message
  handle_request ctx sc now msg p = elim (lookup sc.server_key p.configs) [
    | none ↦ err (plain "unknown server key") p
    | some cfg ↦
        handle_message ctx sc now cfg msg
          (record p { connections = touch sc (unix now) p.connections })
  ]
