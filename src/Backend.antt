-- ===== src/Backend.antt =====
-- internal/server/backend.go: the backends, the choice of one for a query, and what a query
-- records about the backend that it went to.
pub mod Start
pub mod Select
pub mod Record
pub mod Sharing
mod Tests
use tonutils_liteserver_prox.Base.{
  ℕ, ◌+◌, ◌-◌, ◌/◌, ◌%◌, ◌^◌, String, Bytes, Bool, true, false, ◌&&◌, Option, none, some, List, [],
  ◌∷◌, ltb, nat_eq, if◌then◌else◌, length, get_elem?, set, ◌==◌, string_key,
}
use tonutils_liteserver_prox.Base.Action.{
  plain, Fallible, good, bad, Result, ok, err, panic, Action, LsError,
}
use tonutils_liteserver_prox.Ton.{Ton, Request, queries, Message}

abbrev pub BalancerType : Type 0
BalancerType = String

abbrev pub round_robin_type : BalancerType
round_robin_type = "round_robin"

abbrev pub fail_over_type : BalancerType
fail_over_type = "fail_over"

-- `uint64` addition of one
abbrev pub add_uint64 : ℕ → ℕ
add_uint64 n = (n + 1) % 2 ^ 64

-- `Time.Unix`, of a time in nanoseconds
abbrev pub unix : ℕ → ℕ
unix ns = ns / 1000000000

-- The last argument of `QueryLiteserver` as the code inspects it: the callers pass the address of
-- the response variable; a `ton.LSError` itself would be another dynamic type.
pub data ResultArg : Type 0 where
  response_pointer : ResultArg
  ls_error_value : LsError → ResultArg

abbrev pub is_ls_error : ResultArg → Bool
is_ls_error response_pointer = false
is_ls_error (ls_error_value e) = true

-- `payload.([]tl.Serializable)`
abbrev pub is_wait : Request → Bool
is_wait (queries rs) = true
is_wait _ = false

-- `config.BackendLiteserver`
pub record BackendLiteserver : Type 0 where
  pub name : String
  pub addr : String
  pub key : Bytes

module _ (t : Ton) where
  open t use {Cell, Pool, World, Ctx, time_now, connect, query_pool, with_timeout, seconds_left}

  pub record Backend : Type 0 where
    pub name : String
    pub client : Pool
    pub weight : ℕ
    pub fails_streak : ℕ  -- uint64
    pub last_request : ℕ  -- int64, Unix seconds
    pub last_success : ℕ  -- int64, Unix seconds

  pub record BackendBalancer : Type 0 where
    pub backends : List Backend
    pub balancer_type : BalancerType
    pub counter : ℕ  -- uint64

  -- What every part of the proxy shares: the balancer, and the world outside.
  pub record Net : Type 0 where
    pub balancer : BackendBalancer
    pub world : World

  -- The pointer that `GetClient` returns: `&b.backends[i]`, or the address of the loop variable,
  -- which holds a copy of an element.
  pub data ClientRef : Type 0 where
    in_slice : ℕ → ClientRef
    loop_copy : Backend → ClientRef

  -- The test of the loop of `GetClient`. A difference of int64 above 5 is positive, so the
  -- truncated one decides it too.
  pub is_failed : Backend → Bool
  is_failed b = ltb 10 b.fails_streak && ltb 5 (b.last_request - b.last_success)

  -- the loop of `GetClient`
  pub first_alive : List Backend → Option Backend
  unfolding is_failed
  first_alive [] = none
  first_alive (b ∷ bs) = if is_failed b then first_alive bs else some b

  -- the round-robin case; the remainder by zero panics
  pub next_in_turn : BackendBalancer → Result BackendBalancer ClientRef
  next_in_turn b =
      let x = add_uint64 b.counter in
      let b' = record b { counter = x } in
      if nat_eq (length b.backends) 0
      then panic "integer divide by zero" b'
      else ok (in_slice (x % length b.backends)) b'

  pub get_client : BackendBalancer → Result BackendBalancer ClientRef
  unfolding first_alive next_in_turn
  get_client b =
      if b.balancer_type == fail_over_type
      then elim (first_alive b.backends) [ some c ↦ ok (loop_copy c) b | none ↦ next_in_turn b ]
      else if b.balancer_type == round_robin_type
      then next_in_turn b
      else panic "unknown balancer type" b

  -- The deferred function of `QueryLiteserver`, at the time `now`.
  pub record_outcome : Request → Fallible (Message Cell) → ResultArg → ℕ → Backend → Backend
  record_outcome payload (bad e) result now b =
      if is_wait payload
      then b
      else record b { fails_streak = add_uint64 b.fails_streak; last_request = now }
  record_outcome payload (good m) result now b =
      if is_wait payload
      then b
      else if is_ls_error result
      then record b { fails_streak = add_uint64 b.fails_streak; last_request = now }
      else record b { fails_streak = 0; last_request = now; last_success = now }

  -- The context with which the pool is called: ten seconds at most.
  pub query_ctx : Ctx → World → Ctx
  query_ctx ctx w = elim (seconds_left ctx w) [
    | none ↦ with_timeout 10 ctx
    | some left ↦ if ltb 10 left then with_timeout 10 ctx else ctx
  ]

  -- `Backend.QueryLiteserver`, with the backend as it is afterwards.
  pub query_liteserver :
      Ctx → Request → ResultArg → Backend → World → Fallible (Message Cell) × Backend × World
  unfolding record_outcome query_ctx
  query_liteserver ctx payload result b w =
      let (answer, w') = query_pool b.client (query_ctx ctx w) payload w in
      let (now, w'') = time_now w' in
      (answer, record_outcome payload answer result (unix now) b, w'')

  -- the method call on the pointer that `GetClient` returned
  pub query_ref : Ctx → ClientRef → Request → Action Net (Message Cell)
  unfolding query_liteserver
  query_ref ctx (in_slice i) payload n = elim (get_elem? n.balancer.backends i) [
    | none ↦ panic "index out of range" n
    | some b ↦
        let (answer, b', w') = query_liteserver ctx payload response_pointer b n.world in
        let balancer' = record (n.balancer) { backends = set n.balancer.backends i b' } in
        let n' : Net = record { balancer = balancer'; world = w' } in
        elim answer [ good m ↦ ok m n' | bad e ↦ err e n' ]
  ]
  query_ref ctx (loop_copy b) payload n =
      let (answer, b', w') = query_liteserver ctx payload response_pointer b n.world in
      let n' : Net = record n { world = w' } in elim answer [ good m ↦ ok m n' | bad e ↦ err e n' ]

  -- `GetClient().QueryLiteserver(ctx, payload, &resp)`, as every caller writes it
  pub query : Ctx → Request → Action Net (Message Cell)
  unfolding get_client query_ref
  query ctx payload n = elim (get_client n.balancer) [
    | ok c b ↦ query_ref ctx c payload (record n { balancer = b })
    | err e b ↦ err e (record n { balancer = b })
    | panic m b ↦ panic m (record n { balancer = b })
  ]

  -- one round of the loop of `NewBackendBalancer`: `continue` on an error
  pub keep_connected : BackendLiteserver → Fallible Pool → List Backend → List Backend
  keep_connected c (bad e) bs = bs
  keep_connected c (good p) bs =
      record {
        name = c.name;
        client = p;
        weight = 0;
        fails_streak = 0;
        last_request = 0;
        last_success = 0;
      }
      ∷ bs

  -- the loop of `NewBackendBalancer`
  pub connect_all : List BackendLiteserver → World → List Backend × World
  unfolding keep_connected
  connect_all [] w = ([], w)
  connect_all (c ∷ cs) w =
      let (pool, w') = connect c.addr c.key w in
      let (rest, w'') = connect_all cs w' in (keep_connected c pool rest, w'')

  pub new_backend_balancer :
      List BackendLiteserver → BalancerType → World → Result World BackendBalancer
  unfolding connect_all
  new_backend_balancer configs typ w =
      let (bs, w') = connect_all configs w in
      if nat_eq (length bs) 0
      then err (plain "no active backends") w'
      else ok (record { backends = bs; balancer_type = typ; counter = 0 }) w'
