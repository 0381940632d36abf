-- ===== src/Server/Requests/Answered.antt =====
-- The answers of a query, over services that keep a contract.
use tonutils_liteserver_prox.Base.{
  if◌then◌else◌, ℕ, Bytes, Bool, true, false, ◌≡◌, Option, none, some, List, [], ◌∷◌, bytes_key,
  nat_key,
}
use tonutils_liteserver_prox.Base.Int.{pos}
use tonutils_liteserver_prox.Base.Maps.{lookup, insert}
use tonutils_liteserver_prox.Base.Action.{Action, Result, ok, err, panic, continue}
use tonutils_liteserver_prox.Base.Hoare.{
  Post, Ends, returns, fails, panics, gives, dies, continue-Ends,
}
use tonutils_liteserver_prox.Ton.{Ton, ArcCache, Request, Requests, Message, queries}
use tonutils_liteserver_prox.Emulate.{Tvm}
use tonutils_liteserver_prox.Server.Dispatch.Replying.{
  Decides, listed, dispatch-Replies, check_wait-Ends,
}
use tonutils_liteserver_prox.Server.Connections.{ServerClient, touch}
use tonutils_liteserver_prox.Server.Services.{Services}
use tonutils_liteserver_prox.Server.Services.Contract.{Contract}
use tonutils_liteserver_prox.Base.Keeps.{Replies}
use tonutils_liteserver_prox.Server.Dispatch.{
  go_on, stop, dispatch, check_wait, error_message, Waited,
}
use tonutils_liteserver_prox.Server.Limits.{Limiters, KeyConfig, charge}
use tonutils_liteserver_prox.Server.Requests.{
  Proxy, lite_server_query, Packet, answer, within, forward, complete, answer_request, answer_query,
  handle_query, handle_message, handle_request, gp_store, gp_lookup, forward_error, answer_packets,
}
use tonutils_liteserver_prox.Backend.{unix}

-- What a query sends: its answer, once. A list of requests may send nothing.
pub data AnswersOnce {C : Type 0} (id : Bytes) : Request → List (Packet C) → Type 0 where
  once : {r : Request} {m : Message C} → AnswersOnce id r (answer id m ∷ [])
  given_up : {rs : Requests} → AnswersOnce id (queries rs) []

-- the same of the goroutine of a query
data Sends {C : Type 0} : Request → Option (Message C) → Type 0 where
  sent : {r : Request} {m : Message C} → Sends r (some m)
  nothing : {rs : Requests} → Sends (queries rs) none

module _ (t : Ton) (a : ArcCache) (l : Limiters) (vm : Tvm t) {S : Type 0} (v : Services t a S)
    (Ok : S → Type 0) (c : Contract t a v Ok) where
  -- the property of the store, of a proxy
  abbrev OkProxy : Proxy t a l S → Type 0
  OkProxy p = Ok p.store

  within-Ends :
      {A : Type 0} {Q : A → S → Type 0} (m : Action S A) (p : Proxy t a l S)
      → Ends Q Ok (m p.store)
      → Ends (λ x p'. Q x p'.store) OkProxy (within t a l m p)
  unfolding within
  within-Ends {A} {Q} m p h = go (m p.store) h
    where
      go :
          (r : Result S A)
          → Ends Q Ok r
          → Ends (λ x p'. Q x p'.store) OkProxy (within t a l (λ _. r) p)
      go (ok x s) (gives q) = gives q
      go (panic x s) (dies k) = dies k
      go (err e s) k = elim k [ ]

  forward-Replies : (ctx : t.Ctx) (r : Request) → Replies OkProxy (forward t a l vm v ctx r)
  unfolding forward within gp_store
  forward-Replies ctx r p h = go (v.query_liteserver _ r p.store) (c.query_liteserver _ r p.store h)
    where
      stored :
          (o : Option (a.Arc ℕ (Message t.Cell))) (m : Message t.Cell) (s : S)
          → Ok s
          → Ends
              (λ _ p'. OkProxy p')
              OkProxy
              (continue (gp_store t a l r m (record p { store = s; gp_cache = o })) λ _. ok m)
      stored none m s k = gives k
      stored (some g) m s k = gives k

      go :
          (x : Result S (Message t.Cell))
          → Post (λ _ s'. Ok s') Ok x
          → Ends
              (λ _ p'. OkProxy p')
              OkProxy
              (elim (within t a l (λ _. x) p) [
                | ok m p' ↦ continue (gp_store t a l r m p') λ _. ok m
                | err e p' ↦ ok (forward_error t e) p'
                | panic y p' ↦ panic y p'
              ])
      go (ok m s) (returns k) = stored p.gp_cache m s k
      go (err e s) (fails k) = gives k
      go (panic y s) (panics k) = dies k

  complete-Replies :
      (ctx : t.Ctx) (r : Request) (o : Option (Message t.Cell))
      → Replies OkProxy (complete t a l vm v ctx r o)
  unfolding complete gp_lookup
  complete-Replies ctx r (some m) p h = gives h
  complete-Replies ctx r none p h = looked p.gp_cache
    where
      found :
          (x : Option (Message t.Cell)) (p' : Proxy t a l S)
          → OkProxy p'
          → Ends
              (λ _ p''. OkProxy p'')
              OkProxy
              (elim x [ some m ↦ ok m p' | none ↦ forward t a l vm v ctx r p' ])
      found (some m) p' k = gives k
      found none p' k = forward-Replies ctx r p' k

      looked :
          (o : Option (a.Arc ℕ (Message t.Cell)))
          → Ends
              (λ _ p'. OkProxy p')
              OkProxy
              (complete t a l vm v ctx r none (record p { gp_cache = o }))
      looked none = forward-Replies ctx r _ h
      looked (some g) = found (a.get ℕ (Message t.Cell) nat_key _ g).0 _ h

  answer_request-Replies :
      (ctx : t.Ctx) (r : Request) → Replies OkProxy (answer_request t a l vm v ctx r)
  unfolding answer_request
  answer_request-Replies ctx r p h = in_mode p.only_proxy
    where
      in_mode :
          (b : Bool)
          → Ends
              (λ _ p'. OkProxy p')
              OkProxy
              (answer_request t a l vm v ctx r (record p { only_proxy = b }))
      in_mode true = complete-Replies ctx r none (record p { only_proxy = true }) h
      in_mode false =
          continue-Ends _
            (within-Ends (dispatch t a vm v ctx r) (record p { only_proxy = false })
              (dispatch-Replies t a vm v Ok c ctx r p.store h))
            λ reply p' k. complete-Replies ctx r reply.0 p' k

  answer_query-Sends :
      (ctx : t.Ctx) (r : Request) (p : Proxy t a l S)
      → OkProxy p
      → Ends (λ m p'. OkProxy p' × Sends r m) OkProxy (answer_query t a l vm v ctx r p)
  unfolding answer_query
  answer_query-Sends ctx r p h = in_mode p.only_proxy
    where
      decided :
          {r : Request} (w : Waited t.Cell) (p' : Proxy t a l S)
          → OkProxy p'
          → Decides r w
          → Ends
              (λ m p''. OkProxy p'' × Sends r m)
              OkProxy
              (elim w [
                | go_on q ↦ continue (answer_request t a l vm v ctx q p') λ m. ok (some m)
                | stop m ↦ ok m p'
              ])
      decided (go_on q) p' k d =
          continue-Ends _ (answer_request-Replies ctx q p' k) λ m p'' k'. gives (k', sent)
      decided (stop (some m)) p' k d = gives (k, sent)
      decided (stop none) p' k listed = gives (k, nothing)

      in_mode :
          (b : Bool)
          → Ends
              (λ m p'. OkProxy p' × Sends r m)
              OkProxy
              (answer_query t a l vm v ctx r (record p { only_proxy = b }))
      in_mode true =
          continue-Ends _ (answer_request-Replies ctx r (record p { only_proxy = true }) h)
            λ m p' k. gives (k, sent)
      in_mode false =
          continue-Ends _
            (within-Ends (check_wait t a vm v ctx r) (record p { only_proxy = false })
              (check_wait-Ends t a vm v Ok c ctx r p.store h))
            λ w p' k. decided w p' k.0 k.1

  -- Over services that keep `Ok` and a clock that does not fail: a query of a known key is
  -- answered, and only once, with its id; only a list of requests may be left without an answer.
  -- Otherwise the process panics. No error is returned, and `Ok` holds of the store in any case.
  pub query_answered :
      (ctx : t.Ctx) (sc : ServerClient) (now : ℕ) (id : Bytes) (r : Request) (cfg : KeyConfig l)
      (p : Proxy t a l S)
      → lookup sc.server_key p.configs ≡ some cfg
      → OkProxy p
      → Ends
          (λ ps p'. OkProxy p' × AnswersOnce id r ps)
          OkProxy
          (handle_request t a l vm v ctx sc now (lite_server_query id r) p)
  unfolding handle_request handle_message handle_query
  query_answered ctx sc now id r cfg p known h =
      rw (handle_request, known) (limited (charge l now sc.ip cfg).0)
    where
      packets :
          {r : Request} (m : Option (Message t.Cell))
          → Sends r m
          → AnswersOnce id r (answer_packets t a l vm v id m)
      packets (some m) k = once
      packets none nothing = given_up

      p₁ : Proxy t a l S
      p₁ = record p {
        connections = touch sc (unix now) p.connections;
        configs = insert sc.server_key (charge l now sc.ip cfg).1 p.configs;
      }

      limited :
          (refused : Bool)
          → Ends
              (λ ps p'. OkProxy p' × AnswersOnce id r ps)
              OkProxy
              (if refused
                then ok (answer id (error_message (pos 429) "too many requests") ∷ []) p₁
                else continue
                    (answer_query t a l vm v ctx r p₁)
                    (λ m. ok (answer_packets t a l vm v id m)))
      limited true = gives (h, once)
      limited false =
          continue-Ends _ (answer_query-Sends ctx r p₁ h) λ m p' k. gives (k.0, packets m k.1)
