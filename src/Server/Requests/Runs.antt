-- ===== src/Server/Requests/Runs.antt =====
-- Any number of messages from any clients, one after the other.
use tonutils_liteserver_prox.Base.{
  ℕ, Option-cases, some, inl, inr, List, [], ◌∷◌, bytes_key, Bytes, ◌≡◌,
}
use tonutils_liteserver_prox.Base.Maps.{lookup}
use tonutils_liteserver_prox.Base.Action.{final}
use tonutils_liteserver_prox.Base.Hoare.{Post, returns, fails, Post-final, Post-imp, Ends-Post}
use tonutils_liteserver_prox.Ton.{Ton, TonLaws, ArcCache}
use tonutils_liteserver_prox.Emulate.{Tvm}
use tonutils_liteserver_prox.Cache.State.{State}
use tonutils_liteserver_prox.Server.Connections.{ServerClient}
use tonutils_liteserver_prox.Server.Services.{WaitMasterBlock, services}
use tonutils_liteserver_prox.Server.Services.OverCache.{WaitKeeps}
use tonutils_liteserver_prox.Server.Limits.{Limiters, KeyConfig}
use tonutils_liteserver_prox.Server.Requests.{
  Proxy, Incoming, lite_server_query, other_query, tcp_ping, other_message, handle_request,
  handle_message,
}
use tonutils_liteserver_prox.Server.Requests.OverCache.{ValidProxy, query_gets_one_answer}

module _ (t : Ton) (a : ArcCache) (laws : TonLaws t) (m : ℕ) (l : Limiters) (vm : Tvm t)
    (wait : WaitMasterBlock t a) (random : ℕ → State t a → Bytes) where
  -- a message with its context, its client and the time at which it comes
  abbrev pub Delivery : Type 0
  Delivery = t.Ctx × ServerClient × ℕ × Incoming

  -- The proxy after the messages, whether each is answered, refused, fails or panics.
  unfoldable pub after_all : List Delivery → Proxy t a l (State t a) → Proxy t a l (State t a)
  after_all [] p = p
  after_all ((ctx, sc, now, msg) ∷ ms) p =
      after_all ms (final (handle_request t a l vm (services t a wait random) ctx sc now msg p))

  abbrev Valid : Proxy t a l (State t a) → Type 0
  Valid = ValidProxy t a laws m l vm wait random

  handle_request-Valid :
      (ctx : t.Ctx) (sc : ServerClient) (now : ℕ) (msg : Incoming) (p : Proxy t a l (State t a))
      → WaitKeeps t a laws m wait
      → Valid p
      → Post
          (λ _ p'. Valid p')
          Valid
          (handle_request t a l vm (services t a wait random) ctx sc now msg p)
  unfolding handle_request handle_message
  handle_request-Valid ctx sc now msg p kept h =
      elim (Option-cases (lookup sc.server_key p.configs)) [
        | inl e ↦ rw (e, handle_request) (fails h)
        | inr (cfg, e) ↦ known cfg e msg
      ]
    where
      known :
          (cfg : KeyConfig l)
          → lookup sc.server_key p.configs ≡ some cfg
          → (msg : Incoming)
          → Post
              (λ _ p'. Valid p')
              Valid
              (handle_request t a l vm (services t a wait random) ctx sc now msg p)
      known cfg e (lite_server_query id r) =
          Post-imp (λ _ _ k. k.0) (λ _ k. k)
            (Ends-Post
              (query_gets_one_answer t a laws m l vm wait random ctx sc now id r cfg p kept e h))
      known cfg e (other_query id) = rw (e, handle_request) (fails h)
      known cfg e (tcp_ping n) = rw (e, handle_request) (returns h)
      known cfg e (other_message kind) = rw (e, handle_request) (fails h)

  -- With ids compared as documented, and if the cache stays valid while a request waits: any
  -- sequence of messages, of known and unknown keys, within and over their limits, leaves a valid
  -- cache valid, whatever the backends answer: the last seqno does not fall below `m`, and each
  -- fetched masterchain block is the one that its id names.
  pub after_all-ValidProxy :
      (ms : List Delivery) (p : Proxy t a l (State t a))
      → WaitKeeps t a laws m wait
      → Valid p
      → Valid (after_all ms p)
  unfolding after_all
  after_all-ValidProxy [] p kept h = h
  after_all-ValidProxy ((ctx, sc, now, msg) ∷ ms) p kept h =
      after_all-ValidProxy ms _ kept
        (Post-final (λ _ _ k. k) (handle_request-Valid ctx sc now msg p kept h))
