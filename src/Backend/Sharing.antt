-- ===== src/Backend/Sharing.antt =====
-- In fail-over mode `GetClient` hands out the address of the loop variable, a copy of an element of
-- `b.backends`, so what a query records is lost with the copy.
use tonutils_liteserver_prox.Base.{◌≡◌, refl, false, List, [], ◌∷◌, ap, ◌∙◌, arith}
use tonutils_liteserver_prox.Base.Action.{ok, final}
use tonutils_liteserver_prox.Ton.{Ton, Request}
use tonutils_liteserver_prox.Backend.Select.{get_client-alive}
use tonutils_liteserver_prox.Backend.{
  Backend, Net, loop_copy, fail_over_type, is_failed, first_alive, get_client, query, query_ref,
  ClientRef, BackendBalancer, query_liteserver, response_pointer, Result, Message,
}

module _ (t : Ton) where
  -- the state after a history of queries of any callers, whatever the backends answer
  pub run_queries : List (t.Ctx × Request) → Net t → Net t
  run_queries [] n = n
  run_queries ((ctx, payload) ∷ cs) n = run_queries cs (final (query t ctx payload n))

  query-chosen :
      (ctx : t.Ctx) (payload : Request) (n : Net t) (c : ClientRef t) (b : BackendBalancer t)
      → get_client t n.balancer ≡ ok c b
      → query t ctx payload n ≡ query_ref t ctx c payload (record n { balancer = b })
  unfolding query
  query-chosen ctx payload n c b e = rw (e, query) refl

  -- A query through the copy changes only the copy.
  loop_copy-balancer :
      (ctx : t.Ctx) (payload : Request) (n : Net t) (b : Backend t)
      → (final (query_ref t ctx (loop_copy b) payload n)).balancer ≡ n.balancer
  unfolding query_ref
  loop_copy-balancer ctx payload n b =
      ground (arith, query_liteserver t ctx payload response_pointer b n.world)

  module _ (n : Net t) (first : Backend t) (rest : List (Backend t))
      (typ : n.balancer.balancer_type ≡ fail_over_type) (shape : n.balancer.backends ≡ first ∷ rest)
      (healthy : is_failed t first ≡ false) where
    first_chosen : get_client t n.balancer ≡ ok (loop_copy first) n.balancer
    unfolding first_alive
    first_chosen =
        get_client-alive t n.balancer first typ (ap (first_alive t) shape ∙ (rw healthy refl))

    query-balancer :
        (ctx : t.Ctx) (payload : Request) → (final (query t ctx payload n)).balancer ≡ n.balancer
    query-balancer ctx payload =
        ap (λ (r : Result (Net t) (Message t.Cell)). (final r).balancer)
          (query-chosen ctx payload n _ _ first_chosen)
        ∙ loop_copy-balancer ctx payload n first

  -- In fail-over mode, a first backend that does not count as failed is never left, however often
  -- the queries to it fail: after any history of queries, `GetClient` still returns a copy of it,
  -- with its counters unchanged.
  pub fail_over_never_switches :
      (cs : List (t.Ctx × Request)) (n : Net t) (first : Backend t) (rest : List (Backend t))
      → n.balancer.balancer_type ≡ fail_over_type
      → n.balancer.backends ≡ first ∷ rest
      → is_failed t first ≡ false
      → get_client t (run_queries cs n).balancer ≡ ok (loop_copy first) n.balancer
  unfolding run_queries
  fail_over_never_switches [] n first rest typ shape healthy =
      first_chosen n first rest typ shape healthy
  fail_over_never_switches ((ctx, payload) ∷ cs) n first rest typ shape healthy =
      let kept = query-balancer n first rest typ shape healthy ctx payload in
      let next =
        fail_over_never_switches cs (final (query t ctx payload n)) first rest
          (ap (λ b. b.balancer_type) kept ∙ typ) (ap (λ b. b.backends) kept ∙ shape) healthy in
      next ∙ ap (ok (loop_copy first)) kept
