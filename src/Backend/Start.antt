-- ===== src/Backend/Start.antt =====
-- The balancer that `NewBackendBalancer` builds.
use tonutils_liteserver_prox.Base.{◌≡◌, ◌≢◌, refl, false, List, [], ◌∷◌, arith, length, All}
use tonutils_liteserver_prox.Base.Action.{ok, Fallible, good, bad}
use tonutils_liteserver_prox.Ton.{Ton}
use tonutils_liteserver_prox.Backend.{
  Backend, BackendBalancer, BackendLiteserver, BalancerType, is_failed, connect_all,
  new_backend_balancer, keep_connected,
}

module _ (t : Ton) where
  keep_connected-alive :
      (c : BackendLiteserver) (p : Fallible t.Pool) (bs : List (Backend t))
      → All (λ b. is_failed t b ≡ false) bs
      → All (λ b. is_failed t b ≡ false) (keep_connected t c p bs)
  unfolding keep_connected is_failed
  keep_connected-alive c (bad e) bs h = h
  keep_connected-alive c (good p) bs h = (refl, h)

  connect_all-alive :
      (cs : List BackendLiteserver) (w : t.World)
      → All (λ b. is_failed t b ≡ false) (connect_all t cs w).0
  unfolding connect_all
  connect_all-alive [] w = tt
  connect_all-alive (c ∷ cs) w =
      let (pool, w') = t.connect c.addr c.key w in
      keep_connected-alive c pool _ (connect_all-alive cs w')

  -- A new balancer has a backend, the given type and a counter of zero, and none of its backends
  -- counts as failed. The constructor fails only if no backend could be connected.
  pub new_backend_balancer-ready :
      (cs : List BackendLiteserver) (typ : BalancerType) (w w' : t.World) (b : BackendBalancer t)
      → new_backend_balancer t cs typ w ≡ ok b w'
      → (length b.backends ≢ 0)
        × (b.balancer_type ≡ typ)
        × (b.counter ≡ 0)
        × All (λ x. is_failed t x ≡ false) b.backends
  unfolding new_backend_balancer
  new_backend_balancer-ready cs typ w w' b h = ground (arith, connect_all-alive cs w)
