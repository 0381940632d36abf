-- ===== src/Server/Requests/Frozen.antt =====
-- Requests with the same checksum, and what the cache of answers gives them (server.go, `handleRequest`).
use tonutils_liteserver_prox.Base.{
  ℕ, Bool, true, false, ◌≡◌, refl, ap, sym, subst, ◌∙◌, Option, none, some, List, [], ◌∷◌, map, All,
  nat_key,
}
use tonutils_liteserver_prox.Base.Action.{Action, ok, continue, pure, ◌>>=◌}
use tonutils_liteserver_prox.Ton.{Ton, ArcCache, ArcLaws, Request, Message, other}
use tonutils_liteserver_prox.Emulate.{Tvm}
use tonutils_liteserver_prox.Server.Services.{Services}
use tonutils_liteserver_prox.Server.Checksum.{checksum}
use tonutils_liteserver_prox.Server.Limits.{Limiters}
use tonutils_liteserver_prox.Server.Requests.{
  Proxy, key_bytes, within, gp_lookup, gp_store, forward, complete, answer_query,
}

-- A request that no handler answers: any request, if the proxy only forwards, else one of the types
-- without a handler.
abbrev pub IsForwarded : Bool → Request → Type 0
IsForwarded true r = Unit {0}
IsForwarded false (other kind body) = Unit {0}
IsForwarded false _ = ⊥

abbrev pub key_of : Ton → Request → ℕ
key_of t r = checksum (key_bytes t r)

module _ (t : Ton) (a : ArcCache) (l : Limiters) (vm : Tvm t) {S : Type 0}
    (v : Services t a S) where
  -- A request, with what happens to the store before it comes: time passes, blocks arrive.
  abbrev pub Arrival : Type 0
  Arrival = (S → S) × t.Ctx × Request

  abbrev pub happens : (S → S) → Action (Proxy t a l S) (Unit {0})
  happens change p = ok tt (record p { store = change p.store })

  -- the answers to a list of requests, one after the other
  unfoldable pub answer_all : List Arrival → Action (Proxy t a l S) (List (Option (Message t.Cell)))
  answer_all [] = pure []
  answer_all ((change, ctx, r) ∷ rs) = do
    _ ← happens change
    m ← answer_query t a l vm v ctx r
    ms ← answer_all rs
    pure (m ∷ ms)

  -- the store, if the requests do nothing to it
  unfoldable pub only_changed : List Arrival → S → S
  only_changed [] s = s
  only_changed ((change, ctx, r) ∷ rs) s = only_changed rs (change s)

  -- The cache of answers holds `m` under the key `k`.
  pub record Remembers (k : ℕ) (m : Message t.Cell) (p : Proxy t a l S) : Type 0 where
    pub held : a.Arc ℕ (Message t.Cell)
    pub there : p.gp_cache ≡ some held
    pub found : (a.get ℕ (Message t.Cell) nat_key k held).0 ≡ some m

  forwarded_as :
      (b : Bool) (ctx : t.Ctx) (r : Request) (p : Proxy t a l S)
      → IsForwarded b r
      → answer_query t a l vm v ctx r (record p { only_proxy = b })
        ≡ continue (complete t a l vm v ctx r none (record p { only_proxy = b })) (λ m. ok (some m))
  unfolding answer_query
  forwarded_as true ctx r p h = refl
  forwarded_as false ctx (other kind body) p h = refl
  forwarded_as false ctx _ p h = absurd h

  forwarded-complete :
      (ctx : t.Ctx) (r : Request) (p : Proxy t a l S)
      → IsForwarded p.only_proxy r
      → answer_query t a l vm v ctx r p
        ≡ continue (complete t a l vm v ctx r none p) (λ m. ok (some m))
  forwarded-complete ctx r p h = forwarded_as p.only_proxy ctx r p h

  -- the proxy after the cache of answers `g` has been asked for the key `k`
  abbrev asked : ℕ → a.Arc ℕ (Message t.Cell) → Proxy t a l S → Proxy t a l S
  asked k g p = record p { gp_cache = some (a.get ℕ (Message t.Cell) nat_key k g).1 }

  complete_hit :
      (ctx : t.Ctx) (r : Request) (m : Message t.Cell) (p : Proxy t a l S)
      (g : a.Arc ℕ (Message t.Cell))
      → (a.get ℕ (Message t.Cell) nat_key (key_of t r) g).0 ≡ some m
      → complete t a l vm v ctx r none (record p { gp_cache = some g })
        ≡ ok m (asked (key_of t r) g p)
  unfolding complete gp_lookup
  complete_hit ctx r m p g h = rw h refl

  complete_miss :
      (ctx : t.Ctx) (r : Request) (p : Proxy t a l S) (g : a.Arc ℕ (Message t.Cell))
      → (a.get ℕ (Message t.Cell) nat_key (key_of t r) g).0 ≡ none
      → complete t a l vm v ctx r none (record p { gp_cache = some g })
        ≡ forward t a l vm v ctx r (asked (key_of t r) g p)
  unfolding complete gp_lookup
  complete_miss ctx r p g h = rw h refl

  -- What is remembered is answered, with the store as it is, and stays remembered.
  remembered :
      (laws : ArcLaws a) (ctx : t.Ctx) (r : Request) (m : Message t.Cell) (p : Proxy t a l S)
      → IsForwarded p.only_proxy r
      → Remembers (key_of t r) m p
      → (p' : Proxy t a l S) × (answer_query t a l vm v ctx r p ≡ ok (some m) p')
        × (p'.store ≡ p.store)
        × (p'.only_proxy ≡ p.only_proxy)
        × Remembers (key_of t r) m p'
  remembered laws ctx r m p h held =
      let g = held.held in
      let k = key_of t r in
      (
        asked k g p,
        forwarded-complete ctx r p h
            ∙ ap
                (λ o.
                  continue (complete t a l vm v ctx r none (record p { gp_cache = o }))
                    (λ m. ok (some m)))
                held.there
            ∙ ap (λ x. continue x (λ m. ok (some m))) (complete_hit ctx r m p g held.found),
        refl,
        refl,
        record {
          held = (a.get ℕ (Message t.Cell) nat_key k g).1;
          there = refl;
          found = laws.get-get ℕ (Message t.Cell) nat_key k k g ∙ held.found;
        },
      )

  -- A request that is forwarded, if `b` tells whether the proxy only forwards, and has the key `k`.
  abbrev pub Shares : Bool → ℕ → Arrival → Type 0
  Shares b k (_, _, r) = IsForwarded b r × (key_of t r ≡ k)

  answer_all-both :
      (change : S → S) (ctx : t.Ctx) (r : Request) (m : Option (Message t.Cell)) (rs : List Arrival)
      (ms : List (Option (Message t.Cell))) (p p₁ p₂ : Proxy t a l S)
      → answer_query t a l vm v ctx r (record p { store = change p.store }) ≡ ok m p₁
      → answer_all rs p₁ ≡ ok ms p₂
      → answer_all ((change, ctx, r) ∷ rs) p ≡ ok (m ∷ ms) p₂
  unfolding answer_all pure ◌>>=◌
  answer_all-both change ctx r m rs ms p p₁ p₂ first rest = rw (first, rest) refl

  remembered_run :
      (laws : ArcLaws a) (m : Message t.Cell) (k : ℕ) (b : Bool) (rs : List Arrival)
      (p : Proxy t a l S)
      → p.only_proxy ≡ b
      → All (Shares b k) rs
      → Remembers k m p
      → (p' : Proxy t a l S) × (answer_all rs p ≡ ok (map (λ _. some m) rs) p')
        × (p'.store ≡ only_changed rs p.store)
  unfolding answer_all pure only_changed
  remembered_run laws m k b [] p mode all held = (p, refl, refl)
  remembered_run laws m k b ((change, ctx, r) ∷ rs) p mode ((h, same), all) held =
      let p₀ = (record p { store = change p.store }) in
      let held₀ : Remembers k m p₀ = record {
        held = held.held;
        there = held.there;
        found = held.found;
      } in
      let (p₁, runs, store₁, mode₁, held₁) =
        remembered laws ctx r m p₀ (subst (λ b. IsForwarded b r) (sym mode) h)
          (subst (λ k. Remembers k m p₀) (sym same) held₀) in
      let (p₂, rest, store₂) =
        remembered_run laws m k b rs p₁ (mode₁ ∙ mode) all
          (subst (λ k. Remembers k m p₁) same held₁) in
      (
        p₂,
        answer_all-both change ctx r (some m) rs (map (λ _. some m) rs) p p₁ p₂ runs rest,
        store₂ ∙ ap (only_changed rs) store₁,
      )

  forward_ok :
      (ctx : t.Ctx) (r : Request) (m : Message t.Cell) (s' : S) (p : Proxy t a l S)
      (g : a.Arc ℕ (Message t.Cell))
      → v.query_liteserver (t.with_timeout 7 ctx) r p.store ≡ ok m s'
      → forward t a l vm v ctx r (record p { gp_cache = some g })
        ≡ ok m (record p {
          store = s';
          gp_cache = some (a.add ℕ (Message t.Cell) nat_key (key_of t r) m g);
        })
  unfolding forward within gp_store
  forward_ok ctx r m s' p g h = rw (forward, within, h) refl

  -- If a request that no handler answers is not in the cache of answers and a backend answers it
  -- with `m`, then `m` is also the answer to each of the forwarded requests with the same checksum
  -- that come next, whatever happens to the clock, the blocks and the backends before each of them.
  -- No backend is asked again: the store changes only by what happens between the requests.
  pub frozen_answers :
      (laws : ArcLaws a) (ctx : t.Ctx) (r : Request) (m : Message t.Cell) (s' : S)
      (p : Proxy t a l S) (g : a.Arc ℕ (Message t.Cell)) (rs : List Arrival)
      → p.gp_cache ≡ some g
      → (a.get ℕ (Message t.Cell) nat_key (key_of t r) g).0 ≡ none
      → IsForwarded p.only_proxy r
      → v.query_liteserver (t.with_timeout 7 ctx) r p.store ≡ ok m s'
      → All (Shares p.only_proxy (key_of t r)) rs
      → (p' : Proxy t a l S) × (answer_all ((λ s. s, ctx, r) ∷ rs) p
          ≡ ok (some m ∷ map (λ _. some m) rs) p')
        × (p'.store ≡ only_changed rs s')
  frozen_answers laws ctx r m s' p g rs there missing h query same =
      let k = key_of t r in
      let g₁ = (a.get ℕ (Message t.Cell) nat_key k g).1 in
      let g₂ = a.add ℕ (Message t.Cell) nat_key k m g₁ in
      let p₁ = (record p { store = s'; gp_cache = some g₂ }) in
      let runs =
        forwarded-complete ctx r p h
        ∙ ap
            (λ o.
              continue (complete t a l vm v ctx r none (record p { gp_cache = o }))
                (λ m. ok (some m)))
            there
        ∙ ap (λ x. continue x (λ m. ok (some m)))
            (complete_miss ctx r p g missing ∙ forward_ok ctx r m s' p g₁ query) in
      let (p', rest, store) = remembered_run laws m k p.only_proxy rs p₁ refl same (record {
        held = g₂;
        there = refl;
        found = laws.get-add ℕ (Message t.Cell) nat_key k m g₁;
      }) in
      (
        p',
        answer_all-both (λ s. s) ctx r (some m) rs (map (λ _. some m) rs) p p₁ p' runs rest,
        store,
      )
