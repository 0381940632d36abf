-- ===== src/Cache/Libraries/Cold.antt =====
-- What a client gets for libraries that the proxy has to fetch.
use tonutils_liteserver_prox.Base.{
  Bytes, ◌≡◌, refl, ap, false, Option, none, some, List, [], ◌∷◌, bytes_key, Option-cases, inl, inr,
}
use tonutils_liteserver_prox.Base.Action.{fail}
use tonutils_liteserver_prox.Base.Hoare.{
  Post, returns, fails, bind-Post, pure-Post, Post-imp, any-Post,
}
use tonutils_liteserver_prox.Ton.{Ton, ArcCache, ArcLaws}
use tonutils_liteserver_prox.Cache.State.{State}
use tonutils_liteserver_prox.Cache.Fetch.{get_libraries_from}
use tonutils_liteserver_prox.Cache.Libraries.{
  cached_library, collect_found, finish_fetch, collect_cached, store_fetched, fetch_missing,
  get_libraries,
}

module _ (t : Ton) (a : ArcCache) where
  -- after a fetch, the dictionary is the one from before
  fetch_missing-kept :
      (ctx : t.Ctx) (libs : t.Dict) (h : Bytes) (hs : List Bytes) (s : State t a)
      → Post (λ r _. r ≡ (libs, false)) (λ _. Unit {0}) (fetch_missing t a ctx libs (h ∷ hs) s)
  unfolding fetch_missing
  fetch_missing-kept ctx libs h hs s =
      bind-Post _ _ _ (any-Post (get_libraries_from t a ctx (h ∷ hs) s)) λ cells s₁ _.
        bind-Post _ _ _ (any-Post (store_fetched t a (h ∷ hs) cells none s₁))
          λ missing s₂ _. of_missing missing s₂
    where
      of_missing :
          (missing : Option Bytes) (s₂ : State t a)
          → Post (λ r _. r ≡ (libs, false)) (λ _. Unit {0}) (finish_fetch t a libs missing s₂)
      of_missing none s₂ = pure-Post _ s₂ refl
      of_missing (some hash) s₂ = unfold fail in fails tt

  module _ (laws : ArcLaws a) where
    -- The cache of libraries is there, and holds nothing.
    abbrev pub IsCold : State t a → Type 0
    IsCold s =
        (c : a.Arc Bytes t.Cell) × (s.libs_cache ≡ some c) × laws.Every Bytes t.Cell (λ _ _. ⊥) c

    cached_library-IsCold :
        (hash : Bytes) (s : State t a)
        → IsCold s
        → Post (λ found s'. (found ≡ none) × IsCold s') (λ _. ⊥) (cached_library t a hash s)
    unfolding cached_library
    cached_library-IsCold hash s (c, e, cold) =
        rw (e, cached_library)
          (returns (
            elim (Option-cases (a.get Bytes t.Cell bytes_key hash c).0) [
              | inl miss ↦ miss
              | inr (lib, hit) ↦
                  absurd (laws.every-hit Bytes t.Cell bytes_key _ hash lib c cold hit)
            ],
            (
              (a.get Bytes t.Cell bytes_key hash c).1,
              refl,
              laws.every-get Bytes t.Cell bytes_key _ hash c cold,
            ),
          ))

    collect_cached-IsCold :
        (hashes : List Bytes) (libs : t.Dict) (s : State t a)
        → IsCold s
        → Post
            (λ r s'. (r ≡ (libs, hashes)) × IsCold s')
            (λ _. ⊥)
            (collect_cached t a hashes libs s)
    unfolding collect_cached collect_found
    collect_cached-IsCold [] libs s cold = pure-Post _ s (refl, cold)
    collect_cached-IsCold (hash ∷ hashes) libs s cold =
        bind-Post _ _ _ (cached_library-IsCold hash s cold) λ found s₁ (miss, cold₁). rw miss (
          bind-Post _ _ _ (collect_cached-IsCold hashes libs s₁ cold₁) λ r s₂ (e, cold₂).
            pure-Post _ s₂ (ap (λ (x : t.Dict × List Bytes). (x.0, hash ∷ x.1)) e, cold₂))

    -- With no library in the cache, a request for libraries that succeeds is answered with the
    -- empty dictionary, whatever libraries the backend has sent: those go to the cache only.
    pub cold_libraries_empty :
        (ctx : t.Ctx) (h : Bytes) (hs : List Bytes) (s : State t a)
        → IsCold s
        → Post
            (λ r _. r ≡ (t.new_dict 256, false))
            (λ _. Unit {0})
            (get_libraries t a ctx (h ∷ hs) s)
    unfolding get_libraries
    cold_libraries_empty ctx h hs s cold =
        bind-Post _ _ _
          (Post-imp (λ _ _ p. p.0) (λ _ x. absurd x) (collect_cached-IsCold (h ∷ hs) _ s cold))
          λ r s₁ e. rw e (fetch_missing-kept ctx (t.new_dict 256) h hs s₁)
