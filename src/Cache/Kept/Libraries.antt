-- ===== src/Cache/Kept/Libraries.antt =====
-- `GetLibraries` and the invariant of the masterchain blocks.
use tonutils_liteserver_prox.Base.{
  [], ◌∷◌, bytes_key, nat_key, Option-cases, inl, inr, ℕ, Bytes, Option, none, some, List, true,
  false, refl, string_key,
}
use tonutils_liteserver_prox.Base.Int.{int_key}
use tonutils_liteserver_prox.Base.Action.{Action}
use tonutils_liteserver_prox.Base.Hoare.{panics, returns}
use tonutils_liteserver_prox.Base.Keeps.{fail-Keeps, pure-Keeps, lift-Keeps, bind-Keeps}
use tonutils_liteserver_prox.Ton.{Ton, TonLaws, ArcCache}
use tonutils_liteserver_prox.Cache.State.{State}
use tonutils_liteserver_prox.Cache.Master.Invariant.{IsValid, IsValid-same}
use tonutils_liteserver_prox.Cache.Kept.{Kept, get_libraries_from-Kept}
use tonutils_liteserver_prox.Cache.Libraries.{
  cached_library, collect_found, collect_cached, add_library, store_fetched, finish_fetch,
  fetch_missing, get_libraries,
}

module _ (t : Ton) (a : ArcCache) (laws : TonLaws t) (m : ℕ) where
  cached_library-Kept : (hash : Bytes) → Kept t a laws m (cached_library t a hash)
  unfolding cached_library
  cached_library-Kept hash s h = elim (Option-cases s.libs_cache) [
    | inl e ↦ rw (e, cached_library) (returns h)
    | inr (c, e) ↦ rw (e, cached_library) (returns (IsValid-same t a m refl refl h))
  ]

  collect_found-Kept :
      (hash : Bytes) (found : Option t.Cell) (libs : t.Dict)
      (rest : t.Dict → Action (State t a) (t.Dict × List Bytes))
      → ((d : t.Dict) → Kept t a laws m (rest d))
      → Kept t a laws m (collect_found t a hash found libs rest)
  unfolding collect_found
  collect_found-Kept hash (some lib) libs rest k =
      bind-Keeps (IsValid t a m) _ _ (lift-Keeps (IsValid t a m) (t.dict_set hash lib libs)) k
  collect_found-Kept hash none libs rest k =
      bind-Keeps (IsValid t a m) _ _ (k libs) λ r. pure-Keeps (IsValid t a m) (r.0, hash ∷ r.1)

  collect_cached-Kept :
      (hashes : List Bytes) (libs : t.Dict) → Kept t a laws m (collect_cached t a hashes libs)
  unfolding collect_cached
  collect_cached-Kept [] libs = pure-Keeps (IsValid t a m) (libs, [])
  collect_cached-Kept (hash ∷ hashes) libs =
      bind-Keeps (IsValid t a m) _ _ (cached_library-Kept hash) λ found.
        collect_found-Kept hash found libs (collect_cached t a hashes) (collect_cached-Kept hashes)

  add_library-Kept : (hash : Bytes) (lib : t.Cell) → Kept t a laws m (add_library t a hash lib)
  unfolding add_library
  add_library-Kept hash lib s h = elim (Option-cases s.libs_cache) [
    | inl e ↦ rw (e, add_library) (panics h)
    | inr (c, e) ↦ rw (e, add_library) (returns (IsValid-same t a m refl refl h))
  ]

  store_fetched-Kept :
      (hashes : List Bytes) (cells : List (Option t.Cell)) (missing : Option Bytes)
      → Kept t a laws m (store_fetched t a hashes cells missing)
  unfolding store_fetched
  store_fetched-Kept [] cells missing = pure-Keeps (IsValid t a m) missing
  store_fetched-Kept (hash ∷ rest) [] missing = pure-Keeps (IsValid t a m) missing
  store_fetched-Kept (hash ∷ rest) (some lib ∷ cells) missing =
      bind-Keeps (IsValid t a m) _ _ (add_library-Kept hash lib)
        λ _. store_fetched-Kept rest cells missing
  store_fetched-Kept (hash ∷ rest) (none ∷ cells) missing =
      store_fetched-Kept rest cells (some hash)

  finish_fetch-Kept :
      (libs : t.Dict) (missing : Option Bytes) → Kept t a laws m (finish_fetch t a libs missing)
  unfolding finish_fetch
  finish_fetch-Kept libs (some hash) = fail-Keeps (IsValid t a m) _
  finish_fetch-Kept libs none = pure-Keeps (IsValid t a m) (libs, false)

  fetch_missing-Kept :
      (ctx : t.Ctx) (libs : t.Dict) (hashes : List Bytes)
      → Kept t a laws m (fetch_missing t a ctx libs hashes)
  unfolding fetch_missing
  fetch_missing-Kept ctx libs [] = pure-Keeps (IsValid t a m) (libs, true)
  fetch_missing-Kept ctx libs (h ∷ hs) =
      bind-Keeps (IsValid t a m) _ _ (get_libraries_from-Kept t a laws m ctx (h ∷ hs)) λ cells.
        bind-Keeps (IsValid t a m) _ _ (store_fetched-Kept (h ∷ hs) cells none)
          λ missing. finish_fetch-Kept libs missing

  pub get_libraries-Kept :
      (ctx : t.Ctx) (hashes : List Bytes) → Kept t a laws m (get_libraries t a ctx hashes)
  unfolding get_libraries
  get_libraries-Kept ctx [] = pure-Keeps (IsValid t a m) (t.new_dict 256, true)
  get_libraries-Kept ctx (h ∷ hs) =
      bind-Keeps (IsValid t a m) _ _ (collect_cached-Kept (h ∷ hs) (t.new_dict 256))
        λ r. fetch_missing-Kept ctx r.0 r.1
