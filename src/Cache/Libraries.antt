-- ===== src/Cache/Libraries.antt =====
-- `GetLibraries`: the libraries of some hashes, from the cache of libraries or from a backend.
pub mod Cold
pub mod Genuine
use Prim.Native.String.{◌++◌ as ◌<>◌}
use tonutils_liteserver_prox.Base.{
  ℕ, ◌/◌, ◌%◌, String, Bytes, Bool, true, false, Option, none, some, List, [], ◌∷◌, bytes_key,
  get_elem?,
}
use tonutils_liteserver_prox.Base.Int.{pos}
use tonutils_liteserver_prox.Base.Action.{ls, Action, ok, panic, pure, fail, lift, ◌>>=◌, ◌>>◌}
use tonutils_liteserver_prox.Ton.{Ton, ArcCache}
use tonutils_liteserver_prox.Cache.State.{State}
use tonutils_liteserver_prox.Cache.Fetch.{get_libraries_from}

-- `hex.EncodeToString`
abbrev pub hex_digits : List String
hex_digits =
    "0" ∷ "1" ∷ "2" ∷ "3" ∷ "4" ∷ "5" ∷ "6" ∷ "7" ∷ "8" ∷ "9" ∷ "a" ∷ "b" ∷ "c" ∷ "d" ∷ "e" ∷ "f"
    ∷ []

abbrev pub hex_digit : ℕ → String
hex_digit n = elim (get_elem? hex_digits n) [ none ↦ "" | some d ↦ d ]

unfoldable pub hex_encode : Bytes → String
hex_encode [] = ""
hex_encode (b ∷ bs) = (hex_digit (b / 16) <> hex_digit (b % 16)) <> hex_encode bs

module _ (t : Ton) (a : ArcCache) where
  open t use {Cell, Dict, Ctx}
  open a use {Arc, get, add}

  -- `c.libsCache.Get`, nothing without a cache
  unfoldable pub cached_library : Bytes → Action (State t a) (Option Cell)
  cached_library hash s = elim s.libs_cache [
    | none ↦ ok none s
    | some c ↦
        let (found, c') = get Bytes Cell bytes_key hash c in
        ok found (record s { libs_cache = some c' })
  ]

  -- The first loop: the dictionary of the cached libraries, and the hashes to fetch, in order.
  -- `collect_found` is one round of it, for the library that the cache holds, and the rounds left.
  unfoldable pub collect_found :
      Bytes
      → Option Cell
      → Dict
      → (Dict → Action (State t a) (Dict × List Bytes))
      → Action (State t a) (Dict × List Bytes)
  collect_found hash (some lib) libs rest = do libs' ← lift (t.dict_set hash lib libs); rest libs'
  collect_found hash none libs rest = do r ← rest libs; pure (r.0, hash ∷ r.1)

  unfoldable pub collect_cached : List Bytes → Dict → Action (State t a) (Dict × List Bytes)
  unfolding cached_library collect_found
  collect_cached [] libs = pure (libs, [])
  collect_cached (hash ∷ hashes) libs = do
    found ← cached_library hash
    collect_found hash found libs (collect_cached hashes)

  -- `c.libsCache.Add`, a method call on a pointer that may be nil
  unfoldable pub add_library : Bytes → Cell → Action (State t a) (Unit {0})
  add_library hash lib s = elim s.libs_cache [
    | none ↦ panic "invalid memory address or nil pointer dereference" s
    | some c ↦ ok tt (record s { libs_cache = some (add Bytes Cell bytes_key hash lib c) })
  ]

  -- The second loop: found libraries go to the cache; the result is the last hash not found.
  unfoldable pub store_fetched :
      List Bytes → List (Option Cell) → Option Bytes → Action (State t a) (Option Bytes)
  unfolding add_library
  store_fetched [] cells missing = pure missing
  store_fetched (hash ∷ rest) [] missing = pure missing
  store_fetched (hash ∷ rest) (some lib ∷ cells) missing = do
    add_library hash lib
    store_fetched rest cells missing
  store_fetched (hash ∷ rest) (none ∷ cells) missing = store_fetched rest cells (some hash)

  -- the end of `GetLibraries`, with the last hash that was not found
  unfoldable pub finish_fetch : Dict → Option Bytes → Action (State t a) (Dict × Bool)
  finish_fetch libs (some hash) =
      fail (ls (record { code = pos 404; text = "library is not found: " <> hex_encode hash }))
  finish_fetch libs none = pure (libs, false)

  -- The fetch of `GetLibraries`, with the dictionary of the libraries that were cached.
  unfoldable pub fetch_missing : Ctx → Dict → List Bytes → Action (State t a) (Dict × Bool)
  unfolding store_fetched finish_fetch
  fetch_missing ctx libs [] = pure (libs, true)
  fetch_missing ctx libs (h ∷ hs) = do
    cells ← get_libraries_from t a ctx (h ∷ hs)
    missing ← store_fetched (h ∷ hs) cells none
    finish_fetch libs missing

  -- The flag says that all libraries came from the cache.
  unfoldable pub get_libraries : Ctx → List Bytes → Action (State t a) (Dict × Bool)
  unfolding collect_cached fetch_missing
  get_libraries ctx [] = pure (t.new_dict 256, true)
  get_libraries ctx (h ∷ hs) = do
    r ← collect_cached (h ∷ hs) (t.new_dict 256)
    fetch_missing ctx r.0 r.1
