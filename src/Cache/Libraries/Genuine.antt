-- ===== src/Cache/Libraries/Genuine.antt =====
-- Every library that the cache takes in or gives out has the hash under which it goes.
use tonutils_liteserver_prox.Base.{
  Bytes, ◌≡◌, refl, subst, Option, none, some, List, [], ◌∷◌, map, All, arith, bytes_eq,
  bytes_eq_sound, bytes_key, Option-cases, Bool-cases, inl, inr, if◌then◌else◌,
}
use tonutils_liteserver_prox.Base.Action.{good, Action, fail}
use tonutils_liteserver_prox.Base.Hoare.{
  Post, returns, fails, panics, bind-Post, lift-Post, pure-Post, Post-imp,
}
use tonutils_liteserver_prox.Ton.{Ton, TonLaws, ArcCache, ArcLaws, Message, library_result}
use tonutils_liteserver_prox.Cache.State.{State}
use tonutils_liteserver_prox.Cache.Frame.{Frame, checked-Framed}
use tonutils_liteserver_prox.Cache.Fetch.{get_libraries_from, libraries_of_answer, find_library}
use tonutils_liteserver_prox.Cache.Libraries.{
  cached_library, collect_found, collect_cached, add_library, store_fetched, finish_fetch,
  fetch_missing, get_libraries,
}

module _ (t : Ton) (a : ArcCache) where
  abbrev pub IsNamed : Bytes → t.Cell → Type 0
  IsNamed h c = t.cell_hash c ≡ h

  -- the cells found for a list of hashes, nil for those that were not found
  abbrev pub AllNamed : List Bytes → List (Option t.Cell) → Type 0
  AllNamed [] cells = Unit {0}
  AllNamed (h ∷ hs) [] = Unit {0}
  AllNamed (h ∷ hs) (none ∷ cells) = AllNamed hs cells
  AllNamed (h ∷ hs) (some c ∷ cells) = IsNamed h c × AllNamed hs cells

  find_library-IsNamed :
      (h : Bytes) (found : Option t.Cell) (es : List (Bytes × t.Cell)) (c : t.Cell)
      → ((x : t.Cell) → found ≡ some x → IsNamed h x)
      → find_library t h found es ≡ some c
      → IsNamed h c
  unfolding find_library
  find_library-IsNamed h found [] c ok_found e = ok_found c e
  find_library-IsNamed h found ((_, x) ∷ es) c ok_found e =
      find_library-IsNamed h (if bytes_eq h (t.cell_hash x) then some x else found) es c
        (λ y p. elim (Bool-cases (bytes_eq h (t.cell_hash x))) [
          | inl same ↦ ground (arith, bytes_eq_sound h (t.cell_hash x))
          | inr other ↦ ok_found y (ground arith)
        ])
        e

  found-AllNamed :
      (es : List (Bytes × t.Cell)) (hs : List Bytes)
      → AllNamed hs (map (λ h. find_library t h none es) hs)
  found-AllNamed es [] = tt
  found-AllNamed es (h ∷ hs) =
      of_found (find_library t h none es) _ (find_library-IsNamed h none es) (found-AllNamed es hs)
    where
      of_found :
          (o : Option t.Cell) (cells : List (Option t.Cell))
          → ((c : t.Cell) → ((x : t.Cell) → none ≡ some x → IsNamed h x) → o ≡ some c → IsNamed h c)
          → AllNamed hs cells
          → AllNamed (h ∷ hs) (o ∷ cells)
      of_found none cells named rest = rest
      of_found (some c) cells named rest = (named c (λ x p. cc) refl, rest)

  libraries_of_answer-AllNamed :
      (hs : List Bytes) (m : Message t.Cell) (cells : List (Option t.Cell))
      → libraries_of_answer t hs m ≡ good cells
      → AllNamed hs cells
  unfolding libraries_of_answer
  libraries_of_answer-AllNamed hs (library_result es) cells e =
      subst (AllNamed hs) (ground arith) (found-AllNamed es hs)
  libraries_of_answer-AllNamed hs _ cells e = cc

  module _ (laws : ArcLaws a) (ton : TonLaws t) where
    -- each library in the cache of libraries is the one of its key
    abbrev Holds : Option (a.Arc Bytes t.Cell) → Type 0
    Holds none = Unit {0}
    Holds (some c) = laws.Every Bytes t.Cell IsNamed c

    pub record IsGenuine (s : State t a) : Type 0 where
      pub cached : Holds s.libs_cache

    -- the dictionary can be listed, and each of its libraries is the one of its key
    abbrev pub AllGenuine : t.Dict → Type 0
    AllGenuine d =
        (all : List (Bytes × t.Cell)) × (t.dict_load_all d ≡ good all)
        × All (λ e. IsNamed e.0 e.1) all

    Frame-IsGenuine : {s s' : State t a} → IsGenuine s → Frame t a s s' → IsGenuine s'
    Frame-IsGenuine g f = record { cached = rw f.libs_cache g.cached }

    cached_library-IsGenuine :
        (hash : Bytes) (s : State t a)
        → IsGenuine s
        → Post
            (λ found s'. ((c : t.Cell) → found ≡ some c → IsNamed hash c) × IsGenuine s')
            IsGenuine
            (cached_library t a hash s)
    unfolding cached_library
    cached_library-IsGenuine hash s g = elim (Option-cases s.libs_cache) [
      | inl e ↦ rw (e, cached_library) (returns (λ c p. cc, g))
      | inr (c, e) ↦
          let every : laws.Every Bytes t.Cell IsNamed c = subst Holds e g.cached in
          rw (e, cached_library)
            (returns (
              λ lib hit. laws.every-hit Bytes t.Cell bytes_key IsNamed hash lib c every hit,
              record { cached = laws.every-get Bytes t.Cell bytes_key IsNamed hash c every },
            ))
    ]

    dict_set-AllGenuine :
        (hash : Bytes) (lib : t.Cell) (d d' : t.Dict)
        → IsNamed hash lib
        → AllGenuine d
        → t.dict_set hash lib d ≡ good d'
        → AllGenuine d'
    dict_set-AllGenuine hash lib d d' named (all, listed, g) e =
        let (all', listed', keeps) = ton.dict_set-entries hash lib d d' all e listed in
        (all', listed', keeps IsNamed named g)

    -- what a part of `GetLibraries` returns when all goes well
    abbrev pub Given : {A : Type 0} → t.Dict × A → State t a → Type 0
    Given r s = AllGenuine r.0 × IsGenuine s

    collect_found-Given :
        (hash : Bytes) (found : Option t.Cell) (libs : t.Dict)
        (rest : t.Dict → Action (State t a) (t.Dict × List Bytes)) (s : State t a)
        → ((c : t.Cell) → found ≡ some c → IsNamed hash c)
        → ((d : t.Dict) (s' : State t a)
            → AllGenuine d
            → IsGenuine s'
            → Post Given IsGenuine (rest d s'))
        → AllGenuine libs
        → IsGenuine s
        → Post Given IsGenuine (collect_found t a hash found libs rest s)
    unfolding collect_found
    collect_found-Given hash none libs rest s named goes d g =
        bind-Post _ _ _ (goes libs s d g) λ r s' v. pure-Post _ s' v
    collect_found-Given hash (some lib) libs rest s named goes d g =
        bind-Post _ _ _
          (lift-Post (λ d' s'. Given {A = Unit {0}} (d', tt) s') IsGenuine _ s
            (λ d' e. (dict_set-AllGenuine hash lib libs d' (named lib refl) d e, g)) g)
          λ d' s' v. goes d' s' v.0 v.1

    collect_cached-Given :
        (hashes : List Bytes) (libs : t.Dict) (s : State t a)
        → AllGenuine libs
        → IsGenuine s
        → Post Given IsGenuine (collect_cached t a hashes libs s)
    unfolding collect_cached
    collect_cached-Given [] libs s d g = pure-Post _ s (d, g)
    collect_cached-Given (hash ∷ hashes) libs s d g =
        bind-Post _ _ _ (cached_library-IsGenuine hash s g) λ found s₁ v.
          collect_found-Given hash found libs (collect_cached t a hashes) s₁ v.0
            (λ d' s' d'' g'. collect_cached-Given hashes d' s' d'' g') d v.1

    add_library-IsGenuine :
        (hash : Bytes) (lib : t.Cell) (s : State t a)
        → IsNamed hash lib
        → IsGenuine s
        → Post (λ _ s'. IsGenuine s') IsGenuine (add_library t a hash lib s)
    unfolding add_library
    add_library-IsGenuine hash lib s named g = elim (Option-cases s.libs_cache) [
      | inl e ↦ rw (e, add_library) (panics g)
      | inr (c, e) ↦
          rw (e, add_library)
            (returns (record {
              cached =
                  laws.every-add Bytes t.Cell bytes_key IsNamed hash lib c (subst Holds e g.cached)
                    named;
            }))
    ]

    store_fetched-IsGenuine :
        (hs : List Bytes) (cells : List (Option t.Cell)) (missing : Option Bytes) (s : State t a)
        → AllNamed hs cells
        → IsGenuine s
        → Post (λ _ s'. IsGenuine s') IsGenuine (store_fetched t a hs cells missing s)
    unfolding store_fetched
    store_fetched-IsGenuine [] cells missing s named g = pure-Post _ s g
    store_fetched-IsGenuine (h ∷ hs) [] missing s named g = pure-Post _ s g
    store_fetched-IsGenuine (h ∷ hs) (some lib ∷ cells) missing s named g =
        bind-Post _ _ _ (add_library-IsGenuine h lib s named.0 g)
          λ _ s' g'. store_fetched-IsGenuine hs cells missing s' named.1 g'
    store_fetched-IsGenuine (h ∷ hs) (none ∷ cells) missing s named g =
        store_fetched-IsGenuine hs cells (some h) s named g

    finish_fetch-Given :
        (libs : t.Dict) (missing : Option Bytes) (s : State t a)
        → AllGenuine libs
        → IsGenuine s
        → Post Given IsGenuine (finish_fetch t a libs missing s)
    unfolding finish_fetch fail
    finish_fetch-Given libs none s d g = pure-Post _ s (d, g)
    finish_fetch-Given libs (some h) s d g = fails g

    fetch_missing-Given :
        (ctx : t.Ctx) (libs : t.Dict) (hs : List Bytes) (s : State t a)
        → AllGenuine libs
        → IsGenuine s
        → Post Given IsGenuine (fetch_missing t a ctx libs hs s)
    unfolding fetch_missing get_libraries_from
    fetch_missing-Given ctx libs [] s d g = pure-Post _ s (d, g)
    fetch_missing-Given ctx libs (h ∷ hs) s d g =
        bind-Post {Q = λ cells s'. AllNamed (h ∷ hs) cells × IsGenuine s'} _ _ _
          (Post-imp (λ _ _ p. (p.0, Frame-IsGenuine g p.1)) (λ _ f. Frame-IsGenuine g f)
            (checked-Framed t a (AllNamed (h ∷ hs)) ctx _ (libraries_of_answer t (h ∷ hs))
              (libraries_of_answer-AllNamed (h ∷ hs)) s))
          λ cells s₁ v.
            bind-Post _ _ _ (store_fetched-IsGenuine (h ∷ hs) cells none s₁ v.0 v.1)
              λ missing s₂ g₂. finish_fetch-Given libs missing s₂ d g₂

    -- With dictionaries and ARC caches as documented, in a cache whose libraries have the hashes
    -- that are their keys, and whatever the backends answer: each library that `GetLibraries`
    -- returns has the hash under which the dictionary holds it, and so has afterwards each library
    -- in the cache, also when the call fails.
    pub get_libraries-Given :
        (ctx : t.Ctx) (hashes : List Bytes) (s : State t a)
        → IsGenuine s
        → Post Given IsGenuine (get_libraries t a ctx hashes s)
    unfolding get_libraries
    get_libraries-Given ctx [] s g = pure-Post _ s (([], ton.new_dict-empty 256, tt), g)
    get_libraries-Given ctx (h ∷ hs) s g =
        bind-Post _ _ _
          (collect_cached-Given (h ∷ hs) (t.new_dict 256) s ([], ton.new_dict-empty 256, tt) g)
          λ r s₁ v. fetch_missing-Given ctx r.0 r.1 s₁ v.0 v.1
