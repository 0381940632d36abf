-- ===== src/Server/Start/Configured.antt =====
-- Which key has which limits in a new proxy.
use tonutils_liteserver_prox.Base.{
  zero, suc, ◌<◌, ◌≢◌, Bool-cases, inl, inr, ◌++◌, subst, sym, arith, ℕ, Bytes, Bool, true, false,
  ◌≡◌, refl, ap, ◌∙◌, Option, none, some, List, [], ◌∷◌, All, length, if◌then◌else◌, ◌==◌,
  bytes_key,
}
use tonutils_liteserver_prox.Base.Int.{ℤ, pos, negsuc}
use tonutils_liteserver_prox.Base.Maps.{Map, lookup, insert, lookup-insert}
use tonutils_liteserver_prox.Base.Action.{ok, ◌>>=◌, pure}
use tonutils_liteserver_prox.Ton.{Ton, ArcCache, Message}
use tonutils_liteserver_prox.Config.{ClientConfig}
use tonutils_liteserver_prox.Server.Limits.{Limiters, KeyConfig}
use tonutils_liteserver_prox.Server.Requests.{Proxy}
use tonutils_liteserver_prox.Server.Start.{
  is_positive, key_config, configure, new_gp_cache, new_proxy,
}

abbrev or_else : {A : Type 0} → Option A → Option A → Option A
or_else none y = y
or_else (some x) y = some x

module _ (l : Limiters) (public_key : Bytes → Bytes) where
  -- the configuration of a key, searched from the last client on
  unfoldable limits_of : Bytes → List (ClientConfig l.Rate) → Option (KeyConfig l)
  limits_of key [] = none
  limits_of key (c ∷ cs) =
      or_else (limits_of key cs)
        (if public_key c.private_key == key then some (key_config l c) else none)

  -- Each seed has the length that ed25519 asks for.
  abbrev pub SeedsFit : List (ClientConfig l.Rate) → Type 0
  SeedsFit clients = All (λ c. length c.private_key ≡ 32) clients

  -- a new entry hides the old one
  or_else-if :
      {A : Type 0} (x : Option A) (b : Bool) (v : A) (y : Option A)
      → or_else x (if b then some v else y) ≡ or_else (or_else x (if b then some v else none)) y
  or_else-if (some w) b v y = refl
  or_else-if none true v y = refl
  or_else-if none false v y = refl

  or_else-none : {A : Type 0} (x : Option A) → or_else x none ≡ x
  or_else-none none = refl
  or_else-none (some x) = refl

  configure-limits_of :
      {S : Type 0} (clients : List (ClientConfig l.Rate)) (configs : Map Bytes (KeyConfig l))
      (s : S)
      → SeedsFit clients
      → (configs' : Map Bytes (KeyConfig l)) × (configure l public_key clients configs s
          ≡ ok configs' s)
        × ((key : Bytes)
            → lookup key configs' ≡ or_else (limits_of key clients) (lookup key configs))
  unfolding configure limits_of pure
  configure-limits_of [] configs s fit = (configs, refl, λ key. refl)
  configure-limits_of (c ∷ cs) configs s fit =
      let k = public_key c.private_key in
      let (configs', runs, found) =
        configure-limits_of cs (insert k (key_config l c) configs) s fit.1 in
      (
        configs',
        rw (fit.0) runs,
        λ key.
            found key
            ∙ ap (or_else (limits_of key cs)) (lookup-insert k key (key_config l c) configs)
            ∙ or_else-if (limits_of key cs) (k == key) (key_config l c) (lookup key configs),
      )

  -- A capacity above 0 gives a limiter, and any other gives none.
  pub data HasLimiter {L : Type 0} (make : ℤ → L) : ℤ → Option L → Type 0 where
    limited : {n : ℕ} → 0 < n → HasLimiter make (pos n) (some (make (pos n)))
    zero_capacity : HasLimiter make (pos 0) none
    negative : {n : ℕ} → HasLimiter make (negsuc n) none

  -- The limiters that a client has configured: the first for each address, the second for the key.
  pub record LimitsOf (c : ClientConfig l.Rate) (cfg : KeyConfig l) : Type 0 where
    pub named : cfg.name ≡ c.name
    pub per_ip :
        HasLimiter
          (λ capacity. l.new_collector c.cooling_per_sec capacity true)
          c.capacity_per_ip
          cfg.limiter_per_ip
    pub per_key : HasLimiter (l.new_bucket c.cooling_per_sec) c.capacity_per_key cfg.limiter_per_key

  -- What a proxy for the clients has for a key: nothing if it is the public key of no client, else
  -- the limits of the last client that it belongs to.
  pub data Configured (key : Bytes) (clients : List (ClientConfig l.Rate))
      : Option (KeyConfig l) → Type 0 where
    unknown : All (λ c. public_key c.private_key ≢ key) clients → Configured key clients none
    known :
        (before after : List (ClientConfig l.Rate)) (c : ClientConfig l.Rate) (cfg : KeyConfig l)
        → clients ≡ before ++ c ∷ after
        → public_key c.private_key ≡ key
        → All (λ d. public_key d.private_key ≢ key) after
        → LimitsOf c cfg
        → Configured key clients (some cfg)

  if_positive-HasLimiter :
      {L : Type 0} (make : ℤ → L) (capacity : ℤ)
      → HasLimiter make capacity (if is_positive capacity then some (make capacity) else none)
  if_positive-HasLimiter make (pos zero) = zero_capacity
  if_positive-HasLimiter make (pos (suc n)) = limited (omega arith)
  if_positive-HasLimiter make (negsuc n) = negative

  key_config-LimitsOf : (c : ClientConfig l.Rate) → LimitsOf c (key_config l c)
  key_config-LimitsOf c = record {
    named = refl;
    per_ip =
        if_positive-HasLimiter (λ capacity. l.new_collector c.cooling_per_sec capacity true)
          c.capacity_per_ip;
    per_key = if_positive-HasLimiter (l.new_bucket c.cooling_per_sec) c.capacity_per_key;
  }

  -- one more client before the others
  Configured-cons :
      (key : Bytes) (c : ClientConfig l.Rate) (cs : List (ClientConfig l.Rate))
      (o : Option (KeyConfig l))
      → Configured key cs o
      → Configured key
          (c ∷ cs)
          (or_else o (if public_key c.private_key == key then some (key_config l c) else none))
  Configured-cons key c cs _ (known before after d cfg split same others limits) =
      known (c ∷ before) after d cfg (ap (λ ds. c ∷ ds) split) same others limits
  Configured-cons key c cs _ (unknown others) =
      elim (Bool-cases (public_key c.private_key == key)) [
        | inl same ↦ rw same (
            known [] cs c (key_config l c) refl ((bytes_key.beq_iff _ _).0 same) others
              (key_config-LimitsOf c))
        | inr other ↦
            rw other (unknown ((λ e. let hit = (bytes_key.beq_iff _ _).1 e in cc), others))
      ]

  limits_of-Configured :
      (key : Bytes) (clients : List (ClientConfig l.Rate))
      → Configured key clients (limits_of key clients)
  unfolding limits_of
  limits_of-Configured key [] = unknown tt
  limits_of-Configured key (c ∷ cs) =
      Configured-cons key c cs (limits_of key cs) (limits_of-Configured key cs)

module _ (t : Ton) (a : ArcCache) (l : Limiters) (public_key : Bytes → Bytes) where
  -- If the seeds of the clients have 32 bytes and the cache of answers can be made, a new proxy is
  -- made over the given store. In it a key is known exactly if it is the public key of a client, and
  -- has the name and the limits of the last such client: a limiter for each address if its
  -- `CapacityPerIP` is above 0, and one for the key if its `CapacityPerKey` is, with that capacity
  -- and the client's rate of cooling.
  pub new_proxy-Configured :
      {S : Type 0} (clients : List (ClientConfig l.Rate)) (only_proxy : Bool)
      (max_connections_per_ip gp_cache_size : ℕ) (g : Option (a.Arc ℕ (Message t.Cell))) (s : S)
      → SeedsFit l public_key clients
      → new_gp_cache t a gp_cache_size s ≡ ok g s
      → (p : Proxy t a l S) × (new_proxy t a l public_key clients only_proxy max_connections_per_ip
            gp_cache_size s
          ≡ ok p s)
        × (p.store ≡ s)
        × ((key : Bytes) → Configured l public_key key clients (lookup key p.configs))
  unfolding new_proxy ◌>>=◌ lookup
  new_proxy-Configured clients only_proxy max_connections_per_ip gp_cache_size g s fit made =
      let (configs, runs, found) = configure-limits_of l public_key clients [] s fit in
      (
        record {
          store = s;
          configs = configs;
          connections = record {
            ips = [];
            max_connections_per_ip = max_connections_per_ip;
            opened = 0;
            closed = 0;
          };
          gp_cache = g;
          only_proxy = only_proxy;
        },
        rw (made, runs) refl,
        refl,
        λ key.
            subst (Configured l public_key key clients)
              (sym (found key ∙ or_else-none l public_key (limits_of l public_key key clients)))
              (limits_of-Configured l public_key key clients),
      )
