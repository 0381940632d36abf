-- ===== src/Ton/Arc.antt =====
-- `lru.ARCCache` of hashicorp/golang-lru: a cache of bounded size, which may forget entries.
use tonutils_liteserver_prox.Base.{ℕ, Option, some, ◌≡◌, Eq}
use tonutils_liteserver_prox.Base.Action.{Fallible, good}

pub record ArcCache : Type 1 where
  pub Arc : Type 0 → Type 0 → Type 0
  -- `lru.NewARC(size)`
  pub new_arc : (K V : Type 0) → ℕ → Fallible (Arc K V)
  -- `Get` counts as a use, so it changes the cache.
  pub get : (K V : Type 0) → Eq K → K → Arc K V → Option V × Arc K V
  pub add : (K V : Type 0) → Eq K → K → V → Arc K V → Arc K V

-- The documented behaviour: a new cache is empty, and a cache holds what was added to it and has not been
-- evicted. `Every P c` says that each entry of `c` satisfies `P`.
pub record ArcLaws (a : ArcCache) : Type 1 where
  pub Every : (K V : Type 0) → (K → V → Type 0) → a.Arc K V → Type 0
  pub every-new :
      (K V : Type 0) (P : K → V → Type 0) (n : ℕ) (c : a.Arc K V)
      → a.new_arc K V n ≡ good c
      → Every K V P c
  pub every-hit :
      (K V : Type 0) (e : Eq K) (P : K → V → Type 0) (k : K) (v : V) (c : a.Arc K V)
      → Every K V P c
      → (a.get K V e k c).0 ≡ some v
      → P k v
  pub every-get :
      (K V : Type 0) (e : Eq K) (P : K → V → Type 0) (k : K) (c : a.Arc K V)
      → Every K V P c
      → Every K V P (a.get K V e k c).1
  pub every-add :
      (K V : Type 0) (e : Eq K) (P : K → V → Type 0) (k : K) (v : V) (c : a.Arc K V)
      → Every K V P c
      → P k v
      → Every K V P (a.add K V e k v c)
  -- An entry is there when it has just been added: no cache has size 0. A lookup evicts nothing.
  pub get-add :
      (K V : Type 0) (e : Eq K) (k : K) (v : V) (c : a.Arc K V)
      → (a.get K V e k (a.add K V e k v c)).0 ≡ some v
  pub get-get :
      (K V : Type 0) (e : Eq K) (k j : K) (c : a.Arc K V)
      → (a.get K V e k (a.get K V e j c).1).0 ≡ (a.get K V e k c).0
