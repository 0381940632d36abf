-- ===== src/Base/Maps.antt =====
-- A Go map as an association list with at most one entry for a key. The code never depends on the
-- order in which a map is ranged over.
use mathlib.Core.Path.{subst, ◌≡◌}
use mathlib.Core.Bool.{Bool}
use mathlib.Core.List.{List, [], ◌∷◌}
use mathlib.Core.Option.{Option, none, some}
use native.Mathlib.Omega.{arith}
use mathlib.Core.Logic.{inl, inr}
use tonutils_liteserver_prox.Base.Lists.{All}
use tonutils_liteserver_prox.Base.Tests.{Bool-cases, Eq, ◌==◌, if◌then◌else◌}

abbrev pub Map : Type 0 → Type 0 → Type 0
Map K V = List (K × V)

module _ {K V : Type 0} ⦃key : Eq K⦄ where
  -- `m[k]`, with `none` for a missing key
  unfoldable pub lookup : K → Map K V → Option V
  lookup k [] = none
  lookup k ((j, v) ∷ m) = if j == k then some v else lookup k m

  -- `delete(m, k)`
  unfoldable pub delete : K → Map K V → Map K V
  delete k [] = []
  delete k ((j, v) ∷ m) = if j == k then delete k m else (j, v) ∷ delete k m

  -- `m[k] = v`
  unfoldable pub insert : K → V → Map K V → Map K V
  insert k v m = (k, v) ∷ delete k m

  -- the entries for which a loop over the map does not call `delete`
  unfoldable pub retain : (K → V → Bool) → Map K V → Map K V
  retain p [] = []
  retain p ((j, v) ∷ m) = if p j v then (j, v) ∷ retain p m else retain p m

  pub lookup-delete :
      (k j : K) (m : Map K V) → lookup j (delete k m) ≡ (if k == j then none else lookup j m)
  unfolding lookup delete
  lookup-delete k j [] = ground arith
  lookup-delete k j ((i, w) ∷ m) =
      ground (arith, key.beq_iff i k, key.beq_iff i j, key.beq_iff k j, lookup-delete k j m)

  pub lookup-insert :
      (k j : K) (v : V) (m : Map K V)
      → lookup j (insert k v m) ≡ (if k == j then some v else lookup j m)
  unfolding lookup insert
  lookup-insert k j v m = ground (arith, lookup-delete k j m)

  module _ {κ} (P : K × V → Type κ) where
    pub All-delete : (k : K) (m : Map K V) → All P m → All P (delete k m)
    unfolding delete
    All-delete k [] h = tt
    All-delete k ((j, v) ∷ m) h = ground (arith, All-delete k m h.1)

    pub All-insert : (k : K) (v : V) (m : Map K V) → P (k, v) → All P m → All P (insert k v m)
    unfolding insert
    All-insert k v m here h = (here, All-delete k m h)

    pub All-retain : (p : K → V → Bool) (m : Map K V) → All P m → All P (retain p m)
    unfolding retain
    All-retain p [] h = tt
    All-retain p ((j, v) ∷ m) h = ground (arith, All-retain p m h.1)

    pub All-lookup : (k : K) (v : V) (m : Map K V) → lookup k m ≡ some v → All P m → P (k, v)
    unfolding lookup
    All-lookup k v [] e h = cc
    All-lookup k v ((j, w) ∷ m) e h = elim (Bool-cases (j == k)) [
      | inl here ↦
          let same : ◌≡◌ {A = K × V} (j, w) (k, v) = ground (arith, key.beq_iff j k) in
          subst P same h.0
      | inr there ↦ All-lookup k v m (ground arith) h.1
    ]
