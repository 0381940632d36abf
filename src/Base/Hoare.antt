-- ===== src/Base/Hoare.antt =====
-- What holds when an action ends: `Q` of the value and the state if it returns, `E` of the state
-- if it fails or panics.
use Prim.Native.String.{String}
use mathlib.Core.Path.{◌≡◌, refl}
use tonutils_liteserver_prox.Base.Action.{
  Error, Fallible, good, bad, Result, ok, err, panic, Action, continue, pure, lift, wrapping, final,
  ◌>>=◌,
}

module _ {ℓ} {S A : Type ℓ} where
  pub data Post (Q : A → S → Type 0) (E : S → Type 0) : Result S A → Type ℓ where
    returns : {a : A} {s : S} → Q a s → Post Q E (ok a s)
    fails : {e : Error} {s : S} → E s → Post Q E (err e s)
    panics : {m : String} {s : S} → E s → Post Q E (panic m s)

  pub Post-imp :
      {Q R : A → S → Type 0} {E F : S → Type 0} {r : Result S A}
      → ((a : A) (s : S) → Q a s → R a s)
      → ((s : S) → E s → F s)
      → Post Q E r
      → Post R F r
  Post-imp f g (returns q) = returns (f _ _ q)
  Post-imp f g (fails e) = fails (g _ e)
  Post-imp f g (panics e) = panics (g _ e)

  pub any-Post : (r : Result S A) → Post (λ _ _. Unit {0}) (λ _. Unit {0}) r
  any-Post (ok a s) = returns tt
  any-Post (err e s) = fails tt
  any-Post (panic m s) = panics tt

  -- what holds in any case
  pub Post-final :
      {Q : A → S → Type 0} {E : S → Type 0} {r : Result S A}
      → ((a : A) (s : S) → Q a s → E s)
      → Post Q E r
      → E (final r)
  Post-final f (returns q) = f _ _ q
  Post-final f (fails e) = e
  Post-final f (panics e) = e

  pub pure-Post :
      {Q : A → S → Type 0} {E : S → Type 0} (x : A) (s : S) → Q x s → Post Q E (pure x s)
  unfolding pure
  pure-Post x s q = returns q

  pub lift-Post :
      (Q : A → S → Type 0) (E : S → Type 0) (x : Fallible A) (s : S)
      → ((a : A) → x ≡ good a → Q a s)
      → E s
      → Post Q E (lift x s)
  unfolding lift
  lift-Post Q E (good a) s q e = returns (q a refl)
  lift-Post Q E (bad x) s q e = fails e

  pub wrapping-Post :
      {Q : A → S → Type 0} {E : S → Type 0} (text : String) (m : Action S A) (s : S)
      → Post Q E (m s)
      → Post Q E (wrapping text m s)
  unfolding wrapping
  wrapping-Post {Q} {E} text m s p = go (m s) p
    where
      go : (r : Result S A) → Post Q E r → Post Q E (wrapping text (λ _. r) s)
      go (ok a s') (returns q) = returns q
      go (err e s') (fails h) = fails h
      go (panic x s') (panics h) = panics h

module _ {ℓ} {S A B : Type ℓ} where
  pub continue-Post :
      {Q : A → S → Type 0} {R : B → S → Type 0} {E : S → Type 0} {r : Result S A}
      (f : A → Action S B)
      → Post Q E r
      → ((a : A) (s : S) → Q a s → Post R E (f a s))
      → Post R E (continue r f)
  continue-Post f (returns q) k = k _ _ q
  continue-Post f (fails e) k = fails e
  continue-Post f (panics e) k = panics e

  pub bind-Post :
      {Q : A → S → Type 0} {R : B → S → Type 0} {E : S → Type 0} (m : Action S A)
      (f : A → Action S B) (s : S)
      → Post Q E (m s)
      → ((a : A) (s' : S) → Q a s' → Post R E (f a s'))
      → Post R E ((m >>= f) s)
  unfolding ◌>>=◌
  bind-Post m f s p k = continue-Post f p k

-- An action that does not fail: it returns, or it panics.
module _ {ℓ} {S A : Type ℓ} where
  pub data Ends (Q : A → S → Type 0) (E : S → Type 0) : Result S A → Type ℓ where
    gives : {a : A} {s : S} → Q a s → Ends Q E (ok a s)
    dies : {m : String} {s : S} → E s → Ends Q E (panic m s)

  pub Ends-Post : {Q : A → S → Type 0} {E : S → Type 0} {r : Result S A} → Ends Q E r → Post Q E r
  Ends-Post (gives q) = returns q
  Ends-Post (dies e) = panics e

  pub Ends-imp :
      {Q R : A → S → Type 0} {E : S → Type 0} {r : Result S A}
      → ((a : A) (s : S) → Q a s → R a s)
      → Ends Q E r
      → Ends R E r
  Ends-imp f (gives q) = gives (f _ _ q)
  Ends-imp f (dies e) = dies e

module _ {ℓ} {S A B : Type ℓ} where
  pub continue-Ends :
      {Q : A → S → Type 0} {R : B → S → Type 0} {E : S → Type 0} {r : Result S A}
      (f : A → Action S B)
      → Ends Q E r
      → ((a : A) (s : S) → Q a s → Ends R E (f a s))
      → Ends R E (continue r f)
  continue-Ends f (gives q) k = k _ _ q
  continue-Ends f (dies e) k = dies e
