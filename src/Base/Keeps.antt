-- ===== src/Base/Keeps.antt =====
-- Actions that keep a property of the state, also when they fail or panic.
use Prim.Native.String.{String}
use tonutils_liteserver_prox.Base.Action.{
  Error, Fallible, Action, pure, fail, lift, wrapping, ◌>>=◌, crash,
}
use tonutils_liteserver_prox.Base.Hoare.{
  Post, Ends, fails, pure-Post, lift-Post, wrapping-Post, bind-Post, panics,
}

module _ {S : Type 0} (Ok : S → Type 0) where
  abbrev pub Keeps : {A : Type 0} → Action S A → Type 0
  Keeps m = (s : S) → Ok s → Post (λ _ s'. Ok s') Ok (m s)

  -- an action that keeps `Ok` and does not fail
  abbrev pub Replies : {A : Type 0} → Action S A → Type 0
  Replies m = (s : S) → Ok s → Ends (λ _ s'. Ok s') Ok (m s)

  pub pure-Keeps : {A : Type 0} (x : A) → Keeps (pure x)
  pure-Keeps x s h = pure-Post x s h

  pub fail-Keeps : {A : Type 0} (e : Error) → Keeps {A = A} (fail e)
  unfolding fail
  fail-Keeps e s h = fails h

  pub crash-Keeps : {A : Type 0} (text : String) → Keeps {A = A} (crash text)
  unfolding crash
  crash-Keeps text s h = panics h

  pub lift-Keeps : {A : Type 0} (x : Fallible A) → Keeps (lift x)
  lift-Keeps x s h = lift-Post _ _ x s (λ _ _. h) h

  pub wrapping-Keeps :
      {A : Type 0} (text : String) (m : Action S A) → Keeps m → Keeps (wrapping text m)
  wrapping-Keeps text m k s h = wrapping-Post text m s (k s h)

  pub bind-Keeps :
      {A B : Type 0} (m : Action S A) (f : A → Action S B)
      → Keeps m
      → ((x : A) → Keeps (f x))
      → Keeps (m >>= f)
  bind-Keeps m f k next s h = bind-Post m f s (k s h) λ x s' h'. next x s' h'
