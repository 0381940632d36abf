-- ===== src/Base/Action.antt =====
-- Go functions that change state and return `(value, error)`, or panic. What was written before an
-- error or a panic stays written.
use Prim.Native.String.{String}
use tonutils_liteserver_prox.Base.Int.{ℤ}

-- `ton.LSError`
pub record LsError : Type 0 where
  pub code : ℤ  -- int32
  pub text : String

-- `error`: a `ton.LSError`, which the handlers recognise by a type assertion, or any other value.
-- `fmt.Errorf` with `%w` gives `wrapped`, which the assertion does not see through.
pub data Error : Type 0 where
  ls : LsError → Error
  plain : String → Error
  wrapped : String → Error → Error

-- the result of a call that changes no state of the proxy
pub data Fallible {ℓ} (A : Type ℓ) : Type ℓ where
  good : A → Fallible A
  bad : Error → Fallible A

abbrev pub wrap {ℓ} : {A : Type ℓ} → String → Fallible A → Fallible A
wrap text (good a) = good a
wrap text (bad e) = bad (wrapped text e)

pub data Result {ℓ} (S A : Type ℓ) : Type ℓ where
  ok : A → S → Result S A
  err : Error → S → Result S A
  panic : String → S → Result S A

abbrev pub Action {ℓ} : Type ℓ → Type ℓ → Type ℓ
Action S A = S → Result S A

module _ {ℓ} {S A : Type ℓ} where
  unfoldable pub pure : A → Action S A
  pure a s = ok a s

  unfoldable pub fail : Error → Action S A
  fail e s = err e s

  unfoldable pub crash : String → Action S A
  crash m s = panic m s

  unfoldable pub lift : Fallible A → Action S A
  lift (good a) s = ok a s
  lift (bad e) s = err e s

  -- the state in which the action ends, whichever way it ends
  abbrev pub final : Result S A → S
  final (ok a s) = s
  final (err e s) = s
  final (panic m s) = s

-- `if err != nil { return fmt.Errorf(text, err) }` after a call
module _ {ℓ} {S A : Type ℓ} where
  unfoldable pub wrapping : String → Action S A → Action S A
  wrapping text m s = elim (m s) [
    | ok a s' ↦ ok a s'
    | err e s' ↦ err (wrapped text e) s'
    | panic t s' ↦ panic t s'
  ]

module _ {ℓ} {S A B : Type ℓ} where
  abbrev pub continue : Result S A → (A → Action S B) → Result S B
  continue (ok a s) f = f a s
  continue (err e s) f = err e s
  continue (panic m s) f = panic m s

  infixl 5 ◌>>=◌ ◌>>◌
  -- opening this opens `pure`, `fail`, `crash`, `lift` and `wrapping` too
  unfoldable pub ◌>>=◌ : Action S A → (A → Action S B) → Action S B
  unfolding pure fail crash lift wrapping
  ◌>>=◌ m f s = continue (m s) f

  abbrev pub ◌>>◌ : Action S A → Action S B → Action S B
  m >> n = m >>= λ _. n
