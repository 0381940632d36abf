-- ===== src/Cache/Transaction.antt =====
-- `GetTransaction`: a transaction of an account in a block of the cache with its proof, else the
-- answer of a backend.
use tonutils_liteserver_prox.Base.{String, Bool, false, none, some, List, [], ◌∷◌, ℕ}
use tonutils_liteserver_prox.Base.Int.{ℤ, pos}
use tonutils_liteserver_prox.Base.Action.{ls, Fallible, good, bad, Action, pure, lift, ◌>>=◌}
use tonutils_liteserver_prox.Ton.{Ton, ArcCache, BlockIdExt, AccountId, TransactionInfo}
use tonutils_liteserver_prox.Cache.State.{State, Block}
use tonutils_liteserver_prox.Cache.Fetch.{get_transaction}
use tonutils_liteserver_prox.Cache.Shard.{cache_block_if_needed}

-- `if err != nil { return …, ton.LSError{code, text} }`
unfoldable pub or_error : {A : Type 0} → ℤ → String → Fallible A → Fallible A
or_error code text (good x) = good x
or_error code text (bad e) = bad (ls (record { code = code; text = text }))

module _ (t : Ton) (a : ArcCache) where
  open t use {Ctx}

  -- the path to the dictionary of accounts: references 3, 2 and 0
  abbrev pub accounts_path : List ℕ
  accounts_path = 3 ∷ 2 ∷ 0 ∷ []

  -- The part of `GetTransaction` after the block is found. The skeleton is passed on by hand.
  unfoldable pub transaction_in_block :
      BlockIdExt → Block t a → AccountId → ℤ → Action (State t a) TransactionInfo
  unfolding or_error
  transaction_in_block id block account lt = do
    let start = t.proof_ref accounts_path t.new_skeleton
    let found = t.load_account_with_proof block.body.shard_accounts account.id start.0 start.1
    acc ← lift (or_error (pos 404) "account is not found in a given block" found.0)
    rest ← lift (
        or_error (pos 500) "failed to load currency collection from shard account"
          (t.load_currency acc.0))
    transactions ← lift (
        or_error (pos 500) "failed to load account block from shard account"
          (t.load_account_block rest))
    let found' = t.load_transaction_with_proof transactions lt acc.1 found.1
    tx ← lift (or_error (pos 404) "no transaction with a given lt on account" found'.0)
    proof ←
        lift (
          or_error (pos 500) "failed to create proof"
            (t.create_proof block.body.data_cell found'.1))
    cell ← lift (or_error (pos 500) "failed to load transaction ref" (t.load_ref tx.0))
    pure (record { id = id; proof = t.to_boc proof; transaction = t.to_boc cell })

  -- The flag says that the block was in the cache.
  unfoldable pub serve_transaction :
      Ctx → BlockIdExt → AccountId → ℤ → Action (State t a) (TransactionInfo × Bool)
  unfolding transaction_in_block
  serve_transaction ctx id account lt = do
    r ← cache_block_if_needed t a ctx id
    elim r.0 [
      | none ↦ do tx ← get_transaction t a ctx id account lt; pure (tx, false)
      | some block ↦ do tx ← transaction_in_block id block account lt; pure (tx, r.1)
    ]
