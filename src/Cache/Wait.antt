-- ===== src/Cache/Wait.antt =====
-- `WaitMasterBlock` and the end of `GetMasterBlock`, step by step: what waits for a new last block
-- and what announces one run in goroutines of their own, and meet in `lastBlock` and `mcWaiter`.
pub mod Reached
pub mod Races
mod Tests
use tonutils_liteserver_prox.Base.{
  ℕ, suc, Bool, true, false, ◌≡◌, Option, none, some, List, [], ◌∷◌, leb, nat_eq, ◌||◌, get_elem?,
  set,
}
use tonutils_liteserver_prox.Base.Int.{pos}
use tonutils_liteserver_prox.Base.Action.{Error, ls}
use tonutils_liteserver_prox.Ton.{Ton, ArcCache, BlockIdExt}
use tonutils_liteserver_prox.Cache.Master.Publish.{is_newer}

-- The variables that the goroutines share. A channel is a number: `current` is the one that
-- `mcWaiter` points at, `fresh` the next one that `make` gives.
pub record Shared : Type 0 where
  pub last_block : Option BlockIdExt
  pub current : ℕ
  pub fresh : ℕ
  pub closed : List ℕ

unfoldable pub is_closed : ℕ → List ℕ → Bool
is_closed ch [] = false
is_closed ch (x ∷ xs) = nat_eq ch x || is_closed ch xs

-- `c.lastBlock != nil && seqno <= c.lastBlock.SeqNo`
unfoldable pub is_reached : ℕ → Option BlockIdExt → Bool
is_reached seqno none = false
is_reached seqno (some last) = leb seqno last.seqno

-- Where a goroutine stands that has found its block newer than the last one: before the lock, after
-- it, after the load of `old`, after the store of the new channel, and at the end. A second close
-- of a channel panics.
pub data Publisher : Type 0 where
  enters : BlockIdExt → Publisher
  unlocked : Publisher
  holds : (old : ℕ) → Publisher
  stored : (old : ℕ) → Publisher
  finished : Publisher
  crashed : Publisher

-- Where a call of `WaitMasterBlock` stands: before the first look at `lastBlock`, before the load
-- of the channel, in the `select`, after a wakeup, and at the end.
pub data Waiter : Type 0 where
  checking : Waiter
  loading : Waiter
  waiting : (ch : ℕ) → Waiter
  woken : Waiter
  returned : Option Error → Waiter

abbrev pub timeout : Error
timeout = ls (record { code = pos 652; text = "timeout" })

-- a step of a call of `WaitMasterBlock` for a seqno
pub data WaitStep (seqno : ℕ) (s : Shared) : Waiter → Waiter → Type 0 where
  already : is_reached seqno s.last_block ≡ true → WaitStep seqno s checking (returned none)
  not_yet : is_reached seqno s.last_block ≡ false → WaitStep seqno s checking loading
  load_waiter : WaitStep seqno s loading (waiting s.current)
  cancelled : {ch : ℕ} (e : Error) → WaitStep seqno s (waiting ch) (returned (some e))
  timed_out : {ch : ℕ} → WaitStep seqno s (waiting ch) (returned (some timeout))
  wakes : {ch : ℕ} → is_closed ch s.closed ≡ true → WaitStep seqno s (waiting ch) woken
  arrived : is_reached seqno s.last_block ≡ true → WaitStep seqno s woken (returned none)
  again : is_reached seqno s.last_block ≡ false → WaitStep seqno s woken loading

module _ (t : Ton) (a : ArcCache) where
  -- A step of `if lastUpdated { … }`, without the maps that it cleans.
  pub data PublishStep (s : Shared) : Publisher → Shared → Publisher → Type 0 where
    advance :
        {id : BlockIdExt}
        → is_newer t a id s.last_block ≡ true
        → PublishStep s (enters id) (record s { last_block = some id }) unlocked
    overtaken :
        {id : BlockIdExt}
        → is_newer t a id s.last_block ≡ false
        → PublishStep s (enters id) s unlocked
    load_old : PublishStep s unlocked s (holds s.current)
    store_new :
        {old : ℕ}
        → PublishStep s
            (holds old)
            (record s { current = s.fresh; fresh = suc s.fresh })
            (stored old)
    close_old :
        {old : ℕ}
        → is_closed old s.closed ≡ false
        → PublishStep s (stored old) (record s { closed = old ∷ s.closed }) finished
    close_again : {old : ℕ} → is_closed old s.closed ≡ true → PublishStep s (stored old) s crashed

  -- any number of publishers, and one call of `WaitMasterBlock`
  pub record System : Type 0 where
    pub shared : Shared
    pub publishers : List Publisher
    pub waiter : Waiter

  pub data Step (seqno : ℕ) (s : System) : System → Type 0 where
    publishes :
        (i : ℕ) {p p' : Publisher} {m : Shared}
        → get_elem? s.publishers i ≡ some p
        → PublishStep s.shared p m p'
        → Step seqno s
            (record { shared = m; publishers = set s.publishers i p'; waiter = s.waiter })
    waits :
        {w : Waiter} → WaitStep seqno s.shared s.waiter w → Step seqno s (record s { waiter = w })

  pub data Reach (seqno : ℕ) (s : System) : System → Type 0 where
    here : Reach seqno s s
    later : {s' s'' : System} → Reach seqno s s' → Step seqno s' s'' → Reach seqno s s''
