-- ===== src/Cache/Wait/Reached.antt =====
-- What a call of `WaitMasterBlock` promises when it returns without an error.
use tonutils_liteserver_prox.Base.{ℕ, ◌≡◌, true, none, some, arith, Option}
use tonutils_liteserver_prox.Ton.{Ton, ArcCache, BlockIdExt}
use tonutils_liteserver_prox.Cache.Master.Publish.{is_newer}
use tonutils_liteserver_prox.Cache.Wait.{
  Shared, is_reached, Publisher, Waiter, WaitStep, PublishStep, System, Step, Reach, returned,
  later, checking, advance, publishes, waits, already, not_yet, here, load_old, store_new,
  load_waiter, timed_out, cancelled, overtaken, close_old, wakes, close_again, arrived, again,
}

module _ (t : Ton) (a : ArcCache) (seqno : ℕ) where
  -- A waiter that has returned without an error has seen the seqno reached.
  abbrev Kept : System t a → Type 0
  Kept s = s.waiter ≡ returned none → is_reached seqno s.shared.last_block ≡ true

  publish-reached :
      {s s' : Shared} {p p' : Publisher}
      → PublishStep t a s p s' p'
      → is_reached seqno s.last_block ≡ true
      → is_reached seqno s'.last_block ≡ true
  unfolding is_reached is_newer
  publish-reached {s} (advance {id} newer) h = of_last s.last_block newer h
    where
      of_last :
          (o : Option BlockIdExt)
          → is_newer t a id o ≡ true
          → is_reached seqno o ≡ true
          → is_reached seqno (some id) ≡ true
      of_last none newer h = cc
      of_last (some last) newer h = ground arith
  publish-reached (overtaken _) h = h
  publish-reached load_old h = h
  publish-reached store_new h = h
  publish-reached (close_old _) h = h
  publish-reached (close_again _) h = h

  wait-reached :
      {s : Shared} {v w : Waiter}
      → WaitStep seqno s v w
      → w ≡ returned none
      → is_reached seqno s.last_block ≡ true
  wait-reached (already h) e = h
  wait-reached (not_yet h) e = cc
  wait-reached load_waiter e = cc
  wait-reached (cancelled x) e = cc
  wait-reached timed_out e = cc
  wait-reached (wakes h) e = cc
  wait-reached (arrived h) e = h
  wait-reached (again h) e = cc

  Step-Kept : {s s' : System t a} → Kept s → Step t a seqno s s' → Kept s'
  Step-Kept k (publishes i at step) e = publish-reached step (k e)
  Step-Kept k (waits step) e = wait-reached step e

  Reach-Kept : {s s' : System t a} → Kept s → Reach t a seqno s s' → Kept s'
  Reach-Kept k here = k
  Reach-Kept k (later run step) = Step-Kept (Reach-Kept k run) step

  -- However the steps of a call of `WaitMasterBlock` and of any number of publishers interleave, a
  -- call that has returned without an error has waited long enough: the last block has reached the
  -- seqno, and still has.
  pub wait_returns_reached :
      {s s' : System t a}
      → s.waiter ≡ checking
      → Reach t a seqno s s'
      → s'.waiter ≡ returned none
      → is_reached seqno s'.shared.last_block ≡ true
  wait_returns_reached at_start run = Reach-Kept (λ e. cc) run
