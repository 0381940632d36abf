-- ===== src/Cache/Wait/Races.antt =====
-- Two orders of steps in which the announcement of a new last block goes wrong.
use tonutils_liteserver_prox.Base.{ℕ, ◌≡◌, ◌<◌, ◌≤◌, true, false, some, [], ◌∷◌, refl, arith}
use tonutils_liteserver_prox.Base.Action.{Error}
use tonutils_liteserver_prox.Ton.{Ton, ArcCache, BlockIdExt}
use tonutils_liteserver_prox.Cache.Master.Publish.{is_newer}
use tonutils_liteserver_prox.Cache.Wait.{
  Shared, is_closed, is_reached, enters, finished, crashed, Waiter, checking, waiting, returned,
  timed_out, load_waiter, WaitStep, System, Reach, here, later, publishes, waits, not_yet, already,
  advance, cancelled, load_old, store_new, wakes, arrived, load_waiter, close_old, close_again,
  again,
}

module _ (t : Ton) (a : ArcCache) where
  -- Two goroutines of `GetMasterBlock`, each with a block newer than the last one, and a call of
  -- `WaitMasterBlock`.
  abbrev pub two_publishers : BlockIdExt → BlockIdExt → BlockIdExt → System t a
  two_publishers last first second = record {
    shared = record { last_block = some last; current = 0; fresh = 1; closed = [] };
    publishers = enters first ∷ enters second ∷ [];
    waiter = checking;
  }

  -- Two goroutines that have each fetched a block newer than the last one, the second newer than
  -- the first, can reach a state in which the second one closes a channel that is closed already,
  -- and panics.
  pub publishers_may_crash :
      (seqno : ℕ) (last first second : BlockIdExt)
      → last.seqno < first.seqno
      → first.seqno < second.seqno
      → (s : System t a) × Reach t a seqno (two_publishers last first second) s
        × (s.publishers ≡ finished ∷ crashed ∷ [])
  unfolding is_newer is_closed
  publishers_may_crash seqno last first second h h' = (
    _,
    later
        (later
          (later
            (later
              (later
                (later
                  (later (later here (publishes 0 refl (advance (ground arith))))
                    (publishes 1 refl (advance (ground arith))))
                  (publishes 0 refl load_old))
                (publishes 1 refl load_old))
              (publishes 0 refl store_new))
            (publishes 1 refl store_new))
          (publishes 0 refl (close_old refl)))
        (publishes 1 refl (close_again refl)),
    refl,
  )

  -- one goroutine of `GetMasterBlock` and a call of `WaitMasterBlock`
  abbrev pub one_publisher : BlockIdExt → BlockIdExt → System t a
  one_publisher last next = record {
    shared = record { last_block = some last; current = 0; fresh = 1; closed = [] };
    publishers = enters next ∷ [];
    waiter = checking;
  }

  -- The last block has reached the seqno, the announcement is over, and the waiter cannot do
  -- anything but return an error.
  pub record IsLost (seqno : ℕ) (s : System t a) : Type 0 where
    pub announced : s.publishers ≡ finished ∷ []
    pub reached : is_reached seqno s.shared.last_block ≡ true
    pub stuck :
        {w : Waiter} → WaitStep seqno s.shared s.waiter w → (e : Error) × (w ≡ returned (some e))

  stuck_at :
      {seqno : ℕ} {m : Shared} {v w : Waiter} (ch : ℕ)
      → v ≡ waiting ch
      → is_closed ch m.closed ≡ false
      → WaitStep seqno m v w
      → (e : Error) × (w ≡ returned (some e))
  stuck_at ch e not_closed (already h) = cc
  stuck_at ch e not_closed (not_yet h) = cc
  stuck_at ch e not_closed load_waiter = cc
  stuck_at ch e not_closed (cancelled x) = (x, refl)
  stuck_at ch e not_closed timed_out = (_, refl)
  stuck_at ch e not_closed (wakes h) = cc
  stuck_at ch e not_closed (arrived h) = cc
  stuck_at ch e not_closed (again h) = cc

  -- A call of `WaitMasterBlock` for a seqno after the last block can miss the block that reaches
  -- it: with one goroutine that publishes such a block, a state can be reached in which the block
  -- is the last one and announced, and the call, unless a further block comes, can only return an
  -- error.
  pub wakeup_may_be_missed :
      (seqno : ℕ) (last next : BlockIdExt)
      → last.seqno < seqno
      → seqno ≤ next.seqno
      → (s : System t a) × Reach t a seqno (one_publisher last next) s × IsLost seqno s
  unfolding is_newer is_reached is_closed
  wakeup_may_be_missed seqno last next h h' = (
    _,
    later
        (later
          (later
            (later
              (later (later here (waits (not_yet (ground arith))))
                (publishes 0 refl (advance (ground arith))))
              (publishes 0 refl load_old))
            (publishes 0 refl store_new))
          (waits load_waiter))
        (publishes 0 refl (close_old refl)),
    record { announced = refl; reached = ground arith; stuck = λ step. stuck_at 1 refl refl step },
  )
