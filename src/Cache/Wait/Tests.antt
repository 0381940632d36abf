-- ===== src/Cache/Wait/Tests.antt =====
-- Announcements and waits at concrete seqnos.
use tonutils_liteserver_prox.Base.{ℕ, ◌≡◌, refl, true, none, some, [], ◌∷◌, arith}
use tonutils_liteserver_prox.Base.Int.{pos}
use tonutils_liteserver_prox.Ton.{BlockIdExt}
use tonutils_liteserver_prox.Ton.Sample.{sample, unbounded}
use tonutils_liteserver_prox.Cache.State.{masterchain}
use tonutils_liteserver_prox.Cache.Master.Publish.{is_newer}
use tonutils_liteserver_prox.Cache.Wait.{
  System, Reach, here, later, publishes, waits, advance, is_reached, already, returned, finished,
  crashed, unlocked,
}
use tonutils_liteserver_prox.Cache.Wait.Reached.{wait_returns_reached}
use tonutils_liteserver_prox.Cache.Wait.Races.{
  publishers_may_crash, wakeup_may_be_missed, two_publishers, one_publisher, IsLost,
}

abbrev master : ℕ → BlockIdExt
master n = record {
  workchain = masterchain;
  shard = pos 8;
  seqno = n;
  root_hash = n ∷ [];
  file_hash = [];
}

-- The block 101 is published, then the call for it finds it there.
abbrev served : System sample unbounded
served = record {
  shared = record { last_block = some (master 101); current = 0; fresh = 1; closed = [] };
  publishers = unlocked ∷ [];
  waiter = returned none;
}

served-reached :
    Reach sample unbounded 101 (one_publisher sample unbounded (master 100) (master 101)) served
unfolding is_newer is_reached
served-reached = later (later here (publishes 0 refl (advance refl))) (waits (already refl))

wait_returns_reached_example : is_reached 101 (some (master 101)) ≡ true
wait_returns_reached_example = wait_returns_reached sample unbounded 101 refl served-reached refl

publishers_may_crash_example :
    (s : System sample unbounded) × Reach sample unbounded 7
      (two_publishers sample unbounded (master 100) (master 101) (master 102))
      s
    × (s.publishers ≡ finished ∷ crashed ∷ [])
publishers_may_crash_example =
    publishers_may_crash sample unbounded 7 (master 100) (master 101) (master 102) (omega arith)
      (omega arith)

wakeup_may_be_missed_example :
    (s : System sample unbounded) × Reach sample unbounded 101
      (one_publisher sample unbounded (master 100) (master 101))
      s
    × IsLost sample unbounded 101 s
wakeup_may_be_missed_example =
    wakeup_may_be_missed sample unbounded 101 (master 100) (master 101) (omega arith) (omega arith)
