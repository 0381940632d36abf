-- ===== src/Backend/Tests.antt =====
-- Backends at concrete values.
use tonutils_liteserver_prox.Base.{
  ℕ, ◌<◌, ◌-◌, ◌≡◌, ◌≢◌, refl, false, ◌&&◌, [], ◌∷◌, arith, length, All, ltb, inl,
}
use tonutils_liteserver_prox.Base.Int.{pos}
use tonutils_liteserver_prox.Base.Action.{plain, bad, good, ok}
use tonutils_liteserver_prox.Ton.{get_time, get_version, ls_error}
use tonutils_liteserver_prox.Ton.Sample.{sample}
use tonutils_liteserver_prox.Backend.{
  Backend, BackendBalancer, BackendLiteserver, Net, in_slice, loop_copy, fail_over_type,
  round_robin_type, is_failed, get_client, new_backend_balancer,
}
use tonutils_liteserver_prox.Backend.Start.{new_backend_balancer-ready}
use tonutils_liteserver_prox.Backend.Select.{
  Returns, get_client-Chooses, round_robin_fair, after_calls,
}
use tonutils_liteserver_prox.Backend.Record.{Event, replay, tracked, last_time, failed_exactly}
use tonutils_liteserver_prox.Backend.Sharing.{run_queries, fail_over_never_switches}

abbrev alive : Backend sample
alive = record {
  name = "a";
  client = 0;
  weight = 0;
  fails_streak = 3;
  last_request = 20;
  last_success = 10;
}

abbrev failed : Backend sample
failed = record alive { fails_streak = 11 }

abbrev turning : BackendBalancer sample
turning = record { backends = failed ∷ alive ∷ []; balancer_type = round_robin_type; counter = 4 }

abbrev failing_over : BackendBalancer sample
failing_over = record turning { balancer_type = fail_over_type }

skips_failed : get_client sample failing_over ≡ ok (loop_copy alive) failing_over
unfolding get_client is_failed
skips_failed = refl

takes_turns : get_client sample turning ≡ ok (in_slice 1) (record turning { counter = 5 })
unfolding get_client
takes_turns = refl

get_client-Chooses_example : Returns sample failing_over
get_client-Chooses_example = get_client-Chooses sample failing_over (omega arith) (inl refl)

round_robin_fair_example :
    (k : ℕ) × (k < 2)
    × (b : BackendBalancer sample) × (get_client sample (after_calls sample k turning)
        ≡ ok (in_slice 0) b)
round_robin_fair_example = round_robin_fair sample turning 0 refl (omega arith) (omega arith)

abbrev answered : Event sample
answered = record {
  payload = get_time;
  answer = good (ls_error (record { code = pos 500; text = "" }));
  time = 30;
}

abbrev refused : Event sample
refused = record { payload = get_version; answer = bad (plain "timeout"); time = 40 }

failed_exactly_example :
    is_failed sample (replay sample (answered ∷ refused ∷ []) alive)
    ≡ (ltb 10 (tracked sample (refused ∷ [])) && ltb 5 (last_time sample 30 (refused ∷ []) - 30))
failed_exactly_example =
    failed_exactly sample alive answered (refused ∷ []) refl refl (refl, tt)
      (unfold tracked in omega arith)

abbrev net : Net sample
net = record { balancer = record failing_over { backends = alive ∷ failed ∷ [] }; world = [] }

fail_over_never_switches_example :
    get_client sample (run_queries sample ((7, get_time) ∷ (7, get_version) ∷ []) net).balancer
    ≡ ok (loop_copy alive) net.balancer
unfolding is_failed
fail_over_never_switches_example =
    fail_over_never_switches sample ((7, get_time) ∷ (7, get_version) ∷ []) net alive (failed ∷ [])
      refl refl refl

abbrev configured : BackendLiteserver
configured = record { name = "a"; addr = "5.9.10.47:19949"; key = [] }

abbrev fresh : BackendBalancer sample
fresh = record {
  backends = record alive { fails_streak = 0; last_request = 0; last_success = 0 } ∷ [];
  balancer_type = fail_over_type;
  counter = 0;
}

new_backend_balancer-ready_example :
    (length fresh.backends ≢ 0)
    × (fresh.balancer_type ≡ fail_over_type)
    × (fresh.counter ≡ 0)
    × All (λ x. is_failed sample x ≡ false) fresh.backends
unfolding new_backend_balancer
new_backend_balancer-ready_example =
    new_backend_balancer-ready sample (configured ∷ []) fail_over_type [] [] fresh refl
