-- ===== src/Server/Requests/Tests.antt =====
-- Requests to a proxy with a concrete cache, limiters and emulator.
use tonutils_liteserver_prox.Base.{
  bytes_key, ℕ, Bool, true, false, ◌≡◌, refl, none, some, List, [], ◌∷◌, arith, nat_key,
}
use tonutils_liteserver_prox.Base.Maps.{lookup}
use tonutils_liteserver_prox.Base.Action.{ok}
use tonutils_liteserver_prox.Base.Hoare.{Ends, returns}
use tonutils_liteserver_prox.Ton.{current_time, get_time, get_masterchain_inf}
use tonutils_liteserver_prox.Ton.Sample.{
  sample, unbounded, World, sample-TonLaws, unbounded-ArcLaws,
}
use tonutils_liteserver_prox.Emulate.Sample.{sample_tvm}
use tonutils_liteserver_prox.Cache.State.{State}
use tonutils_liteserver_prox.Cache.Master.{last_seqno}
use tonutils_liteserver_prox.Cache.Master.Invariant.{IsValid}
use tonutils_liteserver_prox.Server.Connections.{ServerClient}
use tonutils_liteserver_prox.Server.Sample.{counters, no_wait, no_bytes, start}
use tonutils_liteserver_prox.Server.Services.{Services, services}
use tonutils_liteserver_prox.Server.Services.Contract.{Contract}
use tonutils_liteserver_prox.Server.Services.OverCache.{services-Contract}
use tonutils_liteserver_prox.Server.Requests.{Proxy, lite_server_query, handle_request, tcp_ping}
use tonutils_liteserver_prox.Server.Limits.{KeyConfig}
use tonutils_liteserver_prox.Server.Requests.Frozen.{
  Arrival, answer_all, only_changed, frozen_answers,
}
use tonutils_liteserver_prox.Server.Requests.Limited.{
  Charged, charged, limited_answers, query_is_limited,
}
use tonutils_liteserver_prox.Server.Requests.Answered.{AnswersOnce}
use tonutils_liteserver_prox.Server.Requests.Runs.{Delivery, after_all, after_all-ValidProxy}
use tonutils_liteserver_prox.Server.Requests.OverCache.{ValidProxy, query_gets_one_answer}

abbrev S : Type 0
S = State sample unbounded

abbrev P : Type 0
P = Proxy sample unbounded counters S

abbrev server : Services sample unbounded S
server = services sample unbounded no_wait no_bytes

-- The key 1 with `left` requests left; the proxy only forwards, or also answers by itself.
abbrev limits : ℕ → KeyConfig counters
limits left = record { name = "key"; limiter_per_ip = none; limiter_per_key = some left }

abbrev proxy : Bool → ℕ → World → P
proxy forwards left w = record {
  store = start w;
  configs = (1 ∷ [], limits left) ∷ [];
  connections = record { ips = []; max_connections_per_ip = 0; opened = 0; closed = 0 };
  gp_cache = some [];
  only_proxy = forwards;
}

abbrev client : ServerClient
client = record { ip = "10.0.0.1"; port = 80; handle = 0; server_key = 1 ∷ [] }

-- The key has no request left.
query_is_limited_example :
    (refused : Bool) × (cfg : KeyConfig counters) × Charged counters 0 "10.0.0.1"
      (limits 0)
      refused
      cfg
    × (handle_request sample unbounded counters sample_tvm server 7 client 0
          (lite_server_query (9 ∷ []) get_time)
          (proxy false 0 [])
        ≡ limited_answers sample unbounded counters sample_tvm server 7
            (9 ∷ [])
            get_time
            refused
            (charged sample unbounded counters sample_tvm server client 0 cfg (proxy false 0 [])))
unfolding lookup
query_is_limited_example =
    query_is_limited sample unbounded counters sample_tvm server 7 client 0 (9 ∷ []) get_time
      (limits 0) (proxy false 0 []) refl

-- Backends whose clock shows the number of broadcasts.
abbrev clocks : Services sample unbounded S
clocks = record server { query_liteserver = λ ctx r s. ok (current_time s.broadcasts) s }

-- The clock goes on before the second request.
abbrev later : S → S
later s = record s { broadcasts = 1 }

abbrev again : List (Arrival sample unbounded counters sample_tvm clocks)
again = (later, 7, get_time) ∷ []

frozen_answers_example :
    (p' : P) × (answer_all sample unbounded counters sample_tvm clocks
        ((λ s. s, 7, get_time) ∷ again)
        (proxy true 5 [])
      ≡ ok (some (current_time 0) ∷ some (current_time 0) ∷ []) p')
    × (p'.store ≡ later (start []))
unfolding only_changed lookup
frozen_answers_example =
    frozen_answers sample unbounded counters sample_tvm clocks unbounded-ArcLaws 7 get_time
      (current_time 0) (start []) (proxy true 5 []) [] again refl refl tt refl ((tt, refl), tt)

start-IsValid : (w : World) → IsValid sample unbounded 101 (start w)
unfolding last_seqno
start-IsValid w = record { reached = omega arith; entries = tt }

query_gets_one_answer_example :
    Ends
      (λ ps p'.
        ValidProxy sample unbounded sample-TonLaws 101 counters sample_tvm no_wait no_bytes p'
        × AnswersOnce (9 ∷ []) get_masterchain_inf ps)
      (ValidProxy sample unbounded sample-TonLaws 101 counters sample_tvm no_wait no_bytes)
      (handle_request sample unbounded counters sample_tvm server 7 client 0
        (lite_server_query (9 ∷ []) get_masterchain_inf)
        (proxy false 3 []))
unfolding lookup
query_gets_one_answer_example =
    query_gets_one_answer sample unbounded sample-TonLaws 101 counters sample_tvm no_wait no_bytes 7
      client 0 (9 ∷ []) get_masterchain_inf (limits 3) (proxy false 3 [])
      (λ ctx seqno timeout s h. returns h) refl (start-IsValid [])

services-Contract_example : Contract sample unbounded server (IsValid sample unbounded 101)
services-Contract_example =
    services-Contract sample unbounded sample-TonLaws 101 no_wait no_bytes
      λ ctx seqno timeout s h. returns h

-- a ping of an unknown client, and a query
abbrev two_messages :
    List (Delivery sample unbounded sample-TonLaws 101 counters sample_tvm no_wait no_bytes)
two_messages =
    (7, record client { server_key = [] }, 0, tcp_ping 5)
    ∷ (7, client, 1, lite_server_query (9 ∷ []) get_masterchain_inf)
    ∷ []

after_all-ValidProxy_example :
    ValidProxy sample unbounded sample-TonLaws 101 counters sample_tvm no_wait no_bytes (
      after_all sample unbounded sample-TonLaws 101 counters sample_tvm no_wait no_bytes
        two_messages
        (proxy false 3 []))
after_all-ValidProxy_example =
    after_all-ValidProxy sample unbounded sample-TonLaws 101 counters sample_tvm no_wait no_bytes
      two_messages (proxy false 3 []) (λ ctx seqno timeout s h. returns h) (start-IsValid [])
