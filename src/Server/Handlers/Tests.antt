-- ===== src/Server/Handlers/Tests.antt =====
-- The handlers at concrete answers of the liteservers.
use tonutils_liteserver_prox.Server.Sample.{block_101, no_wait, no_bytes, start}
use tonutils_liteserver_prox.Base.{refl, [], ◌∷◌, arith}
use tonutils_liteserver_prox.Base.Action.{good}
use tonutils_liteserver_prox.Base.Hoare.{Post}
use tonutils_liteserver_prox.Ton.{library_result, block_data}
use tonutils_liteserver_prox.Ton.Sample.{sample, unbounded, sample-TonLaws, unbounded-ArcLaws}
use tonutils_liteserver_prox.Cache.Master.{last_seqno}
use tonutils_liteserver_prox.Cache.Master.Invariant.{IsValid}
use tonutils_liteserver_prox.Cache.Libraries.Genuine.{IsGenuine}
use tonutils_liteserver_prox.Server.Services.{services}
use tonutils_liteserver_prox.Server.Handlers.{handle_get_libraries, handle_get_masterchain_info}
use tonutils_liteserver_prox.Server.Handlers.Replies.{
  SendsGenuine, Names, handle_get_libraries-SendsGenuine, handle_get_masterchain_info-Names,
}

handle_get_libraries-SendsGenuine_example :
    Post
      (λ r _. SendsGenuine sample unbounded no_wait no_bytes r)
      (IsGenuine sample unbounded unbounded-ArcLaws sample-TonLaws)
      (handle_get_libraries sample unbounded
        (services sample unbounded no_wait no_bytes)
        7
        ((5 ∷ []) ∷ (4 ∷ []) ∷ [])
        (start (good (library_result ((5 ∷ [], 5) ∷ [])) ∷ [])))
unfolding unbounded-ArcLaws
handle_get_libraries-SendsGenuine_example =
    handle_get_libraries-SendsGenuine sample unbounded no_wait no_bytes unbounded-ArcLaws
      sample-TonLaws 7 ((5 ∷ []) ∷ (4 ∷ []) ∷ [])
      (start (good (library_result ((5 ∷ [], 5) ∷ [])) ∷ [])) (record { cached = (refl, tt) })

handle_get_masterchain_info-Names_example :
    Post
      (λ r s. Names sample unbounded no_wait no_bytes block_101 r × IsValid sample unbounded 101 s)
      (IsValid sample unbounded 101)
      (handle_get_masterchain_info sample unbounded
        (services sample unbounded no_wait no_bytes)
        7
        (start (good (block_data block_101 101) ∷ [])))
unfolding last_seqno
handle_get_masterchain_info-Names_example =
    handle_get_masterchain_info-Names sample unbounded no_wait no_bytes sample-TonLaws 101 7
      block_101 (start (good (block_data block_101 101) ∷ []))
      (record { reached = omega arith; entries = tt }) refl
