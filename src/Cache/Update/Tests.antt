-- ===== src/Cache/Update/Tests.antt =====
-- The update loop at concrete answers of the liteservers.
use tonutils_liteserver_prox.Base.{◌≡◌, refl, none, [], ◌∷◌, arith, false}
use tonutils_liteserver_prox.Base.Int.{pos}
use tonutils_liteserver_prox.Base.Action.{good, ok}
use tonutils_liteserver_prox.Base.Hoare.{Post}
use tonutils_liteserver_prox.Ton.{BlockIdExt, ZeroStateIdExt, masterchain_info, block_data}
use tonutils_liteserver_prox.Ton.Sample.{sample, unbounded, sample-TonLaws}
use tonutils_liteserver_prox.Backend.{Net, round_robin_type}
use tonutils_liteserver_prox.Cache.State.{CacheConfig, masterchain}
use tonutils_liteserver_prox.Cache.Master.Invariant.{IsValid}
use tonutils_liteserver_prox.Cache.Update.{first_loop, new_state, new_block_cache, update_loop}
use tonutils_liteserver_prox.Cache.Update.Follows.{Follows, update_loop-Follows}

abbrev block_101 : BlockIdExt
block_101 = record {
  workchain = masterchain;
  shard = pos 8;
  seqno = 101;
  root_hash = 101 ∷ [];
  file_hash = [];
}

abbrev zero_state : ZeroStateIdExt
zero_state = record { workchain = masterchain; root_hash = []; file_hash = [] }

abbrev config : CacheConfig
config = record {
  disable_get_methods_emulation = false;
  max_cached_accounts_per_block = 0;
  max_cached_libraries = 0;
  max_master_block_seqno_diff_to_cache = 60;
  max_shard_block_seqno_diff_to_cache = 60;
}

-- The liteserver names the block 101, and gives it.
abbrev net : Net sample
net = record {
  balancer = record {
    backends =
        record {
          name = "a";
          client = 0;
          weight = 0;
          fails_streak = 0;
          last_request = 0;
          last_success = 0;
        }
        ∷ [];
    balancer_type = round_robin_type;
    counter = 0;
  };
  world =
      good (masterchain_info (record { last = block_101; state_root_hash = []; init = zero_state }))
      ∷ good (block_data block_101 101)
      ∷ [];
}

starts_empty :
    new_block_cache sample unbounded config net
    ≡ ok (new_state sample unbounded config none net) net
unfolding new_block_cache
starts_empty = refl

update_loop-Follows_example :
    Post
      (λ l s. IsValid sample unbounded 0 s × Follows sample unbounded l s)
      (IsValid sample unbounded 0)
      (update_loop sample unbounded 2 first_loop (new_state sample unbounded config none net))
update_loop-Follows_example =
    update_loop-Follows sample unbounded sample-TonLaws 0 2 first_loop
      (new_state sample unbounded config none net) (record { reached = omega arith; entries = tt })
      (omega arith)
