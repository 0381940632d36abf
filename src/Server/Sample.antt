-- ===== src/Server/Sample.antt =====
-- A server over a concrete block cache, for the examples.
use tonutils_liteserver_prox.Base.{zero, suc, ℕ, Bytes, none, some, [], ◌∷◌, false}
use tonutils_liteserver_prox.Base.Int.{ℤ, pos}
use tonutils_liteserver_prox.Base.Action.{ok}
use tonutils_liteserver_prox.Ton.{BlockIdExt}
use tonutils_liteserver_prox.Ton.Sample.{sample, unbounded, World}
use tonutils_liteserver_prox.Backend.{Net, round_robin_type}
use tonutils_liteserver_prox.Cache.State.{State, CacheConfig, masterchain}
use tonutils_liteserver_prox.Server.Limits.{Limiters}
use tonutils_liteserver_prox.Server.Services.{WaitMasterBlock}

abbrev pub block_101 : BlockIdExt
block_101 = record {
  workchain = masterchain;
  shard = pos 8;
  seqno = 101;
  root_hash = 101 ∷ [];
  file_hash = [];
}

abbrev pub config : CacheConfig
config = record {
  disable_get_methods_emulation = false;
  max_cached_accounts_per_block = 0;
  max_cached_libraries = 10;
  max_master_block_seqno_diff_to_cache = 60;
  max_shard_block_seqno_diff_to_cache = 60;
}

abbrev pub net : World → Net sample
net w = record {
  balancer = record {
    backends =
        record {
          name = "a";
          client = 0;
          weight = 0;
          fails_streak = 0;
          last_request = 0;
          last_success = 0;
        }
        ∷ [];
    balancer_type = round_robin_type;
    counter = 0;
  };
  world = w;
}

-- nobody waits, and nobody draws random bytes
abbrev pub no_wait : WaitMasterBlock sample unbounded
no_wait ctx seqno timeout s = ok tt s

abbrev pub no_bytes : ℕ → State sample unbounded → Bytes
no_bytes n s = []

-- The cache holds the library 4, and the last block is known, but not fetched.
abbrev pub start : World → State sample unbounded
start w = record {
  net = net w;
  config = config;
  libs_cache = some ((4 ∷ [], 4) ∷ []);
  last_block = some block_101;
  zero_state = none;
  master_blocks = [];
  shard_blocks = [];
  account_caches = [];
  broadcasts = 0;
}

-- A limiter holds how many requests it still lets in.
abbrev let_in : ℕ → ℤ × ℕ
let_in zero = (pos 0, 0)
let_in (suc n) = (pos 1, n)

abbrev pub counters : Limiters
counters = record {
  Rate = ℕ;
  Bucket = ℕ;
  Collector = ℕ;
  new_bucket = λ rate capacity. 1;
  new_collector = λ rate capacity b. 1;
  bucket_add = λ now n b. let_in b;
  collector_add = λ now ip n c. let_in c;
}
