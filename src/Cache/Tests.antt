-- ===== src/Cache/Tests.antt =====
-- The cache at concrete values: one backend, whose answers are a script.
use tonutils_liteserver_prox.Base.{
  ℕ, ◌+◌, ◌≤◌, ◌≡◌, ◌≢◌, ◌↔◌, refl, false, Bytes, Option, none, some, [], ◌∷◌, arith, if◌then◌else◌,
  nat_key, bytes_key,
}
use tonutils_liteserver_prox.Base.Int.{pos, negsuc}
use tonutils_liteserver_prox.Base.Maps.{Map, lookup}
use tonutils_liteserver_prox.Base.Action.{good, ok, err}
use tonutils_liteserver_prox.Base.Hoare.{Post}
use tonutils_liteserver_prox.Ton.{BlockIdExt, block_data, ls_error, library_result}
use tonutils_liteserver_prox.Ton.Sample.{
  sample, unbounded, sample-TonLaws, unbounded-ArcLaws, World,
}
use tonutils_liteserver_prox.Backend.{Net, round_robin_type}
use tonutils_liteserver_prox.Cache.ShardKey.{
  get_shard_key, sprint, decimal, digits, get_shard_key-injective,
}
use tonutils_liteserver_prox.Cache.State.{State, ShardInfo, ShardBlock, CacheConfig, masterchain}
use tonutils_liteserver_prox.Cache.Master.{get_master_block, refusal}
use tonutils_liteserver_prox.Cache.Master.Publish.{publish}
use tonutils_liteserver_prox.Cache.Master.Cleanup.{Cleaned, publish-Cleaned}
use tonutils_liteserver_prox.Cache.Master.Invariant.{IsValid, Answers, get_master_block-IsValid}
use tonutils_liteserver_prox.Cache.Master.Window.{refusal_exact, refusal_young}
use tonutils_liteserver_prox.Cache.Shard.{cache_block_if_needed, need_master, need_shard}
use tonutils_liteserver_prox.Cache.Shard.Entry.{HasEntry, Filled}
use tonutils_liteserver_prox.Cache.Shard.Masterchain.{cache_never_fetches_master, too_old}
use tonutils_liteserver_prox.Cache.Shard.Poison.{Bears, first_id_kept, wrong_id_poisons, wrong_id}
use tonutils_liteserver_prox.Cache.Libraries.{get_libraries}
use tonutils_liteserver_prox.Cache.Libraries.Cold.{cold_libraries_empty}
use tonutils_liteserver_prox.Cache.Libraries.Genuine.{IsGenuine, Given, get_libraries-Given}

abbrev S : Type 0
S = State sample unbounded

abbrev master : ℕ → BlockIdExt
master n = record {
  workchain = masterchain;
  shard = pos 8;
  seqno = n;
  root_hash = n ∷ [];
  file_hash = [];
}

abbrev shard : ℕ → Bytes → BlockIdExt
shard n h = record { workchain = pos 0; shard = pos 8; seqno = n; root_hash = h; file_hash = [] }

abbrev config : CacheConfig
config = record {
  disable_get_methods_emulation = false;
  max_cached_accounts_per_block = 0;
  max_cached_libraries = 10;
  max_master_block_seqno_diff_to_cache = 60;
  max_shard_block_seqno_diff_to_cache = 60;
}

abbrev net : World → Net sample
net w = record {
  balancer = record {
    backends =
        record {
          name = "a";
          client = 0;
          weight = 0;
          fails_streak = 0;
          last_request = 0;
          last_success = 0;
        }
        ∷ [];
    balancer_type = round_robin_type;
    counter = 0;
  };
  world = w;
}

abbrev start : Option BlockIdExt → Map ℕ (ShardBlock sample unbounded) → World → S
start last blocks w = record {
  net = net w;
  config = config;
  libs_cache = some [];
  last_block = last;
  zero_state = none;
  master_blocks = [];
  shard_blocks =
      (
        get_shard_key (pos 0) (pos 8),
        record { shard_blocks = blocks; last_block = shard 100 (7 ∷ []); updated_at = 0 },
      )
      ∷ [];
  account_caches = [];
  broadcasts = 0;
}

start-IsValid : (w : World) → IsValid sample unbounded 0 (start (some (master 100)) [] w)
start-IsValid w = record { reached = omega arith; entries = tt }

get_master_block-IsValid_example :
    Post (Answers sample unbounded 0 (master 101)) (IsValid sample unbounded 0) (
      get_master_block sample unbounded 8
        (master 101)
        (start (some (master 100)) [] (good (block_data (master 101) 101) ∷ [])))
get_master_block-IsValid_example =
    get_master_block-IsValid sample unbounded 0 sample-TonLaws 8 (master 101) _ (start-IsValid _)

refusal_exact_example :
    (refusal sample unbounded (master 40) (start (some (master 100)) [] []) ≡ none)
    ↔ ((masterchain ≡ masterchain) × (100 ≤ 40 + 60) × (40 ≤ 100 + 200))
refusal_exact_example =
    refusal_exact sample unbounded (master 40) (master 100) (start (some (master 100)) [] []) refl
      (omega arith) (omega arith) (omega arith)

refusal_young_example :
    refusal sample unbounded (master 5) (start (some (master 5)) [] []) ≡ some too_old
refusal_young_example =
    refusal_young sample unbounded (master 5) (master 5) (start (some (master 5)) [] []) refl
      (omega arith) (omega arith) (omega arith) refl (omega arith)

cache_never_fetches_master_example :
    cache_block_if_needed sample unbounded 7 (master 99) (start (some (master 100)) [] []) ≡ (
      if need_master sample unbounded (master 99) (start (some (master 100)) [] [])
      then err too_old (start (some (master 100)) [] [])
      else ok (none, false) (start (some (master 100)) [] []))
unfolding lookup
cache_never_fetches_master_example =
    cache_never_fetches_master sample unbounded 7 (master 99) (master 100)
      (start (some (master 100)) [] []) refl (omega arith) refl refl

abbrev info : Map ℕ (ShardBlock sample unbounded) → ShardInfo sample unbounded
info blocks = record { shard_blocks = blocks; last_block = shard 100 (7 ∷ []); updated_at = 0 }

-- a request for block 101 with the root hash 9, which the backend does not know
abbrev bad_first : S
bad_first = start none [] (good (ls_error (record { code = pos 651; text = "not found" })) ∷ [])

basechain_differs : pos 0 ≢ masterchain
basechain_differs e = cc

first_id_kept_example :
    Post
      (λ r s.
        Filled sample unbounded (shard 101 (9 ∷ [])) (shard 101 (9 ∷ [])) r s
        × Bears sample unbounded (shard 101 (9 ∷ [])) (shard 101 (9 ∷ [])) s)
      (Bears sample unbounded (shard 101 (9 ∷ [])) (shard 101 (9 ∷ [])))
      (cache_block_if_needed sample unbounded 7 (shard 101 (9 ∷ [])) bad_first)
unfolding lookup get_shard_key need_shard sprint decimal digits
first_id_kept_example =
    first_id_kept sample unbounded (shard 101 (9 ∷ [])) basechain_differs 7 bad_first (info []) refl
      refl refl

-- The entry for block 101 has the root hash 9 and no data; the backend has the block.
abbrev misnamed : S
misnamed =
    start none ((101, record { id = shard 101 (9 ∷ []); body = none }) ∷ [])
      (good (block_data (shard 101 (101 ∷ [])) 101) ∷ [])

wrong_id_poisons_example :
    Post
      (λ r s.
        Filled sample unbounded (shard 101 (101 ∷ [])) (shard 101 (9 ∷ [])) r s
        × ((later : ℕ)
            → cache_block_if_needed sample unbounded later (shard 101 (101 ∷ [])) s
              ≡ err wrong_id s))
      (HasEntry sample unbounded
        (shard 101 (101 ∷ []))
        (record { id = shard 101 (9 ∷ []); body = none }))
      (cache_block_if_needed sample unbounded 7 (shard 101 (101 ∷ [])) misnamed)
unfolding lookup get_shard_key need_shard sprint decimal digits
wrong_id_poisons_example =
    wrong_id_poisons sample unbounded (shard 101 (101 ∷ [])) basechain_differs sample-TonLaws 7
      (shard 101 (9 ∷ [])) misnamed
      (info ((101, record { id = shard 101 (9 ∷ []); body = none }) ∷ [])) (λ e. ground arith) refl
      refl refl

-- The answer holds the library 5 and one that nobody asked for.
abbrev library_answer : World
library_answer = good (library_result ((5 ∷ [], 5) ∷ (6 ∷ [], 7) ∷ [])) ∷ []

get_libraries-Given_example :
    Post
      (Given sample unbounded unbounded-ArcLaws sample-TonLaws)
      (IsGenuine sample unbounded unbounded-ArcLaws sample-TonLaws)
      (get_libraries sample unbounded 7
        ((5 ∷ []) ∷ (4 ∷ []) ∷ [])
        (record (start none [] library_answer) { libs_cache = some ((4 ∷ [], 4) ∷ []) }))
unfolding unbounded-ArcLaws
get_libraries-Given_example =
    get_libraries-Given sample unbounded unbounded-ArcLaws sample-TonLaws 7
      ((5 ∷ []) ∷ (4 ∷ []) ∷ []) _ (record { cached = (refl, tt) })

cold_libraries_empty_example :
    Post
      (λ r _. r ≡ ([], false))
      (λ _. Unit {0})
      (get_libraries sample unbounded 7 ((5 ∷ []) ∷ []) (start none [] library_answer))
unfolding unbounded-ArcLaws
cold_libraries_empty_example =
    cold_libraries_empty sample unbounded unbounded-ArcLaws 7 (5 ∷ []) []
      (start none [] library_answer) ([], refl, tt)

get_shard_key-injective_example : (negsuc 0 ≡ negsuc 0) × (pos 8 ≡ pos 8)
get_shard_key-injective_example = get_shard_key-injective (negsuc 0) (negsuc 0) (pos 8) (pos 8) refl

-- the last block is 100, and block 40 is asked for, but not fetched
abbrev waiting : S
waiting = record (start (some (master 100)) [] []) { master_blocks = (40, none) ∷ [] }

publish-Cleaned_example :
    Post
      (λ _ s. Cleaned sample unbounded (master 101) waiting s)
      (λ _. ⊥)
      (publish sample unbounded (master 101) (shard 5 (5 ∷ []) ∷ []) waiting)
publish-Cleaned_example =
    publish-Cleaned sample unbounded (master 101) (shard 5 (5 ∷ []) ∷ []) waiting (omega arith)
