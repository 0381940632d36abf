-- ===== src/Config.antt =====
-- config/config.go: the configuration, read from a file that the first start writes. The file system,
-- JSON and the generation of keys are the record `Host`.
pub mod Reload
mod Tests
use tonutils_liteserver_prox.Base.{ℕ, String, Bytes, Bool, false, List, [], ◌∷◌}
use tonutils_liteserver_prox.Base.Int.{ℤ, pos}
use tonutils_liteserver_prox.Base.Action.{
  Error, Fallible, Action, ok, err, wrapped, wrap, wrapping, lift, pure, ◌>>=◌, ◌>>◌,
}
use tonutils_liteserver_prox.Backend.{BackendLiteserver}
use tonutils_liteserver_prox.Cache.State.{CacheConfig}

pub record ClientConfig (Rate : Type 0) : Type 0 where
  pub name : String
  pub private_key : Bytes
  pub capacity_per_ip : ℤ  -- int64
  pub capacity_per_key : ℤ  -- int64
  pub cooling_per_sec : Rate

pub record Config (Rate : Type 0) : Type 0 where
  pub listen_addr : String
  pub metrics_addr : String
  pub metrics_namespace : String
  pub disable_emulation_and_cache : Bool
  pub cache_config : CacheConfig
  pub clients : List (ClientConfig Rate)
  pub backends : List BackendLiteserver
  pub max_connections_per_ip : ℕ  -- uint32
  pub max_keep_alive_seconds : ℕ  -- uint32
  pub response_general_cache_size : ℕ  -- uint32
  pub balancer_type : String

-- what `os.Stat` says: `missing` is an `os.ErrNotExist`
pub data Stat : Type 0 where
  found : Stat
  missing : Stat
  failed : Error → Stat

pub record Host : Type 1 where
  -- float64, and its value for a small number
  pub Rate : Type 0
  pub rate : ℕ → Rate
  pub Disk : Type 0
  -- `filepath.Abs` and `filepath.Dir`
  pub abs : String → Fallible String
  pub dir : String → String
  pub stat : String → Disk → Stat
  pub mkdir_all : String → Action Disk (Unit {0})
  pub read_file : String → Action Disk Bytes
  pub write_file : String → Bytes → Action Disk (Unit {0})
  -- the seed of `ed25519.GenerateKey`
  pub generate_seed : Action Disk Bytes
  -- `json.MarshalIndent` and `json.Unmarshal`
  pub marshal : Config Rate → Fallible Bytes
  pub unmarshal : Bytes → Fallible (Config Rate)

-- `exampleKey`
abbrev pub example_key : Bytes
example_key =
    159 ∷ 133 ∷ 67 ∷ 157 ∷ 32 ∷ 148 ∷ 185 ∷ 42 ∷ 99 ∷ 156 ∷ 44 ∷ 148 ∷ 147 ∷ 215 ∷ 183 ∷ 64 ∷ 227
    ∷ 157 ∷ 234 ∷ 141 ∷ 8 ∷ 181 ∷ 37 ∷ 152 ∷ 109 ∷ 57 ∷ 214 ∷ 221 ∷ 105 ∷ 231 ∷ 243 ∷ 9 ∷ []

module _ (h : Host) where
  open h use {Rate, Disk}

  -- the configuration of a first start, with the seed of its key
  abbrev pub default_config : Bytes → Config Rate
  default_config seed = record {
    listen_addr = "0.0.0.0:7445";
    metrics_addr = "0.0.0.0:8058";
    metrics_namespace = "basic";
    disable_emulation_and_cache = false;
    cache_config = record {
      disable_get_methods_emulation = false;
      max_cached_accounts_per_block = 128;
      max_cached_libraries = 8192;
      max_master_block_seqno_diff_to_cache = 60;
      max_shard_block_seqno_diff_to_cache = 60;
    };
    clients =
        record {
          name = "default";
          private_key = seed;
          capacity_per_ip = pos 100;
          capacity_per_key = pos 0;
          cooling_per_sec = h.rate 20;
        }
        ∷ [];
    backends = record { name = ""; addr = "5.9.10.47:19949"; key = example_key } ∷ [];
    max_connections_per_ip = 20;
    max_keep_alive_seconds = 60;
    response_general_cache_size = 2048;
    balancer_type = "fail_over";
  }

  unfoldable pub save_config : Config Rate → String → Action Disk (Unit {0})
  save_config cfg path = do text ← lift (h.marshal cfg); h.write_file path text

  -- the test of the directory, which is made if it is missing
  unfoldable pub check_dir : String → Action Disk (Unit {0})
  check_dir path d = elim (h.stat (h.dir path) d) [
    | found ↦ ok tt d
    | missing ↦ wrapping "failed to check directory" (h.mkdir_all (h.dir path)) d
    | failed e ↦ err (wrapped "failed to check directory" e) d
  ]

  -- the branch without a file
  unfoldable pub create_config : String → Action Disk (Config Rate)
  unfolding save_config
  create_config path = do
    seed ← h.generate_seed
    wrapping "failed to save config" (save_config (default_config seed) path)
    pure (default_config seed)

  -- the branch with a file
  unfoldable pub read_config : String → Action Disk (Config Rate)
  read_config path = do
    text ← wrapping "failed to read config" (h.read_file path)
    lift (wrap "failed to parse config" (h.unmarshal text))

  -- `LoadConfig` at an absolute path, after the test of the directory
  unfoldable pub load_at : String → Action Disk (Config Rate)
  unfolding create_config read_config
  load_at path d = elim (h.stat path d) [
    | found ↦ read_config path d
    | missing ↦ create_config path d
    | failed e ↦ err e d
  ]

  unfoldable pub load_config : String → Action Disk (Config Rate)
  unfolding check_dir load_at
  load_config path = do path' ← lift (h.abs path); check_dir path'; load_at path'
