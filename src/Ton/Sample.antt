-- ===== src/Ton/Sample.antt =====
-- Concrete libraries for the examples: cells are numbers, a cell's hash is the
-- cell itself, and the world is a script of the answers that the liteservers will give.
use tonutils_liteserver_prox.Base.{
  bytes_key, refl, ℕ, Bool, true, false, ◌&&◌, none, some, List, [], ◌∷◌, ◌≡◌, ◌↔◌, arith, nat_eq,
  bytes_eq, bytes_eq_iff, Bytes, map, All, subst, ◌+◌, String, Eq, ◌∙◌,
}
use tonutils_liteserver_prox.Base.Int.{pos, int_eq, int_eq_iff}
use tonutils_liteserver_prox.Base.Maps.{Map, lookup, insert, All-insert, All-lookup, lookup-insert}
use tonutils_liteserver_prox.Base.Action.{plain, Fallible, good, bad, Error, ls, wrapped}
use tonutils_liteserver_prox.Ton.Wire.{BlockIdExt, Message, Request, other, raw}
use tonutils_liteserver_prox.Ton.Library.{Ton, TonLaws, TlbBlock}
use tonutils_liteserver_prox.Ton.Arc.{ArcCache, ArcLaws}

abbrev pub World : Type 0
World = List (Fallible (Message ℕ))

abbrev pub next_answer : World → Fallible (Message ℕ) × World
next_answer [] = (bad (plain "no answer"), [])
next_answer (a ∷ w) = (a, w)

abbrev pub same_id : BlockIdExt → BlockIdExt → Bool
same_id a b =
    int_eq a.workchain b.workchain
    && int_eq a.shard b.shard
    && nat_eq a.seqno b.seqno
    && bytes_eq a.root_hash b.root_hash
    && bytes_eq a.file_hash b.file_hash

same_id_iff : (a b : BlockIdExt) → (same_id a b ≡ true) ↔ (a ≡ b)
same_id_iff a b = grind (
  arith,
  int_eq_iff a.workchain b.workchain,
  int_eq_iff a.shard b.shard,
  bytes_eq_iff a.root_hash b.root_hash,
  bytes_eq_iff a.file_hash b.file_hash,
)

-- a shard of the basechain, with the cell as its seqno
abbrev shard_of : ℕ → BlockIdExt
shard_of d = record {
  workchain = pos 0;
  shard = pos 8;
  seqno = d;
  root_hash = d ∷ [];
  file_hash = [];
}

-- Each cell parses as a key block of the masterchain; its dictionary is the cell.
abbrev pub block_of : ℕ → TlbBlock ℕ (Map Bytes ℕ)
block_of c = record {
  state_update = c;
  extra = some (record {
    shard_account_blocks = c;
    custom = some (record {
      key_block = true;
      config_params = (c ∷ [], c) ∷ [];
      shard_hashes = (c ∷ [], c) ∷ [];
    });
  });
  not_master = false;
  gen_utime = 1000;
  master_seqno = c;
  master_root_hash = c ∷ [];
  master_file_hash = [];
}

abbrev body_of : Request → Fallible Bytes
body_of (other kind body) = good body
body_of (raw body) = good body
body_of _ = good []

abbrev text_of : Error → String
text_of (ls e) = e.text
text_of (plain text) = text
text_of (wrapped text e) = text

abbrev pub sample : Ton
sample = record {
  Cell = ℕ;
  Dict = Map Bytes ℕ;
  ShardAccounts = ℕ;
  Address = ℕ;
  Pool = ℕ;
  World = World;
  Ctx = ℕ;
  Slice = ℕ;
  background = 0;
  with_timeout = λ n c. n;
  seconds_left = λ c w. some c;
  ctx_err = λ c w. none;
  time_now = λ w. (1000000000000, w);
  connect = λ a k w. (good 0, w);
  query_pool = λ p c r w. next_answer w;
  cell_hash = λ c. c ∷ [];
  id_equals = same_id;
  load_block = λ c. good (block_of c);
  begin_parse = λ c. c;
  load_slice = λ n s. good (s ∷ [], s);
  load_shard_accounts = λ c. good c;
  load_shards = λ d. good (map (λ e. shard_of e.1) d);
  new_dict = λ n. [];
  dict_set = λ h c d. good (insert h c d);
  dict_load_all = λ d. good d;
  header_proof = λ c. good c;
  check_config_proof = λ i c d. good ((c ∷ [], c) ∷ []);
  serialize = body_of;
  address_string = λ a. "address";
  address_workchain = λ a. pos 0;
  address_data = λ a. a ∷ [];
  new_address = λ w id. 5;
  error_text = text_of;
  Skeleton = ℕ;
  ProofPath = ℕ;
  new_skeleton = 0;
  proof_ref = λ p k. (0, k);
  Transactions = ℕ;
  load_account_with_proof = λ d id p k. (good (d, p), k + 1);
  load_transaction_with_proof = λ d lt p k. (good (d, p), k + 1);
  load_currency = λ s. good s;
  load_account_block = λ s. good s;
  create_proof = λ c k. good (c + k);
  load_ref = λ s. good s;
  to_boc = λ c. c ∷ [];
}

-- An insertion leaves the new entry and some of the old ones.
entries :
    (h : Bytes) (c : ℕ) (d d' all : Map Bytes ℕ)
    → ◌≡◌ {A = Fallible (Map Bytes ℕ)} (good (insert h c d)) (good d')
    → ◌≡◌ {A = Fallible (Map Bytes ℕ)} (good d) (good all)
    → (all' : Map Bytes ℕ) × (◌≡◌ {A = Fallible (Map Bytes ℕ)} (good d') (good all'))
      × ((P : Bytes → ℕ → Type 0) → P h c → All (λ e. P e.0 e.1) all → All (λ e. P e.0 e.1) all')
entries h c d d' all set listed =
    (insert h c all, cc, λ P here holds. All-insert (λ e. P e.0 e.1) h c all here holds)

pub sample-TonLaws : TonLaws sample
sample-TonLaws = record {
  equals_iff = same_id_iff;
  new_dict-empty = λ n. refl;
  dict_set-entries = entries;
}

-- An ARC cache that never evicts.
abbrev pub unbounded : ArcCache
unbounded = record {
  Arc = Map;
  new_arc = λ K V n. good [];
  get = λ K V e k m. (lookup ⦃key = e⦄ k m, m);
  add = λ K V e k v m. insert ⦃key = e⦄ k v m;
}

unfoldable pub unbounded-ArcLaws : ArcLaws unbounded
unbounded-ArcLaws = record {
  Every = λ K V P m. All (λ e. P e.0 e.1) m;
  every-new = λ K V P n c h. subst (λ m. All (λ (e : K × V). P e.0 e.1) m) (good_eq K V c h) tt;
  every-hit = λ K V key P k v m h hit. All-lookup ⦃key = key⦄ (λ e. P e.0 e.1) k v m hit h;
  every-get = λ K V key P k m h. h;
  every-add = λ K V key P k v m h here. All-insert ⦃key = key⦄ (λ e. P e.0 e.1) k v m here h;
  get-add = λ K V key k v m. lookup-insert_self K V key k v m;
  get-get = λ K V key k j m. refl;
}
  where
    good_eq :
        (K V : Type 0) (c : Map K V)
        → ◌≡◌ {A = Fallible (Map K V)} (good []) (good c)
        → ◌≡◌ {A = Map K V} [] c
    good_eq K V c h = cc

    lookup-insert_self :
        (K V : Type 0) (key : Eq K) (k : K) (v : V) (m : Map K V)
        → lookup ⦃key = key⦄ k (insert ⦃key = key⦄ k v m) ≡ some v
    lookup-insert_self K V key k v m =
        lookup-insert ⦃key = key⦄ k k v m ∙ (rw ((key.beq_iff k k).1 refl) refl)
