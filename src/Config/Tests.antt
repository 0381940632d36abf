-- ===== src/Config/Tests.antt =====
-- A host with a single file, for the examples.
use text.Mathlib.Text.{◌==◌ as str_eq}
use tonutils_liteserver_prox.Base.{
  if◌then◌else◌, String, Bool-cases, inl, inr, ℕ, Bytes, ◌≡◌, refl, Option, none, some, List, [],
  ◌∷◌, subst, ap, sym,
}
use tonutils_liteserver_prox.Base.Action.{
  good, bad, plain, ok, err, Action, ◌>>=◌, Result, wrapping, Fallible,
}
use tonutils_liteserver_prox.Config.{
  ClientConfig, Stat, found, missing, Host, default_config, load_config, Config,
}
use tonutils_liteserver_prox.Config.Reload.{HostLaws, load_config-load_config}

abbrev first_key : List (ClientConfig ℕ) → Bytes
first_key [] = []
first_key (c ∷ cs) = c.private_key

abbrev stat_of : Option Bytes → Stat
stat_of none = missing
stat_of (some text) = found

abbrev read : Action (Option Bytes) Bytes
read none = err (plain "no file") none
read (some text) = ok text (some text)

-- The text of a configuration is its first key. All directories are there.
abbrev blank : Host
blank = record {
  Rate = ℕ;
  rate = λ n. n;
  Disk = Option Bytes;
  abs = λ path. good path;
  dir = λ path. "/";
  stat = λ path d. stat_of d;
  mkdir_all = λ path d. err (plain "read-only") d;
  read_file = λ path. read;
  write_file = λ path text d. ok tt (some text);
  generate_seed = ok (1 ∷ []);
  marshal = λ cfg. good (first_key cfg.clients);
  unmarshal = λ text. bad (plain "no text");
}

abbrev host : Host
host = record blank {
  stat = λ path d. if str_eq path "/" then found else stat_of d;
  unmarshal = λ text. good (default_config blank text);
}

stat_written : (path : String) (text : Bytes) → host.stat path (some text) ≡ found
stat_written path text = elim (Bool-cases (str_eq path "/")) [
  | inl root ↦ rw root refl
  | inr other ↦ rw other refl
]

laws : HostLaws host
laws = record {
  made = λ path d d' e. absurd (cc);
  written = written;
  read_same = read_same;
  parsed = λ seed text e. parsed seed text e;
}
  where
    written :
        (path : String) (text : Bytes) (d d' : Option Bytes)
        → ◌≡◌ {A = Result (Option Bytes) (Unit {0})} (ok tt (some text)) (ok tt d')
        → (host.stat "/" d' ≡ found) × (host.stat path d' ≡ found) × (read d' ≡ ok text d')
    written path text d d' e =
        let same : some text ≡ d' = cc in
        subst (λ x. (host.stat "/" x ≡ found) × (host.stat path x ≡ found) × (read x ≡ ok text x))
          same (refl, stat_written path text, refl)

    read_same : (path : String) (text : Bytes) (d d' : Option Bytes) → read d ≡ ok text d' → d' ≡ d
    read_same path text none d' e = absurd (cc)
    read_same path text (some b) d' e = cc

    parsed :
        (seed text : Bytes)
        → ◌≡◌ {A = Fallible Bytes} (good seed) (good text)
        → ◌≡◌ {A = Fallible (Config ℕ)}
            (good (default_config host text))
            (good (default_config host seed))
    parsed seed text e =
        let same : seed ≡ text = cc in ap (λ k. good (default_config host k)) (sym same)

-- a first start
started : load_config host "/config" none ≡ ok (default_config host (1 ∷ [])) (some (1 ∷ []))
unfolding load_config ◌>>=◌ wrapping
started = refl

load_config-load_config_example :
    load_config host "/config" (some (1 ∷ [])) ≡ ok (default_config host (1 ∷ [])) (some (1 ∷ []))
load_config-load_config_example =
    load_config-load_config host laws "/config" (default_config host (1 ∷ [])) none (some (1 ∷ []))
      started
