-- ===== src/Config/Reload.antt =====
-- A start and the next one (config.go, `LoadConfig`).
use tonutils_liteserver_prox.Base.{String, Bytes, ◌≡◌, refl, subst, sym, ◌∙◌, ap}
use tonutils_liteserver_prox.Base.Action.{
  good, Result, ok, err, wrapping, wrapped, panic, Fallible, ◌>>=◌, wrap, bad,
}
use tonutils_liteserver_prox.Base.Hoare.{
  Post, returns, fails, panics, bind-Post, lift-Post, wrapping-Post, Post-imp, any-Post, pure-Post,
}
use tonutils_liteserver_prox.Config.{
  Config, Stat, found, missing, failed, Host, default_config, save_config, check_dir, load_at,
  create_config, read_config, load_config,
}

-- The documented behaviour: a directory that was made and a file that was written are found, with
-- its directory and its content; reading changes nothing; JSON text of a first configuration reads as
-- that configuration.
pub record HostLaws (h : Host) : Type 0 where
  pub made :
      (path : String) (d d' : h.Disk) → h.mkdir_all path d ≡ ok tt d' → h.stat path d' ≡ found
  pub written :
      (path : String) (text : Bytes) (d d' : h.Disk)
      → h.write_file path text d ≡ ok tt d'
      → (h.stat (h.dir path) d' ≡ found)
        × (h.stat path d' ≡ found)
        × (h.read_file path d' ≡ ok text d')
  pub read_same :
      (path : String) (text : Bytes) (d d' : h.Disk) → h.read_file path d ≡ ok text d' → d' ≡ d
  pub parsed :
      (seed text : Bytes)
      → h.marshal (default_config h seed) ≡ good text
      → h.unmarshal text ≡ good (default_config h seed)

module _ (h : Host) (laws : HostLaws h) where
  -- A file with the configuration is at the path.
  record Holds (path : String) (cfg : Config h.Rate) (d : h.Disk) : Type 0 where
    folder : h.stat (h.dir path) d ≡ found
    file : h.stat path d ≡ found
    text : Bytes
    content : h.read_file path d ≡ ok text d
    means : h.unmarshal text ≡ good cfg

  -- what is known of an action from the equation of its run
  ran : {A : Type 0} (r : Result h.Disk A) → Post (λ x d'. r ≡ ok x d') (λ _. Unit {0}) r
  ran (ok x d) = returns refl
  ran (err e d) = fails tt
  ran (panic m d) = panics tt

  check_dir-Post :
      (path : String) (d : h.Disk)
      → Post (λ _ d'. h.stat (h.dir path) d' ≡ found) (λ _. Unit {0}) (check_dir h path d)
  unfolding check_dir
  check_dir-Post path d = of_stat (h.stat (h.dir path) d) refl
    where
      of_stat :
          (s : Stat)
          → h.stat (h.dir path) d ≡ s
          → Post {A = Unit {0}}
              (λ _ d'. h.stat (h.dir path) d' ≡ found)
              (λ _. Unit {0})
              (elim s [
                | found ↦ ok tt d
                | missing ↦ wrapping "failed to check directory" (h.mkdir_all (h.dir path)) d
                | failed e ↦ err (wrapped "failed to check directory" e) d
              ])
      of_stat found e = returns e
      of_stat missing e = wrapping-Post _ _ d (
          Post-imp (λ _ d' r. laws.made (h.dir path) d d' r) (λ _ x. x)
            (ran (h.mkdir_all (h.dir path) d)))
      of_stat (failed x) e = fails tt

  save_config-Holds :
      (path : String) (seed : Bytes) (d : h.Disk)
      → Post
          (λ _ d'. Holds path (default_config h seed) d')
          (λ _. Unit {0})
          (save_config h (default_config h seed) path d)
  unfolding save_config
  save_config-Holds path seed d =
      bind-Post _ _ d
        (lift-Post (λ text d'. h.marshal (default_config h seed) ≡ good text) _ _ d (λ _ e. e) tt)
        λ text d₁ e.
          Post-imp
            (λ _ d' r.
              let (folder, file, content) = laws.written path text d₁ d' r in
              record {
                folder = folder;
                file = file;
                text = text;
                content = content;
                means = laws.parsed seed text e;
              })
            (λ _ x. x) (ran (h.write_file path text d₁))

  create_config-Holds :
      (path : String) (d : h.Disk)
      → Post (λ cfg d'. Holds path cfg d') (λ _. Unit {0}) (create_config h path d)
  unfolding create_config
  create_config-Holds path d = bind-Post _ _ d (any-Post (h.generate_seed d)) λ seed d₁ _.
      bind-Post _ _ d₁ (wrapping-Post _ _ d₁ (save_config-Holds path seed d₁))
        λ _ d₂ holds. pure-Post _ d₂ holds

  wrap_good :
      {A : Type 0} (text : String) (x : Fallible A) (y : A) → wrap text x ≡ good y → x ≡ good y
  wrap_good text (good x) y e = e
  wrap_good text (bad x) y e = absurd (cc)

  read_config-Holds :
      (path : String) (d : h.Disk)
      → h.stat (h.dir path) d ≡ found
      → h.stat path d ≡ found
      → Post (λ cfg d'. Holds path cfg d') (λ _. Unit {0}) (read_config h path d)
  unfolding read_config
  read_config-Holds path d folder file =
      bind-Post _ _ d (wrapping-Post _ _ d (ran (h.read_file path d))) λ text d₁ content.
        lift-Post _ _ (wrap "failed to parse config" (h.unmarshal text)) d₁
          (λ cfg parsed.
            let same = laws.read_same path text d d₁ content in
            subst (Holds path cfg) (sym same) (record {
              folder = folder;
              file = file;
              text = text;
              content = content ∙ ap (ok text) same;
              means = wrap_good "failed to parse config" (h.unmarshal text) cfg parsed;
            }))
          tt

  load_at-Holds :
      (path : String) (d : h.Disk)
      → h.stat (h.dir path) d ≡ found
      → Post (λ cfg d'. Holds path cfg d') (λ _. Unit {0}) (load_at h path d)
  unfolding load_at
  load_at-Holds path d folder = of_stat (h.stat path d) refl
    where
      of_stat :
          (s : Stat)
          → h.stat path d ≡ s
          → Post {A = Config h.Rate}
              (λ cfg d'. Holds path cfg d')
              (λ _. Unit {0})
              (elim s [
                | found ↦ read_config h path d
                | missing ↦ create_config h path d
                | failed e ↦ err e d
              ])
      of_stat found e = read_config-Holds path d folder e
      of_stat missing e = create_config-Holds path d
      of_stat (failed x) e = fails tt

  -- the file of the configuration, wherever the path leads
  abbrev Kept : String → Config h.Rate → h.Disk → Type 0
  Kept path cfg d = (p : String) × (h.abs path ≡ good p) × Holds p cfg d

  load_config-Kept :
      (path : String) (d : h.Disk) → Post (Kept path) (λ _. Unit {0}) (load_config h path d)
  unfolding load_config
  load_config-Kept path d =
      bind-Post _ _ d (lift-Post (λ p d'. h.abs path ≡ good p) _ _ d (λ _ e. e) tt) λ p d₁ e.
        bind-Post _ _ d₁ (check_dir-Post p d₁) λ _ d₂ folder.
          Post-imp (λ cfg d' holds. (p, e, holds)) (λ _ x. x) (load_at-Holds p d₂ folder)

  check_dir_again :
      (path : String) (cfg : Config h.Rate) (d : h.Disk)
      → Holds path cfg d
      → check_dir h path d ≡ ok tt d
  unfolding check_dir
  check_dir_again path cfg d holds = rw (check_dir, holds.folder) refl

  read_config_again :
      (path : String) (cfg : Config h.Rate) (d : h.Disk)
      → Holds path cfg d
      → read_config h path d ≡ ok cfg d
  unfolding read_config wrapping ◌>>=◌
  read_config_again path cfg d holds = rw (wrapping, holds.content, holds.means) refl

  load_at_again :
      (path : String) (cfg : Config h.Rate) (d : h.Disk)
      → Holds path cfg d
      → load_at h path d ≡ ok cfg d
  unfolding load_at
  load_at_again path cfg d holds = rw (load_at, holds.file) (read_config_again path cfg d holds)

  load_config_again :
      (path : String) (cfg : Config h.Rate) (d : h.Disk)
      → Kept path cfg d
      → load_config h path d ≡ ok cfg d
  unfolding load_config ◌>>=◌
  load_config_again path cfg d (p, e, holds) =
      rw (e, check_dir_again p cfg d holds, load_at_again p cfg d holds) refl

  returned :
      {A : Type 0} {Q : A → h.Disk → Type 0} {x : A} {d : h.Disk}
      → Post Q (λ _. Unit {0}) (ok x d)
      → Q x d
  returned (returns q) = q

  -- On a host with the documented behaviour: if LoadConfig returns a configuration, it returns the
  -- same one when it is called again, and changes nothing then, whether the file was there at
  -- first or LoadConfig has written it.
  pub load_config-load_config :
      (path : String) (cfg : Config h.Rate) (d d' : h.Disk)
      → load_config h path d ≡ ok cfg d'
      → load_config h path d' ≡ ok cfg d'
  load_config-load_config path cfg d d' e =
      load_config_again path cfg d'
        (returned (subst (Post (Kept path) (λ _. Unit {0})) e (load_config-Kept path d)))
