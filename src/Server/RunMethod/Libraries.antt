-- ===== src/Server/RunMethod/Libraries.antt =====
-- What `findLibs` finds, by the references of cells.
use mathlib.Core.List.Memᴰ
use tonutils_liteserver_prox.Base.{
  ℕ, zero, suc, ◌<◌, ◌≡◌, refl, sym, ◌↔◌, true, false, Bool-cases, inl, inr, Bytes, List, [], ◌∷◌,
  ◌++◌, Memᴰ, All, arith, ◌&&◌, nat_eq, length, subst,
}
use tonutils_liteserver_prox.Base.Action.{Fallible, good}
use tonutils_liteserver_prox.Ton.{Ton}
use tonutils_liteserver_prox.Emulate.{Tvm, TvmLaws}
use tonutils_liteserver_prox.Server.RunMethod.{
  library_hash, collect_libs, find_libs_step, find_libs_to, find_libs, on_good,
}

module _ (t : Ton) (vm : Tvm t) where
  -- The hash `h` stands in the cell behind eight bits.
  pub record Names (c : t.Cell) (h : Bytes) : Type 0 where
    pub tag : Bytes
    pub behind : t.Slice
    pub rest : t.Slice
    pub tagged : t.load_slice 8 (t.begin_parse c) ≡ good (tag, behind)
    pub hashed : t.load_slice 256 behind ≡ good (h, rest)

  -- The code `c` is, or reaches by its references, a library cell that names `h`. A library cell
  -- with references does not count.
  pub data Uses : t.Cell → Bytes → Type 0 where
    itself :
        {c : t.Cell} {h : Bytes}
        → vm.cell_refs c ≡ []
        → vm.is_library c ≡ true
        → Names c h
        → Uses c h
    through : {c r : t.Cell} {h : Bytes} → Memᴰ r (vm.cell_refs c) → Uses r h → Uses c h

  -- Each library cell is long enough for its hash.
  abbrev pub LibrariesFit : Type 0
  LibrariesFit = (c : t.Cell) → vm.is_library c ≡ true → (h : Bytes) × Names c h

  -- The result lists exactly the hashes with `P`.
  record Lists (P : Bytes → Type 0) (x : Fallible (List Bytes)) : Type 0 where
    hashes : List Bytes
    given : x ≡ good hashes
    exact : (h : Bytes) → Memᴰ h hashes ↔ P h

  library_hash-Names : (c : t.Cell) (h : Bytes) → Names c h → library_hash t vm c ≡ good h
  unfolding library_hash on_good
  library_hash-Names c h n = rw (n.tagged, n.hashed) refl

  Names-unique : (c : t.Cell) (g h : Bytes) → Names c g → Names c h → g ≡ h
  Names-unique c g h m n =
      let one = library_hash-Names c g m in let two = library_hash-Names c h n in cc

  -- `h` is used through one of the cells
  abbrev Among : List t.Cell → Bytes → Type 0
  Among cs h = (r : t.Cell) × Memᴰ r cs × Uses r h

  collect_libs-Lists :
      (find : t.Cell → Fallible (List Bytes)) (cs : List t.Cell)
      → All (λ r. Lists (Uses r) (find r)) cs
      → Lists (Among cs) (collect_libs t vm find cs)
  unfolding collect_libs on_good
  collect_libs-Lists find [] h = record {
    hashes = [];
    given = refl;
    exact = λ h. (λ m. absurd (Memᴰ.not-nil m), λ u. absurd (Memᴰ.not-nil u.1));
  }
  collect_libs-Lists find (c ∷ cs) (here, below) =
      let rest = collect_libs-Lists find cs below in
      record {
        hashes = here.hashes ++ rest.hashes;
        given = rw (here.given, rest.given) refl;
        exact = λ h. (
          λ m. elim (Memᴰ.append_cases here.hashes m) [
            | inl a ↦ (c, Memᴰ.head refl, (here.exact h).0 a)
            | inr b ↦ let (r, k, u) = (rest.exact h).0 b in (r, Memᴰ.tail k, u)
          ],
          λ (r, k, u). elim (Memᴰ.cases_cons k) [
            | inl e ↦ Memᴰ.append_left _ ((here.exact h).1 (subst (λ x. Uses x h) e u))
            | inr k' ↦ Memᴰ.append_right here.hashes ((rest.exact h).1 (r, k', u))
          ],
        );
      }

  empty_of_length : {A : Type 0} (xs : List A) → length xs ≡ 0 → xs ≡ []
  empty_of_length [] e = refl
  empty_of_length (x ∷ xs) e = absurd (omega arith)

  find_libs_step-Lists :
      (fit : LibrariesFit) (find : t.Cell → Fallible (List Bytes)) (c : t.Cell)
      → All (λ r. Lists (Uses r) (find r)) (vm.cell_refs c)
      → Lists (Uses c) (find_libs_step t vm find c)
  unfolding find_libs_step on_good
  find_libs_step-Lists fit find c below =
      elim (Bool-cases (nat_eq (length (vm.cell_refs c)) 0 && vm.is_library c)) [
        | inl leaf ↦ rw leaf (
            let library : vm.is_library c ≡ true = ground arith in
            let alone = empty_of_length (vm.cell_refs c) (ground arith) in
            let (name, names) = fit c library in
            record {
              hashes = name ∷ [];
              given = rw (library_hash-Names c name names) refl;
              exact = λ h. (
                λ m. itself alone library (subst (Names c) (sym (Memᴰ.eq_of_singleton m)) names),
                λ u. Memᴰ.head (only name alone names u),
              );
            })
        | inr node ↦ rw node (
            let all = collect_libs-Lists find (vm.cell_refs c) below in
            record {
              hashes = all.hashes;
              given = all.given;
              exact = λ h. (
                λ m. let (r, k, u) = (all.exact h).0 m in through k u,
                λ u. (all.exact h).1 (inner node u),
              );
            })
      ]
    where
      only : {h : Bytes} (name : Bytes) → vm.cell_refs c ≡ [] → Names c name → Uses c h → h ≡ name
      only name alone names (itself _ _ n) = Names-unique c _ name n names
      only name alone names (through k u) = absurd (Memᴰ.not-nil (subst (Memᴰ _) alone k))

      inner :
          {h : Bytes}
          → (nat_eq (length (vm.cell_refs c)) 0 && vm.is_library c) ≡ false
          → Uses c h
          → Among (vm.cell_refs c) h
      inner node (itself alone library n) = absurd (ground (arith, alone, library))
      inner node (through k u) = (_, k, u)

  module _ (laws : TvmLaws t vm) (fit : LibrariesFit) where
    find_libs_to-Lists :
        (n : ℕ) (c : t.Cell) → vm.depth c < n → Lists (Uses c) (find_libs_to t vm n c)
    unfolding find_libs_to
    find_libs_to-Lists zero c h = absurd (omega arith)
    find_libs_to-Lists (suc n) c h =
        find_libs_step-Lists fit (find_libs_to t vm n) c
          (below (λ r k. find_libs_to-Lists n r k) (vm.cell_refs c) (laws.refs_below c))
      where
        below :
            ((r : t.Cell) → vm.depth r < n → Lists (Uses r) (find_libs_to t vm n r))
            → (cs : List t.Cell) → All (λ r. vm.depth r < vm.depth c) cs
            → All (λ r. Lists (Uses r) (find_libs_to t vm n r)) cs
        below found [] p = tt
        below found (r ∷ rs) p = (found r (omega (arith, p.0, h)), below found rs p.1)

    -- If each cell is deeper than its references, and each library cell is long enough for its
    -- hash, findLibs ends and returns a list of hashes: those, and only those, of the library cells
    -- without references that the code is or reaches by its references, each behind the first
    -- eight bits of its cell.
    pub find_libs_terminates :
        (c : t.Cell)
        → (hashes : List Bytes) × (find_libs t vm c ≡ good hashes)
          × ((h : Bytes) → Memᴰ h hashes ↔ Uses c h)
    unfolding find_libs
    find_libs_terminates c =
        let found = find_libs_to-Lists (suc (vm.depth c)) c (omega arith) in
        (found.hashes, found.given, found.exact)
