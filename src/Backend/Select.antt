-- ===== src/Backend/Select.antt =====
-- Which backend `GetClient` chooses.
use text.Mathlib.TextEquality.{eq_iff}
use native.Mathlib.Decide.{dec_lt}
use native.Mathlib.Nat.{mod-lt, mod-eq_of_lt, mod-add-mod, add-mod_right}
use tonutils_liteserver_prox.Base.{
  ℕ, zero, suc, ◌+◌, ◌-◌, ◌%◌, ◌^◌, ◌<◌, ◌≡◌, ◌≢◌, ◌⊎◌, ap, refl, sym, ◌∙◌, subst, true, false,
  Option, none, some, List, [], ◌∷◌, ◌++◌, arith, length, All, Bool-cases, Option-cases, inl, inr,
  string_key,
}
use tonutils_liteserver_prox.Base.Action.{ok, final}
use tonutils_liteserver_prox.Ton.{Ton}
use tonutils_liteserver_prox.Backend.{
  Backend, BackendBalancer, ClientRef, in_slice, loop_copy, fail_over_type, round_robin_type,
  is_failed, first_alive, next_in_turn, get_client, add_uint64,
}

types_differ : ¬ (fail_over_type ≡ round_robin_type)
types_differ e = cc ((eq_iff fail_over_type round_robin_type).1 e)

-- some `k` below `n` brings the counter to `i` modulo `n`
turn_reaching : (counter n i : ℕ) → i < n → (k : ℕ) × (k < n) × ((counter + k + 1) % n ≡ i)
turn_reaching counter n i h = elim (dec_lt i r) [
  | yes before ↦ (
    i + n - r,
    omega arith,
    shift (i + n - r) ∙ rw (gap before, add-mod_right i n) (mod-eq_of_lt h),
  )
  | no after ↦ (i - r, omega arith, shift (i - r) ∙ rw (past after) (mod-eq_of_lt h))
]
  where
    r : ℕ
    r = (counter + 1) % n

    r-lt : r < n
    r-lt = mod-lt (counter + 1) (omega arith)

    shift : (k : ℕ) → (counter + k + 1) % n ≡ (r + k) % n
    shift k = ap (λ (x : ℕ). x % n) (omega arith) ∙ sym (mod-add-mod (counter + 1) n k)

    gap : i < r → r + (i + n - r) ≡ i + n
    gap before = omega (arith, r-lt)

    past : ¬ (i < r) → r + (i - r) ≡ i
    past after = omega arith

module _ (t : Ton) where
  -- what the choice of `first_alive` means, as a list equation
  abbrev pub IsFirstAlive : List (Backend t) → Option (Backend t) → Type 0
  IsFirstAlive bs none = All (λ b. is_failed t b ≡ true) bs
  IsFirstAlive bs (some c) =
      (before after : List (Backend t)) × (bs ≡ before ++ c ∷ after)
      × All (λ b. is_failed t b ≡ true) before
      × (is_failed t c ≡ false)

  IsFirstAlive-skip :
      (b : Backend t) (bs : List (Backend t)) (r : Option (Backend t))
      → is_failed t b ≡ true
      → IsFirstAlive bs r
      → IsFirstAlive (b ∷ bs) r
  IsFirstAlive-skip b bs none h s = (h, s)
  IsFirstAlive-skip b bs (some c) h (before, after, e, failed, alive) =
      (b ∷ before, after, ground arith, (h, failed), alive)

  -- The loop of `GetClient` returns the first backend that does not count as failed, and falls
  -- through exactly when all backends count as failed.
  pub first_alive-IsFirstAlive : (bs : List (Backend t)) → IsFirstAlive bs (first_alive t bs)
  unfolding first_alive
  first_alive-IsFirstAlive [] = tt
  first_alive-IsFirstAlive (b ∷ bs) = elim (Bool-cases (is_failed t b)) [
    | inl h ↦ rw h (IsFirstAlive-skip b bs _ h (first_alive-IsFirstAlive bs))
    | inr h ↦ rw h ([], bs, refl, tt, h)
  ]

  next_in_turn_lem :
      (b : BackendBalancer t)
      → length b.backends ≢ 0
      → next_in_turn t b
        ≡ ok
            (in_slice (add_uint64 b.counter % length b.backends))
            (record b { counter = add_uint64 b.counter })
  unfolding next_in_turn
  next_in_turn_lem b h = ground arith

  get_client-round_robin :
      (b : BackendBalancer t)
      → b.balancer_type ≡ round_robin_type
      → get_client t b ≡ next_in_turn t b
  unfolding get_client
  get_client-round_robin b h = rw (h, get_client) refl

  get_client-fail_over :
      (b : BackendBalancer t)
      → b.balancer_type ≡ fail_over_type
      → get_client t b
        ≡ elim (first_alive t b.backends) [ some c ↦ ok (loop_copy c) b | none ↦ next_in_turn t b ]
  unfolding get_client
  get_client-fail_over b h = rw (h, get_client) refl

  pub get_client-alive :
      (b : BackendBalancer t) (x : Backend t)
      → b.balancer_type ≡ fail_over_type
      → first_alive t b.backends ≡ some x
      → get_client t b ≡ ok (loop_copy x) b
  get_client-alive b x typ e = get_client-fail_over b typ ∙ (rw e refl)

  -- The two ways in which `GetClient` can choose `c`, leaving the balancer as `b'`.
  pub data Chooses (b : BackendBalancer t) (c : ClientRef t) (b' : BackendBalancer t) : Type 0 where
    copied :
        (x : Backend t)
        → b.balancer_type ≡ fail_over_type
        → IsFirstAlive b.backends (some x)
        → c ≡ loop_copy x
        → b' ≡ b
        → Chooses b c b'
    turned :
        (i : ℕ)
        → i ≡ add_uint64 b.counter % length b.backends
        → i < length b.backends
        → c ≡ in_slice i
        → b' ≡ record b { counter = add_uint64 b.counter }
        → (b.balancer_type ≡ fail_over_type → IsFirstAlive b.backends none)
        → Chooses b c b'

  -- what `GetClient` returns on a balancer that has a backend
  abbrev pub Returns : BackendBalancer t → Type 0
  Returns b =
      (c : ClientRef t) × (b' : BackendBalancer t) × (get_client t b ≡ ok c b') × Chooses b c b'

  turned-Returns :
      (b : BackendBalancer t)
      → length b.backends ≢ 0
      → get_client t b ≡ next_in_turn t b
      → (b.balancer_type ≡ fail_over_type → IsFirstAlive b.backends none)
      → Returns b
  turned-Returns b h e failed =
      (_, _, e ∙ next_in_turn_lem b h, turned _ refl (mod-lt _ (omega arith)) refl refl failed)

  fail_over-Returns :
      (b : BackendBalancer t) → length b.backends ≢ 0 → b.balancer_type ≡ fail_over_type → Returns b
  fail_over-Returns b h typ = elim (Option-cases (first_alive t b.backends)) [
    | inl e ↦
        turned-Returns b h (get_client-fail_over b typ ∙ (rw e refl))
          (λ _. subst (IsFirstAlive b.backends) e (first_alive-IsFirstAlive b.backends))
    | inr (x, e) ↦ (
      loop_copy x,
      b,
      get_client-alive b x typ e,
      copied x typ (subst (IsFirstAlive b.backends) e (first_alive-IsFirstAlive b.backends)) refl
          refl,
    )
  ]

  -- With a backend at hand and a known type, `GetClient` never panics. In fail-over mode it
  -- returns a copy of the first backend that does not count as failed and changes nothing; in
  -- round-robin mode, or if all backends count as failed, it advances the counter and returns the
  -- backend at the counter modulo the number of backends, an index in range.
  pub get_client-Chooses :
      (b : BackendBalancer t)
      → length b.backends ≢ 0
      → (b.balancer_type ≡ fail_over_type) ⊎ (b.balancer_type ≡ round_robin_type)
      → Returns b
  get_client-Chooses b h (inl typ) = fail_over-Returns b h typ
  get_client-Chooses b h (inr typ) =
      turned-Returns b h (get_client-round_robin b typ) (λ e. absurd (types_differ (sym e ∙ typ)))

  -- the balancer after `k` calls of `GetClient`
  pub after_calls : ℕ → BackendBalancer t → BackendBalancer t
  after_calls zero b = b
  after_calls (suc k) b = final (get_client t (after_calls k b))

  after_calls-counter :
      (k : ℕ) (b : BackendBalancer t)
      → b.balancer_type ≡ round_robin_type
      → length b.backends ≢ 0
      → b.counter + k < 2 ^ 64
      → after_calls k b ≡ record b { counter = b.counter + k }
  unfolding after_calls
  after_calls-counter zero b typ h small = ground arith
  after_calls-counter (suc k) b typ h small =
      let c : BackendBalancer t = record b { counter = b.counter + k } in
      rw
        (
          after_calls-counter k b typ h (omega arith),
          get_client-round_robin c typ,
          next_in_turn_lem c h,
        )
        (ground arith)

  -- In round-robin mode, while the counter does not wrap, each backend is chosen by one of the
  -- next `len(b.backends)` calls.
  pub round_robin_fair :
      (b : BackendBalancer t) (i : ℕ)
      → b.balancer_type ≡ round_robin_type
      → b.counter + length b.backends < 2 ^ 64
      → i < length b.backends
      → (k : ℕ) × (k < length b.backends)
        × (b' : BackendBalancer t) × (get_client t (after_calls k b) ≡ ok (in_slice i) b')
  round_robin_fair b i typ small h =
      let (k, bound, hits) = turn_reaching b.counter (length b.backends) i h in
      let c : BackendBalancer t = record b { counter = b.counter + k } in
      (
        k,
        bound,
        record c { counter = add_uint64 c.counter },
        rw
            (
              after_calls-counter k b typ (omega arith) (omega arith),
              get_client-round_robin c typ,
              next_in_turn_lem c (omega arith),
            )
            (ap (λ j. ok (in_slice j) (record c { counter = add_uint64 c.counter }))
              (ap (λ (x : ℕ). x % length b.backends) (mod-eq_of_lt (omega arith)) ∙ hits)),
      )
