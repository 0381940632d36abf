-- ===== src/Cache/Update/Follows.antt =====
-- The loop of `NewBlockCache` keeps the cache valid and follows the last block.
use tonutils_liteserver_prox.Base.{
  ℕ, zero, suc, ◌+◌, ◌≤◌, ◌≡◌, refl, Option-cases, Bool-cases, inl, inr, arith, nat_eq, ap,
}
use tonutils_liteserver_prox.Base.Action.{Result, ok, err, panic, crash, pure}
use tonutils_liteserver_prox.Base.Hoare.{
  Post, returns, fails, panics, bind-Post, lift-Post, pure-Post, Post-imp,
}
use tonutils_liteserver_prox.Ton.{Ton, TonLaws, ArcCache, ZeroStateIdExt, BlockIdExt}
use tonutils_liteserver_prox.Cache.State.{State, add_uint32}
use tonutils_liteserver_prox.Cache.Frame.{Frame, Frame-refl, Frame-trans, Framed, checked-Framed}
use tonutils_liteserver_prox.Cache.Fetch.{get_masterchain_info, info_of_answer}
use tonutils_liteserver_prox.Cache.Master.{last_seqno}
use tonutils_liteserver_prox.Cache.Master.Invariant.{
  IsValid, Answers, Frame-IsValid, IsValid-same, get_master_block-IsValid,
}
use tonutils_liteserver_prox.Cache.Update.{
  Loop, keep_zero_state, close_fetched, update_round, update_loop,
}

module _ (t : Ton) (a : ArcCache) where
  get_masterchain_info-Framed :
      (ctx : t.Ctx) (seqno : ℕ) → Framed t a (get_masterchain_info t a ctx seqno) (λ _. Unit {0})
  unfolding get_masterchain_info
  get_masterchain_info-Framed ctx seqno s =
      bind-Post _ _ _
        (lift-Post (λ _ s'. Frame t a s s') _ _ s (λ _ _. Frame-refl t a s) (Frame-refl t a s))
        λ prefix s₁ f₁.
          bind-Post _ _ _ (lift-Post (λ _ s'. Frame t a s s') _ _ s₁ (λ _ _. f₁) f₁) λ suffix s₂ f₂.
            Post-imp (λ _ _ p. (tt, Frame-trans t a f₂ p.1)) (λ _ f. Frame-trans t a f₂ f)
              (checked-Framed t a (λ _. Unit {0}) ctx _ (info_of_answer t) (λ m x e. tt) s₂)

  -- The loop waits for a block that is at most the one after the last.
  abbrev pub Follows : Loop → State t a → Type 0
  Follows l s = l.wait_seqno ≤ last_seqno t a s.last_block + 1

  module _ (laws : TonLaws t) where
    keep_zero_state-IsValid :
        (m : ℕ) (init : ZeroStateIdExt) (s : State t a)
        → IsValid t a m s
        → Post (λ _ s'. IsValid t a m s') (IsValid t a m) (keep_zero_state t a init s)
    unfolding keep_zero_state
    keep_zero_state-IsValid m init s v = elim (Option-cases s.zero_state) [
      | inl e ↦ rw (e, keep_zero_state) (returns (IsValid-same t a m refl refl v))
      | inr (z, e) ↦ rw (e, keep_zero_state) (returns v)
    ]

    close_fetched-same :
        (P : State t a → Type 0) (l : Loop) (s : State t a)
        → P s
        → Post (λ _ s'. P s') P (close_fetched t a l s)
    unfolding close_fetched crash pure
    close_fetched-same P l s p = elim (Bool-cases (nat_eq l.wait_seqno 0)) [
      | inl zeroth ↦ elim (Bool-cases l.fetched) [
        | inl again ↦ rw (zeroth, again, close_fetched) (panics p)
        | inr fresh ↦ rw (zeroth, fresh, close_fetched) (returns p)
      ]
      | inr follows ↦ rw (follows, close_fetched) (returns p)
    ]

    bounded :
        (own : BlockIdExt) (n : ℕ) (id : BlockIdExt)
        → id.seqno ≤ n
        → own ≡ id
        → add_uint32 own.seqno 1 ≤ n + 1
    bounded own n id h e = ground (arith, ap (λ (x : BlockIdExt). x.seqno) e)

    update_round-Follows :
        (m : ℕ) (l : Loop) (s : State t a)
        → IsValid t a m s
        → Post (λ l' s'. IsValid t a m s' × Follows l' s') (IsValid t a m) (update_round t a l s)
    unfolding update_round
    update_round-Follows m l s v =
        bind-Post _ _ _
          (Post-imp (λ _ _ p. Frame-IsValid t a m v p.1) (λ _ f. Frame-IsValid t a m v f)
            (get_masterchain_info-Framed _ l.wait_seqno s))
          λ inf s₁ v₁. bind-Post _ _ _ (keep_zero_state-IsValid m inf.init s₁ v₁) λ _ s₂ v₂.
            bind-Post _ _ _ (get_master_block-IsValid t a m laws _ inf.last s₂ v₂) λ r s₃ p.
              bind-Post _ _ _
                (Post-imp (λ _ _ q. q) (λ _ q. q.0)
                  (close_fetched-same (Answers t a m inf.last r) l s₃ p))
                λ closed s₄ q.
                  pure-Post _ s₄
                    (q.0, bounded r.0.block.id (last_seqno t a s₄.last_block) inf.last q.1 q.2)

    raise : (m : ℕ) (s : State t a) → IsValid t a m s → IsValid t a (last_seqno t a s.last_block) s
    raise m s v = record { reached = omega arith; entries = v.entries }

    lower : (m k : ℕ) (s : State t a) → m ≤ k → IsValid t a k s → IsValid t a m s
    lower m k s h v = record { reached = omega (arith, v.reached); entries = v.entries }

    -- With ids compared as documented, and whatever the backends answer, any number of rounds of the
    -- loop keeps a valid cache valid, and the seqno that the loop waits for at most one above the
    -- last one, if both hold at the start.
    pub update_loop-Follows :
        (m n : ℕ) (l : Loop) (s : State t a)
        → IsValid t a m s
        → Follows l s
        → Post (λ l' s'. IsValid t a m s' × Follows l' s') (IsValid t a m) (update_loop t a n l s)
    unfolding update_loop
    update_loop-Follows m zero l s v f = returns (v, f)
    update_loop-Follows m (suc n) l s v f =
        go (λ l' s' v' f'. update_loop-Follows m n l' s' v' f') (update_round t a l s)
          (update_round-Follows (last_seqno t a s.last_block) l s (raise m s v))
      where
        go :
            ((l' : Loop) (s' : State t a)
              → IsValid t a m s'
              → Follows l' s'
              → Post
                  (λ l'' s''. IsValid t a m s'' × Follows l'' s'')
                  (IsValid t a m)
                  (update_loop t a n l' s'))
            → (r : Result (State t a) Loop)
            → Post
                (λ l' s'. IsValid t a (last_seqno t a s.last_block) s' × Follows l' s')
                (IsValid t a (last_seqno t a s.last_block))
                r
            → Post
                (λ l' s'. IsValid t a m s' × Follows l' s')
                (IsValid t a m)
                (elim r [
                  | ok l' s' ↦ update_loop t a n l' s'
                  | err e s' ↦ update_loop t a n l s'
                  | panic x s' ↦ panic x s'
                ])
        go more (ok l' s') (returns (v', f')) = more l' s' (lower m _ s' v.reached v') f'
        go more (err e s') (fails v') =
            more l s' (lower m _ s' v.reached v') (let h = v'.reached in omega (arith, f, h))
        go more (panic x s') (panics v') = panics (lower m _ s' v.reached v')
