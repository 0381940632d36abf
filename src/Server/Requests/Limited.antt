-- ===== src/Server/Requests/Limited.antt =====
-- The limits of a key and of an address, at a query (server.go, `handleRequest`).
use tonutils_liteserver_prox.Base.{
  if◌then◌else◌, bytes_key, ℕ, Bytes, String, Bool, true, false, ◌≡◌, ◌≢◌, refl, Option, none, some,
  List, [], ◌∷◌, Bool-cases, inl, inr, not, ◌==◌,
}
use tonutils_liteserver_prox.Base.Int.{ℤ, pos, int_key, int_eq_iff}
use tonutils_liteserver_prox.Base.Maps.{lookup, insert}
use tonutils_liteserver_prox.Base.Action.{Result, ok, continue}
use tonutils_liteserver_prox.Ton.{Ton, ArcCache, Request}
use tonutils_liteserver_prox.Backend.{unix}
use tonutils_liteserver_prox.Emulate.{Tvm}
use tonutils_liteserver_prox.Server.Connections.{ServerClient, touch}
use tonutils_liteserver_prox.Server.Services.{Services}
use tonutils_liteserver_prox.Server.Limits.{Limiters, KeyConfig, charge_ip, charge_key, charge}
use tonutils_liteserver_prox.Server.Requests.{
  Proxy, Packet, lite_server_query, answer, answer_query, answer_packets, handle_query,
  handle_request, handle_message,
}
use tonutils_liteserver_prox.Server.Dispatch.{error_message}

-- A limiter, asked for 1, lets in something else and goes from `o` to `o'`.
pub data Refuses {L : Type 0} (ask : L → ℤ × L) : Option L → Option L → Type 0 where
  refuses : {x : L} → (ask x).0 ≢ pos 1 → Refuses ask (some x) (some (ask x).1)

-- There is no limiter, or it lets in 1.
pub data Admits {L : Type 0} (ask : L → ℤ × L) : Option L → Option L → Type 0 where
  unlimited : Admits ask none none
  admits : {x : L} → (ask x).0 ≡ pos 1 → Admits ask (some x) (some (ask x).1)

module _ (l : Limiters) where
  abbrev pub ask_ip : ℕ → String → l.Collector → ℤ × l.Collector
  ask_ip now ip = l.collector_add now ip (pos 1)

  abbrev pub ask_key : ℕ → l.Bucket → ℤ × l.Bucket
  ask_key now = l.bucket_add now (pos 1)

  -- Whether a query is refused, and the limits after it: the limiter of the key is asked only
  -- if that of the address lets the query in.
  pub data Charged (now : ℕ) (ip : String) (cfg : KeyConfig l) : Bool → KeyConfig l → Type 0 where
    by_address :
        {c : Option l.Collector}
        → Refuses (ask_ip now ip) cfg.limiter_per_ip c
        → Charged now ip cfg true (record cfg { limiter_per_ip = c })
    by_key :
        {c : Option l.Collector} {b : Option l.Bucket}
        → Admits (ask_ip now ip) cfg.limiter_per_ip c
        → Refuses (ask_key now) cfg.limiter_per_key b
        → Charged now ip cfg true (record cfg { limiter_per_ip = c; limiter_per_key = b })
    let_in :
        {c : Option l.Collector} {b : Option l.Bucket}
        → Admits (ask_ip now ip) cfg.limiter_per_ip c
        → Admits (ask_key now) cfg.limiter_per_key b
        → Charged now ip cfg false (record cfg { limiter_per_ip = c; limiter_per_key = b })

  -- what a limiter says, as a flag
  data Asked {L : Type 0} (ask : L → ℤ × L) (o : Option L) : Bool → Option L → Type 0 where
    over : {o' : Option L} → Refuses ask o o' → Asked ask o true o'
    under : {o' : Option L} → Admits ask o o' → Asked ask o false o'

  ask-Asked :
      {L : Type 0} (ask : L → ℤ × L) (x : L)
      → Asked ask (some x) (not ((ask x).0 == pos 1)) (some (ask x).1)
  ask-Asked ask x = elim (Bool-cases ((ask x).0 == pos 1)) [
    | inl one ↦ rw one (under (admits ((int_eq_iff (ask x).0 (pos 1)).0 one)))
    | inr less ↦ rw less (over (refuses (λ e. let one = (int_eq_iff (ask x).0 (pos 1)).1 e in cc)))
  ]

  charge_ip-Asked :
      (now : ℕ) (ip : String) (o : Option l.Collector)
      → Asked (ask_ip now ip) o (charge_ip l now ip o).0 (charge_ip l now ip o).1
  unfolding charge_ip
  charge_ip-Asked now ip none = under unlimited
  charge_ip-Asked now ip (some x) = ask-Asked (ask_ip now ip) x

  charge_key-Asked :
      (now : ℕ) (o : Option l.Bucket)
      → Asked (ask_key now) o (charge_key l now o).0 (charge_key l now o).1
  unfolding charge_key
  charge_key-Asked now none = under unlimited
  charge_key-Asked now (some x) = ask-Asked (ask_key now) x

  charge-Charged :
      (now : ℕ) (ip : String) (cfg : KeyConfig l)
      → Charged now ip cfg (charge l now ip cfg).0 (charge l now ip cfg).1
  unfolding charge
  charge-Charged now ip cfg =
      settle (charge_ip-Asked now ip cfg.limiter_per_ip) (charge_key-Asked now cfg.limiter_per_key)
    where
      settle :
          {over_ip over_key : Bool} {c : Option l.Collector} {b : Option l.Bucket}
          → Asked (ask_ip now ip) cfg.limiter_per_ip over_ip c
          → Asked (ask_key now) cfg.limiter_per_key over_key b
          → let r : Bool × KeyConfig l =
              (if over_ip
                then (true, record cfg { limiter_per_ip = c })
                else (over_key, record cfg { limiter_per_ip = c; limiter_per_key = b })) in
            Charged now ip cfg r.0 r.1
      settle (over h) k = by_address h
      settle (under h) (over k) = by_key h k
      settle (under h) (under k) = let_in h k

module _ (t : Ton) (a : ArcCache) (l : Limiters) (vm : Tvm t) {S : Type 0}
    (v : Services t a S) where
  abbrev pub Answers : Type 0
  Answers = Result (Proxy t a l S) (List (Packet t.Cell))

  -- the proxy with the limits `cfg` for the client's key, and the client's last request noted
  abbrev pub charged : ServerClient → ℕ → KeyConfig l → Proxy t a l S → Proxy t a l S
  charged sc now cfg p = record p {
    configs = insert sc.server_key cfg p.configs;
    connections = touch sc (unix now) p.connections;
  }

  -- what is sent for a query, if `refused` tells whether the limits refuse it
  abbrev pub limited_answers : t.Ctx → Bytes → Request → Bool → Proxy t a l S → Answers
  limited_answers ctx id r true p =
      ok (answer id (error_message (pos 429) "too many requests") ∷ []) p
  limited_answers ctx id r false p =
      continue (answer_query t a l vm v ctx r p) λ m. ok (answer_packets t a l vm v id m)

  -- For a query of a known key, the limiter of its address under that key is asked first, and the
  -- limiter of the key if the first is missing or lets the query in. If one of them lets in
  -- anything but the cost of 1, the only answer is the error 429, and nothing changes but the
  -- limiters that were asked and the note of the client's last request: the cache, the backends and the
  -- cache of answers stay. If none refuses, the query is answered in the proxy that has been
  -- charged for it.
  pub query_is_limited :
      (ctx : t.Ctx) (sc : ServerClient) (now : ℕ) (id : Bytes) (r : Request) (cfg : KeyConfig l)
      (p : Proxy t a l S)
      → lookup sc.server_key p.configs ≡ some cfg
      → (refused : Bool) × (cfg' : KeyConfig l) × Charged l now sc.ip cfg refused cfg'
        × (handle_request t a l vm v ctx sc now (lite_server_query id r) p
            ≡ limited_answers ctx id r refused (charged sc now cfg' p))
  unfolding handle_request handle_message handle_query
  query_is_limited ctx sc now id r cfg p known =
      let (refused, cfg') = charge l now sc.ip cfg in
      (refused, cfg', charge-Charged l now sc.ip cfg, rw (handle_request, known) (either refused))
    where
      either :
          (refused : Bool)
          → (if refused
              then ok
                  (answer id (error_message (pos 429) "too many requests") ∷ [])
                  (charged sc now (charge l now sc.ip cfg).1 p)
              else continue
                  (answer_query t a l vm v ctx r (charged sc now (charge l now sc.ip cfg).1 p))
                  (λ m. ok (answer_packets t a l vm v id m)))
            ≡ limited_answers ctx id r refused (charged sc now (charge l now sc.ip cfg).1 p)
      either true = refl
      either false = refl
