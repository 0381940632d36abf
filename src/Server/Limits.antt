-- ===== src/Server/Limits.antt =====
-- The limits of a key and of an address, in `handleRequest`.
use tonutils_liteserver_prox.Base.{
  ℕ, String, Bool, true, false, not, Option, none, some, if◌then◌else◌, ◌==◌, nat_key, bytes_key,
}
use tonutils_liteserver_prox.Base.Int.{ℤ, pos, int_key}

-- The package leakybucket. `Add` returns how much it has let in, at a time in nanoseconds.
pub record Limiters : Type 1 where
  pub Rate : Type 0  -- float64
  pub Bucket : Type 0
  pub Collector : Type 0
  pub new_bucket : Rate → ℤ → Bucket
  pub new_collector : Rate → ℤ → Bool → Collector
  pub bucket_add : ℕ → ℤ → Bucket → ℤ × Bucket
  pub collector_add : ℕ → String → ℤ → Collector → ℤ × Collector

pub record KeyConfig (l : Limiters) : Type 0 where
  pub name : String
  pub limiter_per_ip : Option l.Collector
  pub limiter_per_key : Option l.Bucket

module _ (l : Limiters) where
  -- `lim.limiterPerIP != nil && lim.limiterPerIP.Add(sc.IP(), cost) != cost`, for a cost of 1
  unfoldable pub charge_ip : ℕ → String → Option l.Collector → Bool × Option l.Collector
  charge_ip now ip none = (false, none)
  charge_ip now ip (some c) =
      let (let_in, c') = l.collector_add now ip (pos 1) c in (not (let_in == pos 1), some c')

  unfoldable pub charge_key : ℕ → Option l.Bucket → Bool × Option l.Bucket
  charge_key now none = (false, none)
  charge_key now (some b) =
      let (let_in, b') = l.bucket_add now (pos 1) b in (not (let_in == pos 1), some b')

  -- Whether the request is refused. The limit of the key is charged only if that of the address
  -- lets the request in.
  unfoldable pub charge : ℕ → String → KeyConfig l → Bool × KeyConfig l
  unfolding charge_ip charge_key
  charge now ip cfg =
      let (over_ip, c) = charge_ip now ip cfg.limiter_per_ip in
      let (over_key, b) = charge_key now cfg.limiter_per_key in
      if over_ip
      then (true, record cfg { limiter_per_ip = c })
      else (over_key, record cfg { limiter_per_ip = c; limiter_per_key = b })
