-- ===== src/RateLimit.antt =====
-- crates/hygress-core/src/ratelimit.rs: the token buckets. The `f64` arithmetic is a parameter, and
-- a limiter is its state and its answers.
pub mod Keys
pub mod Shared
use hygress.Common.{
  Str, text_eq, ℕ, ◌-◌, List, [], Option, none, some, Bool, true, false, leb, if◌then◌else◌,
  is_empty, unwrap_or,
}
use hygress.Common.Dict
use hygress.Common.Dict.{lookup}
use hygress.Policy.{LimitsSpec, TokenBucketSpec}

-- The operations on `f64` that are used; `of_u64` is also the literals.
pub record Float : Type 1 where
  pub F : Type 0
  pub of_u64 : ℕ → F
  pub add : F → F → F
  pub sub : F → F → F
  pub mul : F → F → F
  pub div : F → F → F
  pub minimum : F → F → F
  pub at_least : F → F → Bool
  pub equal : F → F → Bool

module _ (float : Float) where
  open float use {F, of_u64, add, sub, mul, div, minimum, at_least}

  pub record TokenBucket : Type 0 where
    pub burst : ℕ
    pub fill_per_ms : F
    pub tokens : F
    pub last : ℕ

  abbrev pub new_bucket : ℕ → F → TokenBucket
  new_bucket burst rps = record {
    burst = burst;
    fill_per_ms = div rps (of_u64 1000);
    tokens = of_u64 burst;
    last = 0;
  }

  unfoldable pub refill : TokenBucket → ℕ → TokenBucket
  refill b now_ms =
      if leb b.last now_ms
      then record b {
        tokens =
            minimum (add b.tokens (mul (of_u64 (now_ms - b.last)) b.fill_per_ms)) (of_u64 b.burst);
        last = now_ms;
      }
      else b

  abbrev pub take_token : TokenBucket → TokenBucket × Bool
  take_token b =
      if at_least b.tokens (of_u64 1)
      then (record b { tokens = sub b.tokens (of_u64 1) }, true)
      else (b, false)

  unfoldable pub check_bucket : TokenBucket → ℕ → TokenBucket × Bool
  check_bucket b now_ms = take_token (refill b now_ms)

  pub record Buckets : Type 0 where
    pub ip : Option TokenBucket
    pub consumer : Option TokenBucket

  abbrev template : Option (TokenBucketSpec F) → Option TokenBucket
  template none = none
  template (some t) = some (new_bucket t.burst t.rps)

  abbrev pub from_spec : LimitsSpec F → Buckets
  from_spec spec = record { ip = template spec.ip; consumer = template spec.consumer }

  pub record RatLimiter : Type 0 where
    pub templates : Buckets
    pub ip_buckets : List (Str × TokenBucket)
    pub consumer_buckets : List (Str × TokenBucket)

  abbrev pub new_limiter : LimitsSpec F → RatLimiter
  new_limiter spec = record { templates = from_spec spec; ip_buckets = []; consumer_buckets = [] }

  abbrev check_live :
      TokenBucket → List (Str × TokenBucket) → Str → ℕ → List (Str × TokenBucket) × Bool
  check_live tpl live key now_ms =
      let checked = check_bucket (unwrap_or (lookup key live) tpl) now_ms in
      (Dict.insert key checked.0 live, checked.1)

  unfoldable pub check_dim :
      Option TokenBucket → List (Str × TokenBucket) → Str → ℕ → List (Str × TokenBucket) × Bool
  check_dim none live key now_ms = (live, true)
  check_dim (some tpl) live key now_ms =
      if is_empty key then (live, true) else check_live tpl live key now_ms

  unfoldable pub check_ip : RatLimiter → Str → ℕ → RatLimiter × Bool
  check_ip l ip_key now_ms =
      let r = check_dim l.templates.ip l.ip_buckets ip_key now_ms in
      (record l { ip_buckets = r.0 }, r.1)

  unfoldable pub check_consumer : RatLimiter → Str → ℕ → RatLimiter × Bool
  check_consumer l consumer_key now_ms =
      let r = check_dim l.templates.consumer l.consumer_buckets consumer_key now_ms in
      (record l { consumer_buckets = r.0 }, r.1)
