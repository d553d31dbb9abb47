-- ===== src/RateLimit/Shared.antt =====
-- The gateway's use of the buckets in crates/hygress-gateway/src/pipe.rs: one map for both
-- dimensions, whose specifications can change with the policy. Whether a request is denied is
-- kept of an answer; the `Retry-After` header and the metrics are left out.
use hygress.Common.{
  ◌≡◌, refl, ◌∙◌, Str, codes, str_eq, text_eq, to_ascii_lowercase, ℕ, List, ◌++◌, Option, none,
  some, Bool, true, false, not, ◌&&◌, ◌||◌, ◌==◌, if◌then◌else◌, is_empty, unwrap_or, arith,
  Bool-cases, inl, inr,
}
use hygress.Common.Dict
use hygress.Common.Dict.{lookup, lookup-insert}
use hygress.Policy.{TokenBucketSpec}
use hygress.RateLimit.{Float, TokenBucket, new_bucket, check_bucket}

module _ (float : Float) where
  open float use {F, equal}

  pub record RateLimitEntry : Type 0 where
    pub spec_rps : F
    pub spec_burst : ℕ
    pub last_active_ms : ℕ
    pub bucket : TokenBucket float

  abbrev seeded : TokenBucketSpec F → ℕ → RateLimitEntry
  seeded spec now_ms = record {
    spec_rps = spec.rps;
    spec_burst = spec.burst;
    last_active_ms = now_ms;
    bucket = new_bucket float spec.burst spec.rps;
  }

  abbrev pub is_current : RateLimitEntry → TokenBucketSpec F → Bool
  is_current e spec = equal e.spec_rps spec.rps && e.spec_burst == spec.burst

  -- The entry is reset where the specification has changed since it was seeded.
  abbrev current_entry : RateLimitEntry → TokenBucketSpec F → ℕ → RateLimitEntry
  current_entry e spec now_ms =
      if is_current e spec then record e { last_active_ms = now_ms } else seeded spec now_ms

  unfoldable pub check_shared :
      List (Str × RateLimitEntry) → Str → TokenBucketSpec F → ℕ → List (Str × RateLimitEntry) × Bool
  check_shared buckets key spec now_ms =
      let entry = current_entry (unwrap_or (lookup key buckets) (seeded spec now_ms)) spec now_ms in
      let checked = check_bucket float entry.bucket now_ms in
      if is_empty key
      then (buckets, true)
      else (Dict.insert key (record entry { bucket = checked.0 }) buckets, checked.1)

  -- The map, and whether the request is denied.
  abbrev denied_by : List (Str × RateLimitEntry) × Bool → List (Str × RateLimitEntry) × Bool
  denied_by (buckets, allowed) = (buckets, not allowed)

  -- `spec` is the ip dimension of the global limits, if there is a policy that has it.
  unfoldable pub rate_limit_pre :
      Option (TokenBucketSpec F)
      → List (Str × RateLimitEntry)
      → Str
      → ℕ
      → List (Str × RateLimitEntry) × Bool
  rate_limit_pre none buckets client_ip now_ms = (buckets, false)
  rate_limit_pre (some spec) buckets client_ip now_ms =
      if is_empty client_ip
      then (buckets, false)
      else denied_by (check_shared buckets (codes "ip:" ++ client_ip) spec now_ms)

  unfoldable pub rate_limit_post :
      Option (TokenBucketSpec F)
      → List (Str × RateLimitEntry)
      → Str
      → ℕ
      → List (Str × RateLimitEntry) × Bool
  rate_limit_post none buckets consumer now_ms = (buckets, false)
  rate_limit_post (some spec) buckets consumer now_ms =
      if is_empty consumer || str_eq (to_ascii_lowercase consumer) (codes "none")
      then (buckets, false)
      else denied_by (check_shared buckets (codes "consumer:" ++ consumer) spec now_ms)

  -- The answer depends on the entry of the key alone, and the other entries stay.
  lookup-check_shared :
      (buckets : List (Str × RateLimitEntry)) (key other : Str) (spec : TokenBucketSpec F)
      (now_ms : ℕ)
      → str_eq key other ≡ false
      → lookup other (check_shared buckets key spec now_ms).0 ≡ lookup other buckets
  unfolding check_shared
  lookup-check_shared buckets key other spec now_ms ne = elim (Bool-cases (is_empty key)) [
    | inl e ↦ rw e refl
    | inr e ↦ rw e (lookup-insert key other _ buckets ∙ rw ne refl)
  ]

  check_shared-answer :
      (a b : List (Str × RateLimitEntry)) (key : Str) (spec : TokenBucketSpec F) (now_ms : ℕ)
      → lookup key a ≡ lookup key b
      → (check_shared a key spec now_ms).1 ≡ (check_shared b key spec now_ms).1
  unfolding check_shared
  check_shared-answer a b key spec now_ms same = rw same (ground arith)

  post-answer :
      (a b : List (Str × RateLimitEntry)) (spec : Option (TokenBucketSpec F)) (consumer : Str)
      (now_ms : ℕ)
      → lookup (codes "consumer:" ++ consumer) a ≡ lookup (codes "consumer:" ++ consumer) b
      → (rate_limit_post spec a consumer now_ms).1 ≡ (rate_limit_post spec b consumer now_ms).1
  unfolding rate_limit_post
  post-answer a b none consumer now_ms same = refl
  post-answer a b (some spec) consumer now_ms same =
      ground (arith, check_shared-answer a b (codes "consumer:" ++ consumer) spec now_ms same)

  keys_differ :
      (ip consumer : Str) → str_eq (codes "ip:" ++ ip) (codes "consumer:" ++ consumer) ≡ false
  unfolding str_eq
  keys_differ ip consumer = refl

  -- What the check of the client's address does never changes the answer to a consumer.
  pub rate_limit_pre-rate_limit_post :
      (global : Option (TokenBucketSpec F)) (effective : Option (TokenBucketSpec F))
      (buckets : List (Str × RateLimitEntry)) (client_ip consumer : Str) (then_ms now_ms : ℕ)
      → (rate_limit_post effective
          (rate_limit_pre global buckets client_ip then_ms).0
          consumer
          now_ms).1
        ≡ (rate_limit_post effective buckets consumer now_ms).1
  unfolding rate_limit_pre
  rate_limit_pre-rate_limit_post none effective buckets client_ip consumer then_ms now_ms = refl
  rate_limit_pre-rate_limit_post (some spec) effective buckets client_ip consumer then_ms now_ms =
      elim (Bool-cases (is_empty client_ip)) [
        | inl e ↦ rw e refl
        | inr e ↦ rw e (
            post-answer (check_shared buckets (codes "ip:" ++ client_ip) spec then_ms).0 buckets
              effective consumer now_ms
              (lookup-check_shared buckets (codes "ip:" ++ client_ip)
                (codes "consumer:" ++ consumer) spec then_ms (keys_differ client_ip consumer)))
      ]

  -- After the specification has changed, a key is answered as by a full bucket of the new one.
  pub check_shared-reset :
      (buckets : List (Str × RateLimitEntry)) (key : Str) (spec : TokenBucketSpec F) (now_ms : ℕ)
      (e : RateLimitEntry)
      → is_empty key ≡ false
      → lookup key buckets ≡ some e
      → is_current e spec ≡ false
      → (check_shared buckets key spec now_ms).1
        ≡ (check_bucket float (new_bucket float spec.burst spec.rps) now_ms).1
  unfolding check_shared
  check_shared-reset buckets key spec now_ms e ne at old = rw ne (rw at (rw old refl))
