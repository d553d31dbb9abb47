-- ===== src/RateLimit/Keys.antt =====
-- Each key of each dimension has a bucket of its own.
use hygress.Common.{
  ◌≡◌, refl, ap, ◌∙◌, Str, str_eq, str_eq_iff, text_eq, ℕ, List, [], ◌∷◌, Option, none, some, Bool,
  true, if◌then◌else◌, is_empty, unwrap_or, arith,
}
use hygress.Common.Dict
use hygress.Common.Dict.{lookup, lookup-insert}
use hygress.Policy.{LimitsSpec}
use hygress.RateLimit.{
  Float, TokenBucket, RatLimiter, new_limiter, from_spec, check_bucket, check_dim, check_ip,
  check_consumer,
}

-- The requests that reach the limiter, by dimension.
pub data Check : Type 0 where
  by_ip by_consumer : Str → ℕ → Check

module _ (float : Float) where
  abbrev pub check : RatLimiter float → Check → RatLimiter float × Bool
  check l (by_ip key now) = check_ip float l key now
  check l (by_consumer key now) = check_consumer float l key now

  -- The answers to the checks of one key of the ip dimension.
  abbrev pub ip_answers : RatLimiter float → List Check → Str → List Bool
  ip_answers l [] key = []
  ip_answers l (by_ip asked now ∷ cs) key =
      let r = check l (by_ip asked now) in
      let rest = ip_answers r.0 cs key in if str_eq asked key then r.1 ∷ rest else rest
  ip_answers l (by_consumer asked now ∷ cs) key =
      ip_answers (check l (by_consumer asked now)).0 cs key

  abbrev pub ip_times : List Check → Str → List ℕ
  ip_times [] key = []
  ip_times (by_ip asked now ∷ cs) key =
      let rest = ip_times cs key in if str_eq asked key then now ∷ rest else rest
  ip_times (by_consumer asked now ∷ cs) key = ip_times cs key

  abbrev pub bucket_answers : TokenBucket float → List ℕ → List Bool
  bucket_answers b [] = []
  bucket_answers b (now ∷ ts) = let r = check_bucket float b now in r.1 ∷ bucket_answers r.0 ts

  abbrev pub all_true : List ℕ → List Bool
  all_true [] = []
  all_true (now ∷ ts) = true ∷ all_true ts

  -- What a key is to be answered: by its own bucket, or always yes.
  abbrev pub expected :
      Option (TokenBucket float) → Option (TokenBucket float) → Str → List ℕ → List Bool
  expected none live key ts = all_true ts
  expected (some tpl) live key ts =
      if is_empty key then all_true ts else bucket_answers (unwrap_or live tpl) ts

  -- The ip dimension alone.
  abbrev dim_answers :
      Option (TokenBucket float) → List (Str × TokenBucket float) → List Check → Str → List Bool
  dim_answers tpl live [] key = []
  dim_answers tpl live (by_consumer asked now ∷ cs) key = dim_answers tpl live cs key
  dim_answers tpl live (by_ip asked now ∷ cs) key =
      let r = check_dim float tpl live asked now in
      let rest = dim_answers tpl r.0 cs key in if str_eq asked key then r.1 ∷ rest else rest

  ip_answers-dim_answers :
      (cs : List Check) (l : RatLimiter float) (key : Str)
      → ip_answers l cs key ≡ dim_answers l.templates.ip l.ip_buckets cs key
  unfolding check_ip check_consumer
  ip_answers-dim_answers [] l key = refl
  ip_answers-dim_answers (by_consumer asked now ∷ cs) l key =
      ip_answers-dim_answers cs (check l (by_consumer asked now)).0 key
  ip_answers-dim_answers (by_ip asked now ∷ cs) l key =
      let r = check l (by_ip asked now) in
      ap (λ rest. if str_eq asked key then r.1 ∷ rest else rest) (ip_answers-dim_answers cs r.0 key)

  dim_answers-expected :
      (tpl : Option (TokenBucket float)) (cs : List Check) (live : List (Str × TokenBucket float))
      (key : Str)
      → dim_answers tpl live cs key ≡ expected tpl (lookup key live) key (ip_times cs key)
  unfolding check_dim
  dim_answers-expected none [] live key = refl
  dim_answers-expected none (by_consumer asked now ∷ cs) live key =
      dim_answers-expected none cs live key
  dim_answers-expected none (by_ip asked now ∷ cs) live key =
      ground (arith, dim_answers-expected none cs live key)
  dim_answers-expected (some t) [] live key = ground arith
  dim_answers-expected (some t) (by_consumer asked now ∷ cs) live key =
      dim_answers-expected (some t) cs live key
  dim_answers-expected (some t) (by_ip asked now ∷ cs) live key =
      let checked = check_bucket float (unwrap_or (lookup asked live) t) now in
      ground (
        arith,
        str_eq_iff asked key,
        lookup-insert asked key checked.0 live,
        dim_answers-expected (some t) cs live key,
        dim_answers-expected (some t) cs (Dict.insert asked checked.0 live) key,
      )

  -- However the checks of other keys and of the other dimension come in between, a key of the ip
  -- dimension is answered as by a bucket of its own, full at first, at the times of its own checks;
  -- an empty key and a dimension that is not configured are always let through.
  pub ip_answers-own_bucket :
      (spec : LimitsSpec float.F) (cs : List Check) (key : Str)
      → ip_answers (new_limiter float spec) cs key
        ≡ expected (from_spec float spec).ip none key (ip_times cs key)
  unfolding lookup
  ip_answers-own_bucket spec cs key =
      let l = new_limiter float spec in
      ip_answers-dim_answers cs l key ∙ dim_answers-expected l.templates.ip cs [] key
