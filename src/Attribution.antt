-- ===== src/Attribution.antt =====
-- The pure helpers of crates/hygress-gateway/src/pipe.rs: to whom a request is attributed, how a
-- response is framed, and how the request body is read.
pub mod Texts
use hygress.Common.{
  Str, codes, str_eq, ℕ, ◌+◌, ◌-◌, ◌/◌, max, List, [], ◌∷◌, Option, none, some, Bool, true, false,
  not, ◌&&◌, ◌||◌, ◌==◌, ltb, leb, if◌then◌else◌, is_empty, all, length, drop, starts_with,
  strip_prefix, split, to_ascii_lowercase, parse_uint, show_uint, is_digit, u64_max, saturating_add,
}
use hygress.Common.Results.{Result, ok, err}
use hygress.Route.{last_segment}

abbrev pub i64_max : ℕ
i64_max = 9223372036854775807

abbrev pub later_or_here : Option (Str × Str) → ℕ → Option Str → Option (Str × Str)
later_or_here (some (a, b)) c here = some (c ∷ a, b)
later_or_here none c none = none
later_or_here none c (some rest) = some ([], rest)

-- `rfind` of a text that is not empty: what is before its last occurrence, and what is after it.
unfoldable pub rsplit_once_str : Str → Str → Option (Str × Str)
rsplit_once_str p [] = none
rsplit_once_str p (c ∷ s) = later_or_here (rsplit_once_str p s) c (strip_prefix p (c ∷ s))

abbrev pub bare_consumer : Str → Option Str → Option ℕ × Option Str
bare_consumer consumer none = (none, some consumer)
bare_consumer consumer (some uid) = (parse_uint u64_max uid, none)

abbrev pub keyed_consumer : Str → Option (Str × Str) → Option ℕ × Option Str
keyed_consumer consumer (some (key, uid)) = (parse_uint u64_max uid, some key)
keyed_consumer consumer none = bare_consumer consumer (strip_prefix (codes "gpustack-") consumer)

-- `(user_id, access_key)`.
unfoldable pub parse_consumer : Str → Option ℕ × Option Str
parse_consumer consumer =
    if is_empty consumer || str_eq (to_ascii_lowercase consumer) (codes "none")
    then (none, none)
    else keyed_consumer consumer (rsplit_once_str (codes ".gpustack-") consumer)

-- `split(c).next()`.
abbrev pub first_or_nil : List Str → Str
first_or_nil [] = []
first_or_nil (s ∷ _) = s

abbrev pub first_part : ℕ → Str → Str
first_part c s = first_or_nil (split c s)

abbrev pub is_number : Str → Bool
is_number s = not (is_empty s) && all is_digit s

abbrev pub provider_ids : Option Str → Option ℕ × Option ℕ
provider_ids none = (none, none)
provider_ids (some rest) =
    let first = first_part 45 rest in
    (none, if is_number first then parse_uint i64_max first else none)

abbrev pub model_ids : Str → Option Str → Option ℕ × Option ℕ
model_ids stem none = provider_ids (strip_prefix (codes "provider-") stem)
model_ids stem (some rest) =
    let first = first_part 45 rest in
    (
      if is_number first && starts_with (codes "-") (drop (length first) rest)
          then parse_uint i64_max first
          else none,
      none,
    )

-- `(model_id, provider_id)`. `-` is 45, `.` is 46.
unfoldable pub parse_instance_ids : Str → Option ℕ × Option ℕ
parse_instance_ids service =
    let stem = first_part 46 (last_segment service) in
    model_ids stem (strip_prefix (codes "model-") stem)

abbrev pub take_digits : Str → Str
take_digits [] = []
take_digits (c ∷ s) = let rest = take_digits s in if is_digit c then c ∷ rest else []

abbrev pub route_id : Option Str → Option ℕ
route_id none = none
route_id (some rest) = parse_uint i64_max (take_digits rest)

unfoldable pub parse_model_route_id : Str → Option ℕ
parse_model_route_id route_name =
    route_id (strip_prefix (codes "ai-route-route-") (last_segment route_name))

abbrev or_length : Option ℕ → Option ℕ → Option ℕ
or_length none b = b
or_length (some a) b = some a

abbrev framed : Option ℕ → Str × Str
framed none = (codes "transfer-encoding", codes "chunked")
framed (some len) = (codes "content-length", show_uint len)

unfoldable pub response_framing : ℕ → Option ℕ → Option ℕ → Option (Str × Str)
response_framing status known_len upstream_cl =
    if leb 100 status && ltb status 200 || status == 204 || status == 304
    then none
    else some (framed (or_length known_len upstream_cl))

unfoldable pub est_tokens : ℕ → ℕ → ℕ
est_tokens body_bytes k = (body_bytes + (max k 1 - 1)) / max k 1

pub data BodyReadStep : Type 0 where
  body_end chunk cap_exceeded read_failed : BodyReadStep

-- The chunk is its length.
unfoldable pub body_read_step {ℓ} : {E : Type ℓ} → ℕ → ℕ → Result E (Option ℕ) → BodyReadStep
body_read_step buf_len max_body (err e) = read_failed
body_read_step buf_len max_body (ok none) = body_end
body_read_step buf_len max_body (ok (some len)) =
    if ltb max_body (saturating_add buf_len len) then cap_exceeded else chunk
