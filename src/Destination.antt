-- ===== src/Destination.antt =====
-- crates/hygress-core/src/destination.rs: service references and destination entries.
pub mod RoundTrip
use hygress.Common.{
  Str, codes, str_eq, ℕ, List, [], ◌∷◌, ◌++◌, Option, none, some, Bool, true, false, not,
  if◌then◌else◌, is_empty, unwrap_or, retain, trim, split_once, rsplit_once, lines, parse_uint,
  show_uint, u16_max, u32_max,
}
use hygress.Common.Results.{Result, ok, err, Error, ◌>>=◌, ◌>>◌, fail_if, ok_or, collect}

pub data ServiceType : Type 0 where
  static dns proxy tunnel : ServiceType

abbrev pub suffix : ServiceType → Str
suffix static = codes "static"
suffix dns = codes "dns"
suffix proxy = codes "proxy"
suffix tunnel = codes "tunnel"

unfoldable pub from_suffix : Str → Option ServiceType
from_suffix s =
    if str_eq s (codes "static")
    then some static
    else if str_eq s (codes "dns")
    then some dns
    else if str_eq s (codes "proxy")
    then some proxy
    else if str_eq s (codes "tunnel")
    then some tunnel
    else none

pub record ServiceRef : Type 0 where
  pub name : Str
  pub kind : ServiceType
  pub port : Option ℕ  -- u16

-- `format!("{}.{}", self.name, self.kind.suffix())`.
abbrev pub service_name : ServiceRef → Str
service_name r = r.name ++ 46 ∷ suffix r.kind

-- `format!("{}:{}", self.service_name(), self.port.unwrap_or(80))`.
abbrev pub service_name_with_port : ServiceRef → Str
service_name_with_port r = service_name r ++ 58 ∷ show_uint (unwrap_or r.port 80)

-- The text before the port and the port; `:` is 58.
unfoldable pub split_port : Str → Option (Str × Str) → Result Error (Str × Option ℕ)
split_port input none = ok (input, none)
split_port input (some (name_type, port_str)) = do
  fail_if (is_empty port_str) Error.parse_error
  port ← ok_or (parse_uint u16_max port_str) Error.parse_error
  ok (name_type, some port)

-- The part from `rfind('.')` on; `.` is 46.
unfoldable pub parse_name_type : Str → Option ℕ → Result Error ServiceRef
parse_name_type name_type port = do
  parts ← ok_or (rsplit_once 46 name_type) Error.parse_error
  fail_if (is_empty parts.0) Error.parse_error
  fail_if (is_empty parts.1) Error.parse_error
  kind ← ok_or (from_suffix parts.1) Error.unknown
  ok (record { name = parts.0; kind = kind; port = port })

unfoldable pub parse_service_with_port : Str → Result Error ServiceRef
parse_service_with_port text =
    let input = trim text in
    do
      fail_if (is_empty input) Error.parse_error
      parts ← split_port input (rsplit_once 58 input)
      parse_name_type parts.0 parts.1

pub record Destination : Type 0 where
  pub percent : Option ℕ  -- u32
  pub service : Str

-- An entry that was cut at its first `%` (37), where it has one.
unfoldable pub parse_entry : Str → Option (Str × Str) → Result Error Destination
parse_entry entry none = ok (record { percent = none; service = entry })
parse_entry entry (some (before, after)) =
    let service = trim after in
    do
      percent ← ok_or (parse_uint u32_max (trim before)) Error.parse_error
      fail_if (is_empty service) Error.parse_error
      ok (record { percent = some percent; service = service })

unfoldable pub parse_destination : Str → Result Error Destination
parse_destination text =
    let entry = trim text in
    do fail_if (is_empty entry) Error.parse_error; parse_entry entry (split_once 37 entry)

abbrev pub weight : Destination → ℕ
weight d = unwrap_or d.percent 100

abbrev pub service_ref : Destination → Result Error ServiceRef
service_ref d = parse_service_with_port d.service

abbrev trim_all : List Str → List Str
trim_all [] = []
trim_all (l ∷ ls) = trim l ∷ trim_all ls

unfoldable pub parse_destinations : Str → Result Error (List Destination)
parse_destinations block =
    collect parse_destination (retain (λ l. not (is_empty l)) (trim_all (lines block)))
