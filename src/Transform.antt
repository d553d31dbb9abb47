-- ===== src/Transform.antt =====
-- crates/hygress-core/src/transform.rs: the header multimap. Names are compared in lower case. The
-- transformer rules are not modelled.
pub mod HeaderLaws
pub mod Outbound
pub mod RuleLaws
pub mod Rules
use hygress.Common.{
  Str, str_eq, text_eq, ℕ, List, [], ◌∷◌, ◌++◌, Option, none, some, Bool, true, false,
  if◌then◌else◌, length, unwrap_or, is_some, to_ascii_lowercase,
}
use hygress.Common.Dict
use hygress.Common.Dict.{lookup}

pub record HeaderMap : Type 0 where
  pub map : List (Str × List Str)

abbrev pub new_headers : HeaderMap
new_headers = record { map = [] }

-- `key` and `lookup`, which differ only in whether they copy.
abbrev pub header_key : Str → Str
header_key name = to_ascii_lowercase name

unfoldable pub insert_header : HeaderMap → Str → Str → HeaderMap
insert_header h name value = record { map = Dict.insert (header_key name) (value ∷ []) h.map }

unfoldable pub get_all : HeaderMap → Str → List Str
get_all h name = unwrap_or (lookup (header_key name) h.map) []

-- `entry(key).or_default().push(value)`.
unfoldable pub append_header : HeaderMap → Str → Str → HeaderMap
append_header h name value = record {
  map = Dict.insert (header_key name) (get_all h name ++ value ∷ []) h.map;
}

abbrev pub first_value : Option (List Str) → Option Str
first_value none = none
first_value (some []) = none
first_value (some (v ∷ _)) = some v

unfoldable pub get_header : HeaderMap → Str → Option Str
get_header h name = first_value (lookup (header_key name) h.map)

unfoldable pub count_header : HeaderMap → Str → ℕ
count_header h name = length (get_all h name)

unfoldable pub contains_header : HeaderMap → Str → Bool
contains_header h name = is_some (lookup (header_key name) h.map)

unfoldable pub remove_header : HeaderMap → Str → HeaderMap
remove_header h name =
    if is_some (lookup (header_key name) h.map)
    then record { map = Dict.remove (header_key name) h.map }
    else h
