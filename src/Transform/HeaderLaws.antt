-- ===== src/Transform/HeaderLaws.antt =====
-- What reading a header gives after a change.
use hygress.Common.{
  ◌≡◌, Str, str_eq, text_eq, str_eq_iff, [], ◌∷◌, ◌++◌, none, some, if◌then◌else◌, arith,
}
use hygress.Common.Dict.{lookup-insert, lookup-remove}
use hygress.Transform.{
  HeaderMap, header_key, insert_header, append_header, remove_header, get_header, get_all,
}

-- After an insertion the name has the one value, in every spelling of its letters, and the other
-- names keep their values.
pub get_header-insert_header :
    (h : HeaderMap) (name other value : Str)
    → get_header (insert_header h name value) other
      ≡ (if str_eq (header_key name) (header_key other) then some value else get_header h other)
unfolding get_header insert_header
get_header-insert_header h name other value =
    ground (arith, lookup-insert (header_key name) (header_key other) (value ∷ []) h.map)

pub get_all-append_header :
    (h : HeaderMap) (name other value : Str)
    → get_all (append_header h name value) other ≡ (
        if str_eq (header_key name) (header_key other)
        then get_all h other ++ value ∷ []
        else get_all h other)
unfolding get_all append_header
get_all-append_header h name other value = ground (
  arith,
  str_eq_iff (header_key name) (header_key other),
  lookup-insert (header_key name) (header_key other) (get_all h name ++ value ∷ []) h.map,
)

pub get_header-remove_header :
    (h : HeaderMap) (name other : Str)
    → get_header (remove_header h name) other
      ≡ (if str_eq (header_key name) (header_key other) then none else get_header h other)
unfolding get_header remove_header
get_header-remove_header h name other = ground (
  arith,
  str_eq_iff (header_key name) (header_key other),
  lookup-remove (header_key name) (header_key other) h.map,
)
