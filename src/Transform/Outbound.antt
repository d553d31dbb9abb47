-- ===== src/Transform/Outbound.antt =====
-- `OutboundHeaders` of crates/hygress-core/src/transform.rs: the changes of one candidate over a
-- map that the candidates share.
pub mod Pairs
pub mod Refinement
pub mod Writes
use hygress.Common.{
  Str, str_eq, text_eq, ℕ, List, [], ◌∷◌, ◌++◌, Option, none, some, Bool, true, false, not, ◌&&◌,
  if◌then◌else◌, length, is_empty, is_some, any, unwrap_or,
}
use hygress.Common.Dict.{lookup}
use hygress.Common.Entries.{remove_first, upsert}
use hygress.Transform.{
  HeaderMap, header_key, get_all, get_header, first_value, contains_header, insert_header,
  remove_header,
}
use hygress.Transform.Rules.{HeaderOps, header_map_ops, append_values}

pub record OutboundHeaders : Type 0 where
  pub base : HeaderMap
  pub overrides : List (Str × List Str)
  pub removed : List Str

abbrev pub over : HeaderMap → OutboundHeaders
over base = record { base = base; overrides = []; removed = [] }

unfoldable pub has_name : Str → List Str → Bool
has_name key names = any (λ n. str_eq n key) names

-- `position` of the name, and `Vec::remove` there.
unfoldable pub drop_name : Str → List Str → List Str
drop_name key [] = []
drop_name key (n ∷ ns) = if str_eq n key then ns else n ∷ drop_name key ns

unfoldable pub insert_over : OutboundHeaders → Str → Str → OutboundHeaders
insert_over o name value =
    let key = header_key name in
    record o {
      removed = drop_name key o.removed;
      overrides = upsert key (λ values. value ∷ []) (value ∷ []) o.overrides;
    }

unfoldable pub append_over : OutboundHeaders → Str → Str → OutboundHeaders
append_over o name value =
    let key = header_key name in
    let fresh = if has_name key o.removed then value ∷ [] else get_all o.base key ++ value ∷ [] in
    record o {
      removed = drop_name key o.removed;
      overrides = upsert key (λ values. values ++ value ∷ []) fresh o.overrides;
    }

unfoldable pub remove_over : OutboundHeaders → Str → OutboundHeaders
remove_over o name =
    let key = header_key name in
    record o {
      overrides = remove_first key o.overrides;
      removed =
          if contains_header o.base key && not (has_name key o.removed)
          then o.removed ++ key ∷ []
          else o.removed;
    }

-- What a read gives: the overlay's list, nothing for a removed name, or what the base has.
abbrev pub overlaid {ℓ} : {A : Type ℓ} → Option (List Str) → Bool → (List Str → A) → A → A → A
overlaid (some values) gone own absent below = own values
overlaid none gone own absent below = if gone then absent else below

unfoldable pub get_over : OutboundHeaders → Str → Option Str
get_over o name =
    let key = header_key name in
    overlaid (lookup key o.overrides) (has_name key o.removed) (λ values. first_value (some values))
      none (get_header o.base key)

unfoldable pub get_all_over : OutboundHeaders → Str → List Str
get_all_over o name =
    let key = header_key name in
    overlaid (lookup key o.overrides) (has_name key o.removed) (λ values. values) []
      (get_all o.base key)

unfoldable pub count_over : OutboundHeaders → Str → ℕ
count_over o name = length (get_all_over o name)

unfoldable pub contains_over : OutboundHeaders → Str → Bool
contains_over o name =
    let key = header_key name in
    if is_some (lookup key o.overrides)
    then true
    else not (has_name key o.removed) && contains_header o.base key

-- One pair for each value.
unfoldable pub push_name_value_pairs : Str → List Str → List (Str × Str)
push_name_value_pairs name [] = []
push_name_value_pairs name (v ∷ vs) = (name, v) ∷ push_name_value_pairs name vs

unfoldable pub pairs_of : List (Str × List Str) → List (Str × Str)
pairs_of [] = []
pairs_of ((name, values) ∷ rest) = push_name_value_pairs name values ++ pairs_of rest

-- The pairs for one name of the base, and the overrides that are left.
abbrev pub emit_found :
    Option (List Str)
    → List (Str × List Str)
    → Str
    → List Str
    → List (Str × Str) × List (Str × List Str)
emit_found none overrides name base_values = (push_name_value_pairs name base_values, overrides)
emit_found (some values) overrides name base_values =
    (push_name_value_pairs name values, remove_first name overrides)

abbrev pub emit :
    List Str → List (Str × List Str) → Str → List Str → List (Str × Str) × List (Str × List Str)
emit removed overrides name base_values =
    if has_name name removed
    then ([], overrides)
    else emit_found (lookup name overrides) overrides name base_values

unfoldable pub drain : List Str → List (Str × List Str) → List (Str × List Str) → List (Str × Str)
drain removed overrides [] = pairs_of overrides
drain removed overrides ((name, base_values) ∷ rest) =
    let emitted = emit removed overrides name base_values in
    emitted.0 ++ drain removed emitted.1 rest

-- The map is iterated in the order in which the model lists its entries.
unfoldable pub into_pairs : OutboundHeaders → List (Str × Str)
into_pairs o = drain o.removed o.overrides o.base.map

unfoldable pub without_names : HeaderMap → List Str → HeaderMap
without_names m [] = m
without_names m (n ∷ ns) = without_names (if contains_header m n then remove_header m n else m) ns

abbrev pub write_values : HeaderMap → Str → List Str → HeaderMap
write_values m name [] = m
write_values m name (v ∷ vs) = append_values (insert_header m name v) name vs

unfoldable pub with_overrides : HeaderMap → List (Str × List Str) → HeaderMap
with_overrides m [] = m
with_overrides m ((name, values) ∷ rest) = with_overrides (write_values m name values) rest

unfoldable pub materialize : OutboundHeaders → HeaderMap
materialize o =
    with_overrides (if is_empty o.removed then o.base else without_names o.base o.removed)
      o.overrides

instance abbrev pub overlay_ops : HeaderOps OutboundHeaders
overlay_ops = record {
  header_get_all = get_all_over;
  header_insert = insert_over;
  header_append = append_over;
  header_remove = remove_over;
}
