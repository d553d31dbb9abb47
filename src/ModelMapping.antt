-- ===== src/ModelMapping.antt =====
-- crates/hygress-core/src/model_mapping.rs: the outbound model name of a service, and its
-- place in a multipart body. The rewriting of JSON bodies is not modelled.
use hygress.Common.{
  Str, codes, str_eq, ℕ, List, [], ◌∷◌, ◌++◌, Option, none, some, Bool, true, false, find,
}
use hygress.External.{Bytes, Memchr}
use hygress.FormData.{first_form_value_span, replace_bytes}

pub record ModelMapping : Type 0 where
  pub rules : List (Str × Str)

abbrev pub empty_mapping : ModelMapping
empty_mapping = record { rules = [] }

abbrev pub single : Str → Str → ModelMapping
single service model = record { rules = (service, model) ∷ [] }

abbrev pub with_rule : ModelMapping → Str → Str → ModelMapping
with_rule m service model = record m { rules = m.rules ++ (service, model) ∷ [] }

abbrev second : Option (Str × Str) → Option Str
second none = none
second (some (_, model)) = some model

unfoldable pub lookup_model : ModelMapping → Str → Option Str
lookup_model m service = second (find (λ rule. str_eq rule.0 service) m.rules)

module _ (mem : Memchr) (as_bytes : Str → Bytes) where
  abbrev replaced : Option (ℕ × ℕ) → Bytes → Bytes → Bytes × Bool
  replaced none body model = (body, false)
  replaced (some (start, end)) body model = (replace_bytes body start end model, true)

  abbrev rewritten : Option Str → Bytes → Bytes → Bytes × Bool
  rewritten none body boundary = (body, false)
  rewritten (some model) body boundary =
      replaced (first_form_value_span mem body boundary (as_bytes (codes "model"))) body
        (as_bytes model)

  -- The body and whether it was changed; the encoding of a text is a parameter.
  unfoldable pub apply_multipart : ModelMapping → Str → Bytes → Bytes → Bytes × Bool
  apply_multipart m service body boundary = rewritten (lookup_model m service) body boundary
