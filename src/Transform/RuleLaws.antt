-- ===== src/Transform/RuleLaws.antt =====
-- What the transformer does to the values of each name.
use hygress.Common.{
  ◌≡◌, refl, sym, ap, ◌∙◌, Str, codes, str_eq, str_eq_iff, text_eq, to_ascii_lowercase, List, [],
  ◌∷◌, ◌++◌, append_assoc, append-nil, Option, none, some, Bool, true, ltb, if◌then◌else◌, length,
  unwrap_or, arith,
}
use hygress.Common.Dict.{lookup, lookup-insert, lookup-remove}
use hygress.Transform.{HeaderMap, header_key, get_all, insert_header, append_header, remove_header}
use hygress.Transform.HeaderLaws.{get_all-append_header}
use hygress.Transform.Rules.{
  header_map_ops, TransformOp, apply_op, TransformRule, remove, rename, dedupe, backup, skip,
  RetainMode, retain_first, retain_last, kept_value, keep_one, append_values, apply_rule, apply,
  apply_inbound, inbound,
}

-- Two spellings of one name.
abbrev pub same_name : Str → Str → Bool
same_name a b = str_eq (header_key a) (header_key b)

pub get_all-insert_header :
    (h : HeaderMap) (name other value : Str)
    → get_all (insert_header h name value) other
      ≡ (if same_name name other then value ∷ [] else get_all h other)
unfolding get_all insert_header
get_all-insert_header h name other value =
    ground (arith, lookup-insert (header_key name) (header_key other) (value ∷ []) h.map)

pub get_all-remove_header :
    (h : HeaderMap) (name other : Str)
    → get_all (remove_header h name) other ≡ (if same_name name other then [] else get_all h other)
unfolding get_all remove_header
get_all-remove_header h name other = ground (
  arith,
  str_eq_iff (header_key name) (header_key other),
  lookup-remove (header_key name) (header_key other) h.map,
)

get_all-append_values :
    (vs : List Str) (h : HeaderMap) (dest other : Str)
    → get_all (append_values h dest vs) other
      ≡ (if same_name dest other then get_all h other ++ vs else get_all h other)
unfolding append_values
get_all-append_values [] h dest other = ground (arith, append-nil (get_all h other))
get_all-append_values (v ∷ vs) h dest other = ground (
  arith,
  get_all-append_values vs (append_header h dest v) dest other,
  get_all-append_header h dest other v,
  append_assoc (get_all h other) (v ∷ []) vs,
)

-- The one value that is left, or none.
abbrev pub only : Option Str → List Str
only none = []
only (some v) = v ∷ []

-- The values of a name after a rule, from those of all names before it.
abbrev op_values :
    TransformOp → Str → Option Str → Option RetainMode → (Str → List Str) → Str → List Str
op_values remove s d m f o = if same_name s o then [] else f o
op_values rename s none m f o = f o
op_values rename s (some d) m f o =
    if same_name s o then [] else if same_name d o then f o ++ f s else f o
op_values dedupe s d m f o =
    if same_name s o then only (kept_value (unwrap_or m retain_first) (f s)) else f o
op_values backup s none m f o = f o
op_values backup s (some d) m f o = if same_name d o then f o ++ f s else f o
op_values skip s d m f o = f o

abbrev pub rule_values : TransformRule → (Str → List Str) → Str → List Str
rule_values rule f o = op_values rule.op rule.source rule.dest rule.mode f o

abbrev pub values_after : List TransformRule → (Str → List Str) → Str → List Str
values_after [] f = f
values_after (rule ∷ rules) f = values_after rules (rule_values rule f)

get_all-keep_one :
    (h : HeaderMap) (s : Str) (kept : Option Str) (o : Str)
    → get_all (keep_one h s kept) o ≡ (if same_name s o then only kept else get_all h o)
get_all-keep_one h s none o = get_all-remove_header h s o
get_all-keep_one h s (some v) o = get_all-insert_header h s o v

get_all-same : (h : HeaderMap) (s o : Str) → same_name s o ≡ true → get_all h o ≡ get_all h s
unfolding get_all
get_all-same h s o e =
    ap (λ k. unwrap_or (lookup k h.map) []) (sym ((str_eq_iff (header_key s) (header_key o)).0 e))

get_all-dedupe :
    (h : HeaderMap) (s : Str) (mode : RetainMode) (vs : List Str) (o : Str)
    → get_all h s ≡ vs
    → get_all (if ltb 1 (length vs) then keep_one h s (kept_value mode vs) else h) o
      ≡ (if same_name s o then only (kept_value mode vs) else get_all h o)
get_all-dedupe h s retain_first [] o e = ground (arith, e, get_all-same h s o)
get_all-dedupe h s retain_last [] o e = ground (arith, e, get_all-same h s o)
get_all-dedupe h s retain_first (v ∷ []) o e = ground (arith, e, get_all-same h s o)
get_all-dedupe h s retain_last (v ∷ []) o e = ground (arith, e, get_all-same h s o)
get_all-dedupe h s mode (v ∷ w ∷ vs) o e =
    let many : ltb 1 (length (v ∷ w ∷ vs)) ≡ true = ground arith in
    rw many (get_all-keep_one h s (kept_value mode (v ∷ w ∷ vs)) o)

get_all-apply_op :
    (op : TransformOp) (s : Str) (d : Option Str) (m : Option RetainMode) (h : HeaderMap) (o : Str)
    → get_all (apply_op op s d m h) o ≡ op_values op s d m (get_all h) o
get_all-apply_op remove s d m h o = get_all-remove_header h s o
get_all-apply_op rename s none m h o = refl
get_all-apply_op rename s (some d) m h o = ground (
  arith,
  get_all-remove_header (append_values h d (get_all h s)) s o,
  get_all-append_values (get_all h s) h d o,
)
get_all-apply_op dedupe s d m h o =
    get_all-dedupe h s (unwrap_or m retain_first) (get_all h s) o refl
get_all-apply_op backup s none m h o = refl
get_all-apply_op backup s (some d) m h o = get_all-append_values (get_all h s) h d o
get_all-apply_op skip s d m h o = refl

get_all-apply_rule :
    (rule : TransformRule) (h : HeaderMap) (o : Str)
    → get_all (apply_rule rule h) o ≡ rule_values rule (get_all h) o
unfolding apply_rule
get_all-apply_rule rule h o = get_all-apply_op rule.op rule.source rule.dest rule.mode h o

pub get_all-apply :
    (rules : List TransformRule) (h : HeaderMap) (o : Str)
    → get_all (apply rules h) o ≡ values_after rules (get_all h) o
unfolding apply
get_all-apply [] h o = refl
get_all-apply (rule ∷ rules) h o =
    get_all-apply rules (apply_rule rule h) o
    ∙ (λ i. values_after rules (λ n. get_all-apply_rule rule h n i) o)

-- A client cannot forge the internal headers: whatever it sends, after the inbound rules the token
-- and instance headers and the fallback marker have no value, the path header has at most one, and
-- the original path is the path that is used: the last of the paths sent and restored.
pub apply_inbound-strips :
    (h : HeaderMap)
    → let h' = apply_inbound h in
      let path = only (
        kept_value retain_last
          (get_all h (codes ":path") ++ get_all h (codes "x-gpustack-fallback-path"))) in
      (get_all h' (codes "x-gpustack-auth-token") ≡ [])
      × (get_all h' (codes "x-gpustack-model-instance") ≡ [])
      × (get_all h' (codes "x-gpustack-fallback-path") ≡ [])
      × (get_all h' (codes "x-gpustack-model") ≡ [])
      × (get_all h' (codes ":path") ≡ path)
      × (get_all h' (codes "x-gpustack-original-path") ≡ path)
      × (get_all h' (codes "x-higress-llm-model")
          ≡ only (
              kept_value retain_first
                (get_all h (codes "x-higress-llm-model") ++ get_all h (codes "x-gpustack-model"))))
unfolding apply_inbound str_eq to_ascii_lowercase
apply_inbound-strips h = (
  get_all-apply inbound h (codes "x-gpustack-auth-token"),
  get_all-apply inbound h (codes "x-gpustack-model-instance"),
  get_all-apply inbound h (codes "x-gpustack-fallback-path"),
  get_all-apply inbound h (codes "x-gpustack-model"),
  get_all-apply inbound h (codes ":path"),
  get_all-apply inbound h (codes "x-gpustack-original-path"),
  get_all-apply inbound h (codes "x-higress-llm-model"),
)
