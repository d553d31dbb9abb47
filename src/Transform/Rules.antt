-- ===== src/Transform/Rules.antt =====
-- `TransformRule` and `Transformer` of crates/hygress-core/src/transform.rs, and
-- crates/hygress-gateway/src/pipeline/transformer.rs.
use hygress.Common.{
  Str, codes, List, [], ◌∷◌, Option, none, some, ltb, if◌then◌else◌, length, unwrap_or,
}
use hygress.Transform.{HeaderMap, get_all, insert_header, append_header, remove_header}

pub record HeaderOps (H : Type 0) : Type 0 where
  pub header_get_all : H → Str → List Str
  pub header_insert : H → Str → Str → H
  pub header_append : H → Str → Str → H
  pub header_remove : H → Str → H

instance abbrev pub header_map_ops : HeaderOps HeaderMap
header_map_ops = record {
  header_get_all = get_all;
  header_insert = insert_header;
  header_append = append_header;
  header_remove = remove_header;
}

pub data TransformOp : Type 0 where
  remove rename dedupe backup skip : TransformOp

pub data RetainMode : Type 0 where
  retain_first retain_last : RetainMode

pub record TransformRule : Type 0 where
  pub op : TransformOp
  pub source : Str
  pub dest : Option Str
  pub mode : Option RetainMode

abbrev pub remove_rule : Str → TransformRule
remove_rule source = record { op = remove; source = source; dest = none; mode = none }

abbrev pub rename_rule : Str → Str → TransformRule
rename_rule source dest = record { op = rename; source = source; dest = some dest; mode = none }

abbrev pub dedupe_rule : Str → RetainMode → TransformRule
dedupe_rule source mode = record { op = dedupe; source = source; dest = none; mode = some mode }

abbrev pub backup_rule : Str → Str → TransformRule
backup_rule source dest = record { op = backup; source = source; dest = some dest; mode = none }

abbrev pub skip_rule : Str → TransformRule
skip_rule source = record { op = skip; source = source; dest = none; mode = none }

abbrev pub inbound : List TransformRule
inbound =
    remove_rule (codes "x-gpustack-auth-token")
    ∷ remove_rule (codes "x-gpustack-model-instance")
    ∷ remove_rule (codes "x-gpustack-original-path")
    ∷ rename_rule (codes "x-gpustack-model") (codes "x-higress-llm-model")
    ∷ rename_rule (codes "x-gpustack-fallback-path") (codes ":path")
    ∷ dedupe_rule (codes "x-gpustack-model") retain_first
    ∷ dedupe_rule (codes "x-higress-llm-model") retain_first
    ∷ dedupe_rule (codes ":path") retain_last
    ∷ backup_rule (codes ":path") (codes "x-gpustack-original-path")
    ∷ remove_rule (codes "x-gpustack-fallback-path")
    ∷ []

abbrev pub outbound : List TransformRule
outbound =
    dedupe_rule (codes "x-gpustack-model-instance") retain_first
    ∷ dedupe_rule (codes "x-gpustack-route-name") retain_first
    ∷ skip_rule (codes "x-gpustack-model-instance")
    ∷ skip_rule (codes "x-gpustack-route-name")
    ∷ []

-- `values.first().cloned()` and `values.last().cloned()`.
abbrev pub first_of : List Str → Option Str
first_of [] = none
first_of (v ∷ vs) = some v

abbrev pub last_of : List Str → Option Str
last_of [] = none
last_of (v ∷ []) = some v
last_of (v ∷ w ∷ vs) = last_of (w ∷ vs)

abbrev pub kept_value : RetainMode → List Str → Option Str
kept_value retain_first vs = first_of vs
kept_value retain_last vs = last_of vs

module _ {H : Type 0} ⦃ops : HeaderOps H⦄ where
  unfoldable pub append_values : H → Str → List Str → H
  append_values h dest [] = h
  append_values h dest (v ∷ vs) = append_values (ops.header_append h dest v) dest vs

  abbrev pub copy_to : H → Str → Option Str → H
  copy_to h source none = h
  copy_to h source (some dest) = append_values h dest (ops.header_get_all h source)

  abbrev pub move_to : H → Str → Option Str → H
  move_to h source none = h
  move_to h source (some dest) = ops.header_remove (copy_to h source (some dest)) source

  abbrev pub keep_one : H → Str → Option Str → H
  keep_one h source none = ops.header_remove h source
  keep_one h source (some v) = ops.header_insert h source v

  -- The body of the loop of `apply`.
  abbrev pub apply_op : TransformOp → Str → Option Str → Option RetainMode → H → H
  apply_op remove s d m h = ops.header_remove h s
  apply_op rename s d m h = move_to h s d
  apply_op dedupe s d m h =
      let values = ops.header_get_all h s in
      if ltb 1 (length values)
      then keep_one h s (kept_value (unwrap_or m retain_first) values)
      else h
  apply_op backup s d m h = copy_to h s d
  apply_op skip s d m h = h

  unfoldable pub apply_rule : TransformRule → H → H
  apply_rule rule h = apply_op rule.op rule.source rule.dest rule.mode h

  unfoldable pub apply : List TransformRule → H → H
  apply [] h = h
  apply (rule ∷ rules) h = apply rules (apply_rule rule h)

  unfoldable pub apply_outbound : H → H
  apply_outbound h = apply outbound h

unfoldable pub apply_inbound : HeaderMap → HeaderMap
apply_inbound h = apply inbound h
