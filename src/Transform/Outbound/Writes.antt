-- ===== src/Transform/Outbound/Writes.antt =====
-- Any sequence of writes and rules on an overlay, read back.
use hygress.Common.{
  ◌≡◌, ◌≢◌, refl, ap, ◌∙◌, Str, str_eq, str_eq_iff, str_eq_refl, text_eq, List, [], ◌∷◌, ◌++◌,
  append_assoc, append-nil, Option, none, some, Bool, true, false, if◌then◌else◌, is_empty, length,
  ltb, unwrap_or, All, arith,
}
use hygress.Common.Dict.{lookup, HasDistinctKeys, lookup-insert, lookup-remove, lookup_of_Lacks}
use hygress.Transform.{
  HeaderMap, header_key, get_all, get_header, contains_header, insert_header, append_header,
  remove_header,
}
use hygress.Transform.Rules.{
  HeaderOps, header_map_ops, TransformOp, remove, rename, dedupe, backup, skip, RetainMode,
  TransformRule, append_values, keep_one, kept_value, retain_first, apply_op, apply_rule, apply,
}
use hygress.Transform.Outbound.{
  OutboundHeaders, over, has_name, overlaid, get_over, get_all_over, contains_over, append_over,
  without_names, write_values, with_overrides, materialize, overlay_ops,
}
use hygress.Transform.Outbound.Refinement.{
  IsWritten, IsOverlay, Tracks, effective, over-Tracks, insert_over-Tracks, append_over-Tracks,
  remove_over-Tracks, header_key-header_key,
}

-- Every read gives what the map has.
pub Tracks-reads :
    (o : OutboundHeaders) (h : HeaderMap) (name : Str)
    → Tracks o h
    → (get_all_over o name ≡ get_all h name)
      × (get_over o name ≡ get_header h name)
      × (contains_over o name ≡ contains_header h name)
unfolding get_all_over get_over contains_over get_all get_header contains_header
Tracks-reads o h name t = (
  ground (arith, t.agree (header_key name), header_key-header_key name),
  ground (arith, t.agree (header_key name), header_key-header_key name),
  ground (arith, t.agree (header_key name), header_key-header_key name),
)

append_values-Tracks :
    (vs : List Str) (o : OutboundHeaders) (h : HeaderMap) (dest : Str)
    → Tracks o h
    → Tracks (append_values o dest vs) (append_values h dest vs)
unfolding append_values
append_values-Tracks [] o h dest t = t
append_values-Tracks (v ∷ vs) o h dest t =
    append_values-Tracks vs (append_over o dest v) (append_header h dest v) dest
      (append_over-Tracks o h dest v t)

keep_one-Tracks :
    (o : OutboundHeaders) (h : HeaderMap) (s : Str) (kept : Option Str)
    → Tracks o h
    → Tracks (keep_one o s kept) (keep_one h s kept)
keep_one-Tracks o h s none t = remove_over-Tracks o h s t
keep_one-Tracks o h s (some v) t = insert_over-Tracks o h s v t

Tracks-if :
    (b : Bool) (o : OutboundHeaders) (h : HeaderMap) {o' : OutboundHeaders} {h' : HeaderMap}
    → Tracks o h
    → Tracks o' h'
    → Tracks (if b then o' else o) (if b then h' else h)
Tracks-if true o h t t' = t'
Tracks-if false o h t t' = t

apply_op-Tracks :
    (op : TransformOp) (s : Str) (d : Option Str) (m : Option RetainMode) (o : OutboundHeaders)
    (h : HeaderMap)
    → Tracks o h
    → Tracks (apply_op op s d m o) (apply_op op s d m h)
apply_op-Tracks remove s d m o h t = remove_over-Tracks o h s t
apply_op-Tracks rename s none m o h t = t
apply_op-Tracks rename s (some d) m o h t = rw ((Tracks-reads o h s t).0) (
    remove_over-Tracks (append_values o d (get_all h s)) (append_values h d (get_all h s)) s
      (append_values-Tracks (get_all h s) o h d t))
apply_op-Tracks dedupe s d m o h t = rw ((Tracks-reads o h s t).0) (
    Tracks-if (ltb 1 (length (get_all h s))) o h t
      (keep_one-Tracks o h s (kept_value (unwrap_or m retain_first) (get_all h s)) t))
apply_op-Tracks backup s none m o h t = t
apply_op-Tracks backup s (some d) m o h t =
    rw ((Tracks-reads o h s t).0) (append_values-Tracks (get_all h s) o h d t)
apply_op-Tracks skip s d m o h t = t

-- What a candidate does to the headers.
pub data Write : Type 0 where
  insertion addition : Str → Str → Write
  removal : Str → Write
  rules : List TransformRule → Write

module _ {H : Type 0} ⦃ops : HeaderOps H⦄ where
  abbrev pub write : Write → H → H
  write (insertion name value) h = ops.header_insert h name value
  write (addition name value) h = ops.header_append h name value
  write (removal name) h = ops.header_remove h name
  write (rules rs) h = apply rs h

  abbrev pub write_all : List Write → H → H
  write_all [] h = h
  write_all (w ∷ ws) h = write_all ws (write w h)

pub apply-Tracks :
    (rs : List TransformRule) (o : OutboundHeaders) (h : HeaderMap)
    → Tracks o h
    → Tracks (apply rs o) (apply rs h)
unfolding apply apply_rule
apply-Tracks [] o h t = t
apply-Tracks (r ∷ rs) o h t =
    apply-Tracks rs (apply_rule r o) (apply_rule r h)
      (apply_op-Tracks r.op r.source r.dest r.mode o h t)

write-Tracks :
    (w : Write) (o : OutboundHeaders) (h : HeaderMap) → Tracks o h → Tracks (write w o) (write w h)
write-Tracks (insertion name value) o h t = insert_over-Tracks o h name value t
write-Tracks (addition name value) o h t = append_over-Tracks o h name value t
write-Tracks (removal name) o h t = remove_over-Tracks o h name t
write-Tracks (rules rs) o h t = apply-Tracks rs o h t

pub write_all-Tracks :
    (ws : List Write) (o : OutboundHeaders) (h : HeaderMap)
    → Tracks o h
    → Tracks (write_all ws o) (write_all ws h)
write_all-Tracks [] o h t = t
write_all-Tracks (w ∷ ws) o h t = write_all-Tracks ws (write w o) (write w h) (write-Tracks w o h t)

-- Materializing the overlay.
lookup-without_names :
    (k : Str) (ns : List Str) (m : HeaderMap)
    → All (λ n. header_key n ≡ n) ns
    → lookup k (without_names m ns).map ≡ (if has_name k ns then none else lookup k m.map)
unfolding without_names has_name remove_header contains_header
lookup-without_names k [] m h = refl
lookup-without_names k (n ∷ ns) m (low, h) = ground (
  arith,
  low,
  str_eq_iff n k,
  lookup-remove n k m.map,
  lookup-without_names k ns (if contains_header m n then remove_header m n else m) h,
)

lookup-append_header :
    (k v : Str) (ws : List Str) (name : Str) (m : HeaderMap)
    → header_key name ≡ name
    → lookup name m.map ≡ some ws
    → lookup k (append_header m name v).map
      ≡ (if str_eq name k then some (ws ++ v ∷ []) else lookup k m.map)
unfolding append_header get_all
lookup-append_header k v ws name m low h = rw low (rw h (lookup-insert name k (ws ++ v ∷ []) m.map))

lookup-append_values :
    (k : Str) (vs ws : List Str) (name : Str) (m : HeaderMap)
    → header_key name ≡ name
    → lookup name m.map ≡ some ws
    → lookup k (append_values m name vs).map
      ≡ (if str_eq name k then some (ws ++ vs) else lookup k m.map)
unfolding append_values
lookup-append_values k [] ws name m low h = ground (arith, str_eq_iff name k, append-nil ws)
lookup-append_values k (v ∷ vs) ws name m low h =
    let now = lookup-append_header name v ws name m low h in
    ground (
      arith,
      lookup-append_header k v ws name m low h,
      lookup-append_values k vs (ws ++ v ∷ []) name (append_header m name v) low
          (rw (str_eq_refl name) at now),
      append_assoc ws (v ∷ []) vs,
    )

lookup-write_values :
    (k : Str) (vs : List Str) (name : Str) (m : HeaderMap)
    → header_key name ≡ name
    → vs ≢ []
    → lookup k (write_values m name vs).map ≡ (if str_eq name k then some vs else lookup k m.map)
unfolding insert_header
lookup-write_values k [] name m low some_value = absurd (some_value refl)
lookup-write_values k (v ∷ vs) name m low some_value =
    let h = insert_header m name v in
    let now : (j : Str)
        → lookup j h.map ≡ (if str_eq name j then some (v ∷ []) else lookup j m.map) =
      λ j. rw low (lookup-insert name j (v ∷ []) m.map) in
    let here = now name in
    ground
      (arith, now k, lookup-append_values k vs (v ∷ []) name h low (rw (str_eq_refl name) at here))

lookup-with_overrides :
    (k : Str) (ovs : List (Str × List Str)) (m : HeaderMap)
    → HasDistinctKeys ovs
    → All IsWritten ovs
    → lookup k (with_overrides m ovs).map
      ≡ overlaid (lookup k ovs) false (λ values. some values) none (lookup k m.map)
unfolding with_overrides lookup
lookup-with_overrides k [] m d w = refl
lookup-with_overrides k ((name, values) ∷ rest) m (lacks, d) ((low, some_value), w) = ground (
  arith,
  str_eq_iff name k,
  lookup_of_Lacks name rest lacks,
  lookup-write_values k values name m low some_value,
  lookup-with_overrides k rest (write_values m name values) d w,
)

skip_empty :
    (ns : List Str) (m : HeaderMap)
    → (if is_empty ns then m else without_names m ns) ≡ without_names m ns
unfolding without_names
skip_empty [] m = refl
skip_empty (n ∷ ns) m = refl

lookup-materialize :
    (k : Str) (o : OutboundHeaders) → IsOverlay o → lookup k (materialize o).map ≡ effective o k
unfolding materialize
lookup-materialize k o ok = rw (skip_empty o.removed o.base) (
    ground (
      arith,
      lookup-without_names k o.removed o.base ok.lowered,
      lookup-with_overrides k o.overrides (without_names o.base o.removed) ok.distinct ok.written,
    ))

-- Whatever a candidate writes over a shared map, every name reads as it would on its own copy of
-- the map, in the overlay and in the map that is materialized from it.
pub materialize-write_all :
    (ws : List Write) (base : HeaderMap) (name : Str)
    → let o = write_all ws (over base) in
      let h = write_all ws base in
      (get_all (materialize o) name ≡ get_all h name)
      × (get_all_over o name ≡ get_all h name)
      × (get_over o name ≡ get_header h name)
      × (contains_over o name ≡ contains_header h name)
unfolding get_all
materialize-write_all ws base name =
    let o = write_all ws (over base) in
    let h = write_all ws base in
    let t = write_all-Tracks ws (over base) base (over-Tracks base) in
    let whole = lookup-materialize (header_key name) o t.overlay ∙ t.agree (header_key name) in
    let reads = Tracks-reads o h name t in
    (ap (λ r. unwrap_or r []) whole, reads.0, reads.1, reads.2)
