-- ===== src/Transform/Outbound/Refinement.antt =====
-- The overlay against the map that the same operations would have changed.
use hygress.Common.{
  ◌≡◌, ◌≢◌, refl, ap, ◌∙◌, Str, str_eq, str_eq_iff, text_eq, to_ascii_lowercase, ascii_lower, ℕ,
  List, [], ◌∷◌, ◌++◌, Option, none, some, Bool, true, false, not, ◌&&◌, ◌||◌, if◌then◌else◌, All,
  arith, Bool-cases, inl, inr,
}
use hygress.Common.Dict.{lookup, HasDistinctKeys, lookup-insert, lookup-remove}
use hygress.Common.Entries.{
  upsert, changed, lookup-upsert, lookup-remove_first, remove_first-HasDistinctKeys,
  upsert-HasDistinctKeys, All-remove_first, All-upsert,
}
use hygress.Transform.{
  HeaderMap, header_key, get_all, contains_header, insert_header, append_header, remove_header,
}
use hygress.Transform.Outbound.{
  OutboundHeaders, over, has_name, drop_name, insert_over, append_over, remove_over, overlaid,
  overlay_ops,
}

ascii_lower-ascii_lower : (c : ℕ) → ascii_lower (ascii_lower c) ≡ ascii_lower c
ascii_lower-ascii_lower c = ground arith

pub header_key-header_key : (name : Str) → header_key (header_key name) ≡ header_key name
unfolding to_ascii_lowercase
header_key-header_key [] = refl
header_key-header_key (c ∷ s) =
    ap (λ d. d ∷ header_key (header_key s)) (ascii_lower-ascii_lower c)
    ∙ ap (λ t. ascii_lower c ∷ t) (header_key-header_key s)

abbrev pub IsWritten : Str × List Str → Type 0
IsWritten p = (header_key p.0 ≡ p.0) × (p.1 ≢ [])

-- A name is overridden at most once, with at least one value; all names are in lower case.
pub record IsOverlay (o : OutboundHeaders) : Type 0 where
  pub distinct : HasDistinctKeys o.overrides
  pub written : All IsWritten o.overrides
  pub lowered : All (λ n. header_key n ≡ n) o.removed

abbrev pub effective : OutboundHeaders → Str → Option (List Str)
effective o k =
    overlaid (lookup k o.overrides) (has_name k o.removed) (λ values. some values) none
      (lookup k o.base.map)

-- The map has what the overlay stands for.
pub record Tracks (o : OutboundHeaders) (h : HeaderMap) : Type 0 where
  pub overlay : IsOverlay o
  pub agree : (k : Str) → effective o k ≡ lookup k h.map

pub over-Tracks : (base : HeaderMap) → Tracks (over base) base
unfolding lookup has_name
over-Tracks base = record {
  overlay = record { distinct = tt; written = tt; lowered = tt };
  agree = λ k. refl;
}

has_name-drop_name :
    (key k : Str) (ns : List Str)
    → str_eq key k ≡ false
    → has_name k (drop_name key ns) ≡ has_name k ns
unfolding has_name drop_name
has_name-drop_name key k [] ne = refl
has_name-drop_name key k (n ∷ ns) ne =
    ground (arith, str_eq_iff n key, str_eq_iff key k, has_name-drop_name key k ns ne)

All-drop_name : (P : Str → Type 0) (key : Str) (ns : List Str) → All P ns → All P (drop_name key ns)
unfolding drop_name
All-drop_name P key [] h = tt
All-drop_name P key (n ∷ ns) (a, h) = ground (arith, All-drop_name P key ns h)

has_name-push :
    (key k : Str) (ns : List Str) → has_name k (ns ++ key ∷ []) ≡ (has_name k ns || str_eq key k)
unfolding has_name
has_name-push key k [] = ground arith
has_name-push key k (n ∷ ns) = ground (arith, has_name-push key k ns)

All-push :
    (P : Str → Type 0) (key : Str) (ns : List Str) → P key → All P ns → All P (ns ++ key ∷ [])
All-push P key [] p h = (p, tt)
All-push P key (n ∷ ns) p (a, h) = (a, All-push P key ns p h)

All-if :
    (P : Str → Type 0) (b : Bool) (xs ys : List Str)
    → All P xs
    → All P ys
    → All P (if b then xs else ys)
All-if P true xs ys h k = h
All-if P false xs ys h k = k

snoc-ne-nil : (vs : List Str) (v : Str) → vs ++ v ∷ [] ≢ []
snoc-ne-nil [] v h = cc
snoc-ne-nil (w ∷ vs) v h = cc

-- A name that gets values, and is no more removed.
abbrev written_over : OutboundHeaders → Str → (List Str → List Str) → List Str → OutboundHeaders
written_over o key f new = record o {
  removed = drop_name key o.removed;
  overrides = upsert key f new o.overrides;
}

effective-written_over :
    (o : OutboundHeaders) (key : Str) (f : List Str → List Str) (new : List Str) (k : Str)
    → effective (written_over o key f new) k
      ≡ (if str_eq key k then some (changed f new (lookup key o.overrides)) else effective o k)
effective-written_over o key f new k = elim (Bool-cases (str_eq key k)) [
  | inl e ↦ rw (lookup-upsert key k f new o.overrides) (rw e refl)
  | inr e ↦
      rw (lookup-upsert key k f new o.overrides)
        (rw e (rw (has_name-drop_name key k o.removed e) refl))
]

written_over-IsOverlay :
    (o : OutboundHeaders) (name : Str) (f : List Str → List Str) (new : List Str)
    → IsOverlay o
    → ((vs : List Str) → f vs ≢ [])
    → new ≢ []
    → IsOverlay (written_over o (header_key name) f new)
written_over-IsOverlay o name f new ok some_value some_new = record {
  distinct = upsert-HasDistinctKeys (header_key name) f new o.overrides ok.distinct;
  written =
      All-upsert IsWritten (header_key name) f new o.overrides (λ j v p. (p.0, some_value v))
        (header_key-header_key name, some_new) ok.written;
  lowered = All-drop_name (λ n. header_key n ≡ n) (header_key name) o.removed ok.lowered;
}

pub insert_over-Tracks :
    (o : OutboundHeaders) (h : HeaderMap) (name value : Str)
    → Tracks o h
    → Tracks (insert_over o name value) (insert_header h name value)
unfolding insert_over insert_header
insert_over-Tracks o h name value t = record {
  overlay =
      written_over-IsOverlay o name (λ vs. value ∷ []) (value ∷ []) t.overlay (λ vs e. cc)
        (λ e. cc);
  agree = λ k. ground (
    arith,
    effective-written_over o (header_key name) (λ vs. value ∷ []) (value ∷ []) k,
    lookup-insert (header_key name) k (value ∷ []) h.map,
    t.agree k,
  );
}

-- What an `append` finds.
appended :
    (o : OutboundHeaders) (h : HeaderMap) (name value : Str)
    → Tracks o h
    → changed
        (λ vs. vs ++ value ∷ [])
        (if has_name (header_key name) o.removed
          then value ∷ []
          else get_all o.base (header_key name) ++ value ∷ [])
        (lookup (header_key name) o.overrides)
      ≡ get_all h name ++ value ∷ []
unfolding get_all
appended o h name value t = ground (arith, t.agree (header_key name), header_key-header_key name)

pub append_over-Tracks :
    (o : OutboundHeaders) (h : HeaderMap) (name value : Str)
    → Tracks o h
    → Tracks (append_over o name value) (append_header h name value)
unfolding append_over append_header
append_over-Tracks o h name value t =
    let fresh =
      if has_name (header_key name) o.removed
      then value ∷ []
      else get_all o.base (header_key name) ++ value ∷ [] in
    let some_fresh : fresh ≢ [] = elim (Bool-cases (has_name (header_key name) o.removed)) [
      | inl e ↦ rw e (λ q. cc)
      | inr e ↦ rw e (snoc-ne-nil (get_all o.base (header_key name)) value)
    ] in
    record {
      overlay =
          written_over-IsOverlay o name (λ vs. vs ++ value ∷ []) fresh t.overlay
            (λ vs. snoc-ne-nil vs value) some_fresh;
      agree = λ k. ground (
        arith,
        effective-written_over o (header_key name) (λ vs. vs ++ value ∷ []) fresh k,
        lookup-insert (header_key name) k (get_all h name ++ value ∷ []) h.map,
        appended o h name value t,
        t.agree k,
      );
    }

pub remove_over-Tracks :
    (o : OutboundHeaders) (h : HeaderMap) (name : Str)
    → Tracks o h
    → Tracks (remove_over o name) (remove_header h name)
unfolding remove_over remove_header contains_header
remove_over-Tracks o h name t =
    let key = header_key name in
    record {
      overlay = record {
        distinct = remove_first-HasDistinctKeys key o.overrides t.overlay.distinct;
        written = All-remove_first IsWritten key o.overrides t.overlay.written;
        lowered =
            All-if (λ n. header_key n ≡ n)
              (contains_header o.base key && not (has_name key o.removed)) (o.removed ++ key ∷ [])
              o.removed
              (All-push (λ n. header_key n ≡ n) key o.removed (header_key-header_key name)
                t.overlay.lowered)
              t.overlay.lowered;
      };
      agree = λ k. ground (
        arith,
        header_key-header_key name,
        lookup-remove_first key k o.overrides t.overlay.distinct,
        has_name-push key k o.removed,
        str_eq_iff key k,
        lookup-remove key k h.map,
        t.agree k,
      );
    }
