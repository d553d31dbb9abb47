-- ===== src/RouteTable/Scan.antt =====
-- The searches in the table against a scan of the routes in their order.
use hygress.Common.{
  ◌≡◌, refl, ap, ◌∙◌, Str, ℕ, suc, List, [], ◌∷◌, Option, none, some, true, false, if◌then◌else◌,
  unwrap_or, get_elem?, arith, Bool-cases, inl, inr,
}
use hygress.Common.Dict.{lookup}
use hygress.Common.Results.{ok}
use hygress.Config.{ConfigData}
use hygress.Regex.{RegexEngine}
use hygress.Route.{RouteRule, RouteKind, main, fallback, mirror, kind_eq}
use hygress.RouteTable.{
  RouteTable, RouteMatch, MatchKind, header_exact, fallback_exact, mirror_kind, best_predicate,
  mirror_predicate, mirror_match, mirror_at, match_at, pred_index, first_match, find_match,
  find_match_fallback, rebuild,
}
use hygress.RouteTable.Choice.{number_of, pred_index-number_of, choice, best_from-prefer}
use hygress.RouteTable.MirrorChoice.{last_choice, mirror_predicate-last_choice}
use hygress.RouteTable.Rows.{
  has_key, indices, mirror_number, IsRow, AreRows, add_routes-IsIndexed, add_routes-AreRows,
}

kind_eq-mirror :
    (a b : RouteKind) → kind_eq a b ≡ true → kind_eq b mirror ≡ false → kind_eq a mirror ≡ false
kind_eq-mirror main b h k = refl
kind_eq-mirror fallback b h k = refl
kind_eq-mirror mirror main h k = absurd (ground arith)
kind_eq-mirror mirror fallback h k = absurd (ground arith)
kind_eq-mirror mirror mirror h k = k

has_key-kind :
    (kind : RouteKind) (key : Str) (r : RouteRule)
    → has_key kind key r ≡ true
    → kind_eq r.kind kind ≡ true
has_key-kind kind key r h = ground arith

-- A route whose predicate is chosen, and what comes after it.
abbrev pub found : MatchKind → ℕ → Option ℕ → Option RouteMatch → Option RouteMatch
found how i none later = later
found how i (some pred) later =
    some (record { index = i; matched_by = how; matched_predicate = some pred })

match_at-found :
    (R : RegexEngine) (how : MatchKind) (i : ℕ) (pred : Option ℕ) (later : Option RouteMatch)
    → match_at R how i pred later ≡ found how i pred later
match_at-found R how i none later = refl
match_at-found R how i (some pred) later = refl

module _ (R : RegexEngine) where
  -- The first mirror among the routes, with the last of its predicates whose literal prefix is
  -- longest; the first
  -- route has the number `i`.
  unfoldable pub scan_mirror : ℕ → List RouteRule → Option RouteMatch
  scan_mirror i [] = none
  scan_mirror i (r ∷ rs) =
      let rest = scan_mirror (suc i) rs in
      if kind_eq r.kind mirror
      then some (record {
        index = i;
        matched_by = mirror_kind;
        matched_predicate = number_of (last_choice 0 r.path_predicates);
      })
      else rest

  -- The first of the routes of the kind and key with a predicate that matches the path, with the
  -- first of these whose literal prefix is longest, and `otherwise` where there is none.
  unfoldable pub scan_from :
      RouteKind → MatchKind → Option RouteMatch → Str → Str → ℕ → List RouteRule → Option RouteMatch
  scan_from kind how otherwise key path i [] = otherwise
  scan_from kind how otherwise key path i (r ∷ rs) =
      let rest = scan_from kind how otherwise key path (suc i) rs in
      if has_key kind key r
      then found how i (number_of (choice R path 0 r.path_predicates)) rest
      else rest

  abbrev pub scan : RouteKind → MatchKind → Str → Str → List RouteRule → Option RouteMatch
  scan kind how key path routes = scan_from kind how (scan_mirror 0 routes) key path 0 routes

  best_predicate-choice :
      (u : RouteTable R) (i : ℕ) (r : RouteRule) (path : Str)
      → IsRow R u i r
      → kind_eq r.kind mirror ≡ false
      → best_predicate R u i path ≡ number_of (choice R path 0 r.path_predicates)
  unfolding best_predicate
  best_predicate-choice u i r path row ordinary =
      rw (row.route_at, row.anchors_at, row.regexes_at, ordinary)
        (ap (pred_index R)
            (best_from-prefer R path r.path_predicates [] 0 none row.regexes refl row.compiled)
          ∙ pred_index-number_of R (choice R path 0 r.path_predicates))

  mirror_at-scan_mirror :
      (u : RouteTable R) (i : ℕ) (rs : List RouteRule)
      → AreRows R u i rs
      → mirror_at R u (mirror_number i rs) ≡ scan_mirror i rs
  unfolding mirror_number scan_mirror
  mirror_at-scan_mirror u i [] rows = refl
  mirror_at-scan_mirror u i (r ∷ rs) (row, rows) = elim (Bool-cases (kind_eq r.kind mirror)) [
    | inl e ↦
        let at : mirror_predicate R (unwrap_or (get_elem? u.anchors i) [])
              (unwrap_or (get_elem? u.regexes i) [])
            ≡ number_of (last_choice 0 r.path_predicates) =
          rw (row.anchors_at, row.regexes_at)
            (mirror_predicate-last_choice R r.path_predicates row.regexes row.compiled) in
        rw (e, at) refl
    | inr e ↦ rw e (mirror_at-scan_mirror u (suc i) rs rows)
  ]

  first_match-indices :
      (kind : RouteKind) (how : MatchKind) (u : RouteTable R) (key path : Str) (i : ℕ)
      (rs : List RouteRule)
      → kind_eq kind mirror ≡ false
      → AreRows R u i rs
      → first_match R how u path (indices kind key i rs)
        ≡ scan_from kind how (mirror_match R u) key path i rs
  unfolding first_match indices scan_from
  first_match-indices kind how u key path i [] ordinary rows = refl
  first_match-indices kind how u key path i (r ∷ rs) ordinary (row, rows) =
      let rest = first_match-indices kind how u key path (suc i) rs ordinary rows in
      elim (Bool-cases (has_key kind key r)) [
        | inl e ↦
            let best =
              best_predicate-choice u i r path row
                (kind_eq-mirror r.kind kind (has_key-kind kind key r e) ordinary) in
            rw (e, best, rest)
              (match_at-found R how i (number_of (choice R path 0 r.path_predicates))
                (scan_from kind how (mirror_match R u) key path (suc i) rs))
        | inr e ↦ rw e rest
      ]

module _ {Rest : Type 0} (R : RegexEngine) (snapshot : ConfigData Rest) (t : RouteTable R)
    (key path : Str) (built : rebuild R snapshot ≡ ok t) where
  snapshot_rows : AreRows R t 0 snapshot.routes
  unfolding rebuild
  snapshot_rows = add_routes-AreRows R [] snapshot.routes 0 _ t built refl refl refl refl

  mirror_match-scan_mirror : mirror_match R t ≡ scan_mirror R 0 snapshot.routes
  unfolding rebuild mirror_match
  mirror_match-scan_mirror =
      ap (mirror_at R t) (add_routes-IsIndexed R 0 snapshot.routes _ t built).first_mirror
      ∙ mirror_at-scan_mirror R t 0 snapshot.routes snapshot_rows

  -- In the table built from a snapshot, an initial request with a model key gets the first Main
  -- route of the snapshot with that key, not empty, that has a predicate which matches the path,
  -- with the first of these whose literal prefix is longest, and otherwise the snapshot's first
  -- mirror, with the last of its predicates whose literal prefix is longest.
  pub find_match-scan :
      find_match R t (some key) path ≡ scan R main header_exact key path snapshot.routes
  unfolding rebuild find_match lookup
  find_match-scan =
      ap (first_match R header_exact t path)
        ((add_routes-IsIndexed R 0 snapshot.routes _ t built).by_main key)
      ∙ first_match-indices R main header_exact t key path 0 snapshot.routes refl snapshot_rows
      ∙ ap (λ o. scan_from R main header_exact o key path 0 snapshot.routes)
          mirror_match-scan_mirror

  -- A fallback redirect gets the first Fallback route of the snapshot with the redirect's key in
  -- the same way, and otherwise the same mirror.
  pub find_match_fallback-scan :
      find_match_fallback R t (some key) path
      ≡ scan R fallback fallback_exact key path snapshot.routes
  unfolding rebuild find_match_fallback lookup
  find_match_fallback-scan =
      ap (first_match R fallback_exact t path)
        ((add_routes-IsIndexed R 0 snapshot.routes _ t built).by_fallback key)
      ∙ first_match-indices R fallback fallback_exact t key path 0 snapshot.routes refl
          snapshot_rows
      ∙ ap (λ o. scan_from R fallback fallback_exact o key path 0 snapshot.routes)
          mirror_match-scan_mirror
