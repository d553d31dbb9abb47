-- ===== src/RouteTable.antt =====
-- crates/hygress-core/src/config.rs, lines 754 to 1111, and crates/hygress-core/src/matcher.rs: the
-- runtime index of a snapshot's routes and the search in it. The precomputed digests of the SWRR
-- groups are not modelled.
pub mod Choice
pub mod MirrorChoice
pub mod Rows
pub mod Scan
pub mod Weights
use hygress.Common.{
  Str, codes, str_eq, text_eq, ℕ, zero, suc, ◌-◌, List, [], ◌∷◌, ◌++◌, Option, none, some, Bool,
  true, false, not, ◌&&◌, ◌||◌, ◌==◌, ltb, leb, if◌then◌else◌, is_empty, any, length, unwrap_or,
  get_elem?, remove_text,
}
use hygress.Common.Dict.{lookup, insert}
use hygress.Common.Int.{as_i32}
use hygress.Common.Results.{Result, ok, err, Error, ◌>>=◌, ok_or}
use hygress.Config.{ConfigData}
use hygress.Destination.{Destination, weight}
use hygress.Regex.{RegexEngine}
use hygress.Registry.{PreResolvedRegistry, precompute_registries}
use hygress.Route.{RouteRule, RouteKind, main, fallback, mirror, kind_eq, PathPred}
use hygress.Swrr.{SwrrCandidate}

unfoldable pub is_regex_metachar : ℕ → Bool
is_regex_metachar c = any (λ m. m == c) (codes "$.*+?()[]{}|\\")

-- The loop that removes `()` until nothing changes; the fuel `length s` is enough, since each
-- change shortens the text.
unfoldable pub strip_pairs : ℕ → Str → Str
strip_pairs zero s = s
strip_pairs (suc f) s =
    let next = remove_text (length s) (codes "()") s in
    let rest = strip_pairs f next in if str_eq next s then next else rest

unfoldable pub strip_empty_groups : Str → Str
unfolding strip_pairs
strip_empty_groups pattern =
    let s = remove_text (length pattern) (codes "(?:)") pattern in strip_pairs (length s) s

-- `take_while(|c| !is_regex_metachar(*c)).count()`.
unfoldable pub literal_prefix : Str → ℕ
literal_prefix [] = 0
literal_prefix (c ∷ s) = let rest = literal_prefix s in if is_regex_metachar c then 0 else suc rest

unfoldable pub literal_anchor_len : Str → ℕ
unfolding literal_prefix strip_empty_groups
literal_anchor_len pattern = literal_prefix (strip_empty_groups pattern)

abbrev pub full_match_pattern : Str → Str
full_match_pattern pattern = codes "^(?:" ++ pattern ++ codes ")$"

pub record RouteTable (R : RegexEngine) : Type 0 where
  pub routes : List RouteRule
  pub by_main_key : List (Str × List ℕ)
  pub by_fallback_key : List (Str × List ℕ)
  pub regexes : List (List R.Regex)
  pub anchors : List (List ℕ)
  pub mirror_index : Option ℕ
  pub swrr_candidates : List (List SwrrCandidate)
  pub destination_index : List (List (Str × ℕ))
  pub registry_index : List (Str × Result Error PreResolvedRegistry)

pub data MatchKind : Type 0 where
  header_exact fallback_exact mirror_kind : MatchKind

pub record RouteMatch : Type 0 where
  pub index : ℕ
  pub matched_by : MatchKind
  pub matched_predicate : Option ℕ

-- `entry(key).or_default().push(r)`.
unfoldable pub push_index : Str → ℕ → List (Str × List ℕ) → List (Str × List ℕ)
push_index key r m = insert key (unwrap_or (lookup key m) [] ++ r ∷ []) m

abbrev pub first_index : Bool → ℕ → Option ℕ → Option ℕ
first_index is_mirror r (some m) = some m
first_index is_mirror r none = if is_mirror then some r else none

unfoldable pub candidates_of : List Destination → List SwrrCandidate
candidates_of [] = []
candidates_of (d ∷ ds) = record { id = d.service; weight = as_i32 (weight d) } ∷ candidates_of ds

-- A later destination with the same service takes the place of an earlier one.
unfoldable pub index_destinations : ℕ → List (Str × ℕ) → List Destination → List (Str × ℕ)
index_destinations i m [] = m
index_destinations i m (d ∷ ds) = index_destinations (suc i) (insert d.service i m) ds

module _ (R : RegexEngine) where
  unfoldable pub compile_predicates : List PathPred → Result Error (List R.Regex)
  compile_predicates [] = ok []
  compile_predicates (p ∷ ps) = do
    re ← ok_or (R.build (full_match_pattern p.regex) p.ignore_case) Error.parse_error
    rest ← compile_predicates ps
    ok (re ∷ rest)

  unfoldable pub anchors_of : List PathPred → List ℕ
  anchors_of [] = []
  anchors_of (p ∷ ps) = literal_anchor_len p.regex ∷ anchors_of ps

  -- The body of the loop for the route `r` with its compiled predicates.
  unfoldable pub add_route : ℕ → RouteRule → List R.Regex → RouteTable R → RouteTable R
  add_route r route compiled t = record t {
    by_main_key =
        if not (is_empty route.key) && kind_eq route.kind main
        then push_index route.key r t.by_main_key
        else t.by_main_key;
    by_fallback_key =
        if not (is_empty route.key) && kind_eq route.kind fallback
        then push_index route.key r t.by_fallback_key
        else t.by_fallback_key;
    regexes = t.regexes ++ compiled ∷ [];
    anchors = t.anchors ++ anchors_of route.path_predicates ∷ [];
    mirror_index = first_index (kind_eq route.kind mirror) r t.mirror_index;
    swrr_candidates = t.swrr_candidates ++ candidates_of route.destinations ∷ [];
    destination_index = t.destination_index ++ index_destinations 0 [] route.destinations ∷ [];
  }

  unfoldable pub add_routes : ℕ → List RouteRule → RouteTable R → Result Error (RouteTable R)
  add_routes r [] t = ok t
  add_routes r (route ∷ rs) t = do
    compiled ← compile_predicates route.path_predicates
    add_routes (suc r) rs (add_route r route compiled t)

  abbrev pub empty_table :
      List RouteRule → List (Str × Result Error PreResolvedRegistry) → RouteTable R
  empty_table routes registry_index = record {
    routes = routes;
    by_main_key = [];
    by_fallback_key = [];
    regexes = [];
    anchors = [];
    mirror_index = none;
    swrr_candidates = [];
    destination_index = [];
    registry_index = registry_index;
  }

  unfoldable pub rebuild : {Rest : Type 0} → ConfigData Rest → Result Error (RouteTable R)
  rebuild snapshot =
      add_routes 0 snapshot.routes
        (empty_table snapshot.routes (precompute_registries snapshot.registries snapshot.proxies))

  -- `best.is_none_or(|(ba, _)| anchor > ba)`.
  abbrev pub better : Option (ℕ × ℕ) → ℕ → Bool
  better none anchor = true
  better (some (a, _)) anchor = ltb a anchor

  abbrev pub pred_index : Option (ℕ × ℕ) → Option ℕ
  pred_index none = none
  pred_index (some (_, i)) = some i

  -- The loop of `best_predicate`: `i` is the index of the head of what is left.
  unfoldable pub best_from :
      Bool → Str → List ℕ → ℕ → Option (ℕ × ℕ) → List R.Regex → Option (ℕ × ℕ)
  best_from is_mirror path anchors i best [] = best
  best_from is_mirror path anchors i best (re ∷ res) =
      let anchor = unwrap_or (get_elem? anchors i) 0 in
      let take_it = best_from is_mirror path anchors (suc i) (some (anchor, i)) res in
      let leave_it = best_from is_mirror path anchors (suc i) best res in
      if (is_mirror || R.is_match re path) && better best anchor then take_it else leave_it

  abbrev pub is_mirror_at : Option RouteRule → Bool
  is_mirror_at none = false
  is_mirror_at (some r) = kind_eq r.kind mirror

  -- The source indexes the three vectors, which are as long as the routes.
  unfoldable pub best_predicate : RouteTable R → ℕ → Str → Option ℕ
  best_predicate t r path = pred_index (
      best_from (is_mirror_at (get_elem? t.routes r)) path (unwrap_or (get_elem? t.anchors r) []) 0
        none (unwrap_or (get_elem? t.regexes r) []))

  -- `max_by_key` returns the last of several largest.
  unfoldable pub last_longest : List ℕ → ℕ → ℕ → ℕ → List R.Regex → ℕ
  last_longest anchors i best_anchor best [] = best
  last_longest anchors i best_anchor best (re ∷ res) =
      let anchor = unwrap_or (get_elem? anchors i) 0 in
      let take_it = last_longest anchors (suc i) anchor i res in
      let leave_it = last_longest anchors (suc i) best_anchor best res in
      if leb best_anchor anchor then take_it else leave_it

  abbrev pub mirror_predicate : List ℕ → List R.Regex → Option ℕ
  mirror_predicate anchors [] = none
  mirror_predicate anchors (re ∷ res) = some (last_longest anchors 0 0 0 (re ∷ res))

  abbrev pub mirror_at : RouteTable R → Option ℕ → Option RouteMatch
  mirror_at t none = none
  mirror_at t (some m) = some (record {
    index = m;
    matched_by = mirror_kind;
    matched_predicate =
        mirror_predicate (unwrap_or (get_elem? t.anchors m) [])
          (unwrap_or (get_elem? t.regexes m) []);
  })

  unfoldable pub mirror_match : RouteTable R → Option RouteMatch
  mirror_match t = mirror_at t t.mirror_index

  abbrev pub match_at : MatchKind → ℕ → Option ℕ → Option RouteMatch → Option RouteMatch
  match_at kind r none otherwise = otherwise
  match_at kind r (some pred) otherwise =
      some (record { index = r; matched_by = kind; matched_predicate = some pred })

  -- The loop over the indices of a key, and the mirror after it.
  unfoldable pub first_match : MatchKind → RouteTable R → Str → List ℕ → Option RouteMatch
  first_match kind t path [] = mirror_match t
  first_match kind t path (r ∷ rs) =
      match_at kind r (best_predicate t r path) (first_match kind t path rs)

  abbrev pub indices_at : List (Str × List ℕ) → Option Str → List ℕ
  indices_at m none = []
  indices_at m (some key) = unwrap_or (lookup key m) []

  unfoldable pub find_match : RouteTable R → Option Str → Str → Option RouteMatch
  find_match t model_key path = first_match header_exact t path (indices_at t.by_main_key model_key)

  unfoldable pub find_match_fallback : RouteTable R → Option Str → Str → Option RouteMatch
  find_match_fallback t fallback_from path =
      first_match fallback_exact t path (indices_at t.by_fallback_key fallback_from)

  abbrev destination_at : Option RouteRule → Option ℕ → Option Destination
  destination_at none i = none
  destination_at (some r) none = none
  destination_at (some r) (some i) = get_elem? r.destinations i

  unfoldable pub destination_for_service : RouteTable R → ℕ → Str → Option Destination
  destination_for_service t index service_id =
      destination_at (get_elem? t.routes index)
        (lookup service_id (unwrap_or (get_elem? t.destination_index index) []))

  abbrev group_texts : List (Option Str) → List Str
  group_texts [] = []
  group_texts (g ∷ gs) = unwrap_or g [] ∷ group_texts gs

  -- The groups after the whole match.
  abbrev numbered_groups : Option (List (Option Str)) → List Str
  numbered_groups none = []
  numbered_groups (some []) = []
  numbered_groups (some (_ ∷ gs)) = group_texts gs

  abbrev captures_at : Option R.Regex → Str → List Str
  captures_at none path = []
  captures_at (some re) path = numbered_groups (R.captures re path)

  unfoldable pub capture_groups_for : RouteTable R → ℕ → ℕ → Str → List Str
  capture_groups_for t route_index predicate_index path =
      captures_at (get_elem? (unwrap_or (get_elem? t.regexes route_index) []) predicate_index) path
