-- ===== src/RouteTable/Rows.antt =====
-- What the table holds after the loop: for a key the numbers of its routes, for a route its own row.
use hygress.Common.{
  ◌≡◌, refl, sym, ap, ◌∙◌, subst, Str, str_eq, str_eq_iff, text_eq, ℕ, suc, ◌<◌, List, [], ◌∷◌,
  ◌++◌, append_assoc, append-nil, Option, none, some, Bool, true, false, not, ◌&&◌, if◌then◌else◌,
  is_empty, unwrap_or, length, length-append, get_elem?, get_elem?-length, get_elem?-append, arith,
}
use hygress.Common.Dict.{lookup, lookup-insert}
use hygress.Common.Results.{ok, >>=-ok}
use hygress.Regex.{RegexEngine}
use hygress.Route.{RouteRule, RouteKind, main, fallback, mirror, kind_eq}
use hygress.RouteTable.{
  RouteTable, push_index, first_index, anchors_of, compile_predicates, add_route, add_routes,
}
use hygress.RouteTable.Choice.{ok-injective}

-- A route of the kind whose key is the given one and not empty.
abbrev pub has_key : RouteKind → Str → RouteRule → Bool
has_key kind key r = not (is_empty r.key) && kind_eq r.kind kind && str_eq r.key key

-- The numbers of those routes, in their order, the first route having the number `i`.
unfoldable pub indices : RouteKind → Str → ℕ → List RouteRule → List ℕ
indices kind key i [] = []
indices kind key i (r ∷ rs) =
    let rest = indices kind key (suc i) rs in if has_key kind key r then i ∷ rest else rest

abbrev at_key : Str → List (Str × List ℕ) → List ℕ
at_key key m = unwrap_or (lookup key m) []

at_key-push_index :
    (key j : Str) (r : ℕ) (m : List (Str × List ℕ))
    → at_key j (push_index key r m) ≡ (if str_eq key j then at_key j m ++ r ∷ [] else at_key j m)
unfolding push_index
at_key-push_index key j r m =
    ground (arith, lookup-insert key j (at_key key m ++ r ∷ []) m, str_eq_iff key j)

-- What the loop does to an index for one route.
abbrev indexed : RouteKind → ℕ → RouteRule → List (Str × List ℕ) → List (Str × List ℕ)
indexed kind i r m = if not (is_empty r.key) && kind_eq r.kind kind then push_index r.key i m else m

at_key-indexed :
    (kind : RouteKind) (key : Str) (i : ℕ) (r : RouteRule) (rs : List RouteRule)
    (m : List (Str × List ℕ))
    → at_key key (indexed kind i r m) ++ indices kind key (suc i) rs
      ≡ at_key key m ++ indices kind key i (r ∷ rs)
unfolding indices
at_key-indexed kind key i r rs m = ground (
  arith,
  at_key-push_index r.key key i m,
  append_assoc (at_key key m) (i ∷ []) (indices kind key (suc i) rs),
)

-- The number of the first mirror.
unfoldable pub mirror_number : ℕ → List RouteRule → Option ℕ
mirror_number i [] = none
mirror_number i (r ∷ rs) =
    let rest = mirror_number (suc i) rs in if kind_eq r.kind mirror then some i else rest

abbrev or_later : Option ℕ → Option ℕ → Option ℕ
or_later none later = later
or_later (some m) later = some m

-- How the finished table stands to the table of the loop, with the routes that are left.
pub record IsIndexed (R : RegexEngine) (i : ℕ) (rs : List RouteRule) (t u : RouteTable R)
    : Type 0 where
  pub by_main :
      (key : Str) → at_key key u.by_main_key ≡ at_key key t.by_main_key ++ indices main key i rs
  pub by_fallback :
      (key : Str)
      → at_key key u.by_fallback_key ≡ at_key key t.by_fallback_key ++ indices fallback key i rs
  pub same_routes : u.routes ≡ t.routes
  pub first_mirror : u.mirror_index ≡ or_later t.mirror_index (mirror_number i rs)
  pub same_regexes : (k : ℕ) → k < length t.regexes → get_elem? u.regexes k ≡ get_elem? t.regexes k
  pub same_anchors : (k : ℕ) → k < length t.anchors → get_elem? u.anchors k ≡ get_elem? t.anchors k

-- What the table has at the number of a route: the route, its compiled predicates and their anchors.
pub record IsRow (R : RegexEngine) (u : RouteTable R) (i : ℕ) (r : RouteRule) : Type 0 where
  pub regexes : List R.Regex
  pub compiled : compile_predicates R r.path_predicates ≡ ok regexes
  pub regexes_at : get_elem? u.regexes i ≡ some regexes
  pub anchors_at : get_elem? u.anchors i ≡ some (anchors_of R r.path_predicates)
  pub route_at : get_elem? u.routes i ≡ some r

abbrev pub AreRows : (R : RegexEngine) → RouteTable R → ℕ → List RouteRule → Type 0
AreRows R u i [] = Unit
AreRows R u i (r ∷ rs) = IsRow R u i r × AreRows R u (suc i) rs

done-IsIndexed : (R : RegexEngine) (i : ℕ) (t : RouteTable R) → IsIndexed R i [] t t
unfolding indices mirror_number
done-IsIndexed R i t = record {
  by_main = λ key. sym (append-nil (at_key key t.by_main_key));
  by_fallback = λ key. sym (append-nil (at_key key t.by_fallback_key));
  same_routes = refl;
  first_mirror = or_later-none t.mirror_index;
  same_regexes = λ k h. refl;
  same_anchors = λ k h. refl;
}
  where
    or_later-none : (o : Option ℕ) → o ≡ or_later o none
    or_later-none none = refl
    or_later-none (some m) = refl

first_mirror-step :
    (b : Bool) (i : ℕ) (o later : Option ℕ)
    → or_later (first_index b i o) later ≡ or_later o (if b then some i else later)
first_mirror-step b i (some m) later = refl
first_mirror-step true i none later = refl
first_mirror-step false i none later = refl

pub add_routes-IsIndexed :
    (R : RegexEngine) (i : ℕ) (rs : List RouteRule) (t u : RouteTable R)
    → add_routes R i rs t ≡ ok u
    → IsIndexed R i rs t u
unfolding add_routes add_route mirror_number
add_routes-IsIndexed R i [] t u h =
    subst (λ v. IsIndexed R i [] t v) (ok-injective refl h) (done-IsIndexed R i t)
add_routes-IsIndexed R i (r ∷ rs) t u h =
    let (compiled, built, rest) =
      >>=-ok (compile_predicates R r.path_predicates)
        (λ compiled. add_routes R (suc i) rs (add_route R i r compiled t)) h in
    let later = add_routes-IsIndexed R (suc i) rs (add_route R i r compiled t) u rest in
    record {
      by_main = λ key. later.by_main key ∙ at_key-indexed main key i r rs t.by_main_key;
      by_fallback =
          λ key. later.by_fallback key ∙ at_key-indexed fallback key i r rs t.by_fallback_key;
      same_routes = later.same_routes;
      first_mirror =
          later.first_mirror
          ∙ first_mirror-step (kind_eq r.kind mirror) i t.mirror_index (mirror_number (suc i) rs);
      same_regexes = λ k h'.
          later.same_regexes k (omega (arith, h', length-append t.regexes (compiled ∷ [])))
          ∙ get_elem?-append t.regexes (compiled ∷ []) k h';
      same_anchors = λ k h'.
          later.same_anchors k
            (omega (arith, h', length-append t.anchors (anchors_of R r.path_predicates ∷ [])))
          ∙ get_elem?-append t.anchors (anchors_of R r.path_predicates ∷ []) k h';
    }

pub add_routes-AreRows :
    (R : RegexEngine) (before rs : List RouteRule) (i : ℕ) (t u : RouteTable R)
    → add_routes R i rs t ≡ ok u
    → t.routes ≡ before ++ rs
    → length before ≡ i
    → length t.regexes ≡ i
    → length t.anchors ≡ i
    → AreRows R u i rs
unfolding add_routes add_route
add_routes-AreRows R before [] i t u h whole at at_regexes at_anchors = tt
add_routes-AreRows R before (r ∷ rs) i t u h whole at at_regexes at_anchors =
    let (compiled, built, rest) =
      >>=-ok (compile_predicates R r.path_predicates)
        (λ compiled. add_routes R (suc i) rs (add_route R i r compiled t)) h in
    let t' = add_route R i r compiled t in
    let anchors = anchors_of R r.path_predicates in
    let later = add_routes-IsIndexed R (suc i) rs t' u rest in
    let regexes_length = length-append t.regexes (compiled ∷ []) in
    let anchors_length = length-append t.anchors (anchors ∷ []) in
    (
      record {
        regexes = compiled;
        compiled = built;
        regexes_at =
            later.same_regexes i (omega (arith, regexes_length, at_regexes))
            ∙ ap (get_elem? (t.regexes ++ compiled ∷ [])) (sym at_regexes)
            ∙ get_elem?-length t.regexes compiled [];
        anchors_at =
            later.same_anchors i (omega (arith, anchors_length, at_anchors))
            ∙ ap (get_elem? (t.anchors ++ anchors ∷ [])) (sym at_anchors)
            ∙ get_elem?-length t.anchors anchors [];
        route_at =
            ap (λ l. get_elem? l i) (later.same_routes ∙ whole)
            ∙ ap (get_elem? (before ++ r ∷ rs)) (sym at)
            ∙ get_elem?-length before r rs;
      },
      add_routes-AreRows R (before ++ r ∷ []) rs (suc i) t' u rest
          (whole ∙ sym (append_assoc before (r ∷ []) rs))
          (omega (arith, at, length-append before (r ∷ [])))
          (omega (arith, at_regexes, regexes_length)) (omega (arith, at_anchors, anchors_length)),
    )
