-- ===== src/Config/Findings.antt =====
-- The findings of the per-object pass over the routes.
use hygress.Common.{
  ◌≡◌, refl, Str, str_eq, List, [], ◌∷◌, ◌++◌, Bool, true, false, not, ◌&&◌, is_empty, All, arith,
  Bool-cases, inl, inr,
}
use hygress.Route.{RouteRule, RouteKind, mirror, kind_eq}
use hygress.Config.Passes.{HasNoPair, IsSettled}
use hygress.Config.{
  seen_after, Issue, issue_if, destination_issues, weight_issues, dangling, seen, key_issues,
  route_issues, check_routes,
}

-- The same kind and key.
abbrev pub same_key : RouteRule → RouteRule → Bool
same_key r q = kind_eq r.kind q.kind && str_eq r.key q.key

abbrev auth_issues : RouteRule → List Issue
auth_issues r = issue_if (kind_eq r.kind mirror && r.auth_scope.enabled) (Issue.mirror_auth r.key)

abbrev empty_issues : RouteRule → List Issue
empty_issues r = issue_if (is_empty r.destinations) (Issue.no_destinations r.key)

abbrev scope_issues : RouteRule → List Issue
scope_issues r =
    issue_if
      (not (kind_eq r.kind mirror) && r.auth_scope.enabled && is_empty r.auth_scope.scope_root)
      (Issue.empty_scope_root r.key)

-- No finding against a route, the keys before it and the other routes left aside.
abbrev pub IsSound : RouteRule → Type 0
IsSound r =
    (is_empty r.key ≡ false)
    × (auth_issues r ≡ [])
    × (empty_issues r ≡ [])
    × (destination_issues r.key r.destinations ≡ [])
    × (weight_issues r.key r.destinations ≡ [])
    × (scope_issues r ≡ [])

pub append-eq-nil : (xs ys : List Issue) → xs ++ ys ≡ [] → (xs ≡ []) × (ys ≡ [])
append-eq-nil [] ys h = (refl, h)
append-eq-nil (x ∷ xs) ys h = cc

parts-eq-nil :
    (k a b c d l s : List Issue)
    → k ++ a ++ b ++ c ++ d ++ l ++ s ≡ []
    → (k ≡ []) × (a ≡ []) × (b ≡ []) × (c ≡ []) × (d ≡ []) × (l ≡ []) × (s ≡ [])
parts-eq-nil k a b c d l s h =
    let h1 = append-eq-nil (k ++ a ++ b ++ c ++ d ++ l) s h in
    let h2 = append-eq-nil (k ++ a ++ b ++ c ++ d) l h1.0 in
    let h3 = append-eq-nil (k ++ a ++ b ++ c) d h2.0 in
    let h4 = append-eq-nil (k ++ a ++ b) c h3.0 in
    let h5 = append-eq-nil (k ++ a) b h4.0 in
    let h6 = append-eq-nil k a h5.0 in (h6.0, h6.1, h5.1, h4.1, h3.1, h2.1, h1.1)

nil_of_is_empty : {A : Type 0} (xs : List A) → is_empty xs ≡ true → xs ≡ []
nil_of_is_empty [] h = refl
nil_of_is_empty (x ∷ xs) h = ground arith

key_issues-nil :
    (keys : List (RouteKind × Str)) (r : RouteRule)
    → key_issues keys r ≡ []
    → (is_empty r.key ≡ false) × (seen r.kind r.key keys ≡ false)
unfolding key_issues
key_issues-nil keys r h = ground arith

pub route_issues-IsSound :
    (keys : List (RouteKind × Str)) (routes : List RouteRule) (r : RouteRule)
    → route_issues keys routes r ≡ []
    → IsSound r × (seen r.kind r.key keys ≡ false)
unfolding route_issues
route_issues-IsSound keys routes r h =
    let parts =
      parts-eq-nil (key_issues keys r) (auth_issues r) (empty_issues r)
        (destination_issues r.key r.destinations) (weight_issues r.key r.destinations)
        (issue_if (dangling routes r) (Issue.fallback_not_found r.key)) (scope_issues r) h in
    let key = key_issues-nil keys r parts.0 in
    ((key.0, parts.1, parts.2, parts.3, parts.4, parts.6), key.1)

IsSound-route_issues :
    (keys : List (RouteKind × Str)) (routes : List RouteRule) (r : RouteRule)
    → IsSound r
    → seen r.kind r.key keys ≡ false
    → dangling routes r ≡ false
    → route_issues keys routes r ≡ []
unfolding route_issues key_issues
IsSound-route_issues keys routes r (key, auth, empty, dest, weights, scope) new settled =
    rw key (rw new (rw settled (rw auth (rw empty (rw dest (rw weights scope))))))

abbrev pub New : List (RouteKind × Str) → RouteRule → Type 0
New keys r = seen r.kind r.key keys ≡ false

split-New :
    (r : RouteRule) (keys : List (RouteKind × Str)) (qs : List RouteRule)
    → All (New ((r.kind, r.key) ∷ keys)) qs
    → All (λ q. same_key r q ≡ false) qs × All (New keys) qs
split-New r keys [] h = (tt, tt)
split-New r keys (q ∷ qs) (p, h) = ground (arith, split-New r keys qs h)

join-New :
    (r : RouteRule) (keys : List (RouteKind × Str)) (qs : List RouteRule)
    → All (λ q. same_key r q ≡ false) qs
    → All (New keys) qs
    → All (New ((r.kind, r.key) ∷ keys)) qs
join-New r keys [] h k = tt
join-New r keys (q ∷ qs) (p, h) (n, k) = (ground arith, join-New r keys qs h k)

pub record Checked (keys : List (RouteKind × Str)) (rs : List RouteRule) : Type 0 where
  pub sound : All IsSound rs
  pub distinct : HasNoPair same_key rs
  pub new : All (New keys) rs

New-seen_after :
    (r : RouteRule) (keys : List (RouteKind × Str)) (qs : List RouteRule)
    → All (New (seen_after r keys)) qs
    → All (New keys) qs
New-seen_after r keys qs h = elim (Bool-cases (is_empty r.key)) [
  | inl blank ↦ rw blank at h
  | inr key ↦ (split-New r keys qs (rw key at h)).1
]

New-seen_after_key :
    (r : RouteRule) (keys : List (RouteKind × Str)) (qs : List RouteRule)
    → is_empty r.key ≡ false
    → All (New (seen_after r keys)) qs
    → All (New ((r.kind, r.key) ∷ keys)) qs
New-seen_after_key r keys qs key h = rw key at h

pub check_routes-Checked :
    (keys : List (RouteKind × Str)) (routes rs : List RouteRule)
    → Checked keys (check_routes keys routes rs).0
unfolding check_routes
check_routes-Checked keys routes [] = record { sound = tt; distinct = tt; new = tt }
check_routes-Checked keys routes (r ∷ rs) =
    let rest = check_routes-Checked (seen_after r keys) routes rs in
    let kept = (check_routes (seen_after r keys) routes rs).0 in
    elim (Bool-cases (is_empty (route_issues keys routes r))) [
      | inl clean ↦
          let sound =
            route_issues-IsSound keys routes r
              (nil_of_is_empty (route_issues keys routes r) clean) in
          let new : All (New ((r.kind, r.key) ∷ keys)) kept =
            New-seen_after_key r keys kept sound.0.0 rest.new in
          rw clean (record {
            sound = (sound.0, rest.sound);
            distinct = ((split-New r keys kept new).0, rest.distinct);
            new = (sound.1, (split-New r keys kept new).1);
          })
      | inr found ↦ rw found (record {
        sound = rest.sound;
        distinct = rest.distinct;
        new = New-seen_after r keys kept rest.new;
      })
    ]

pub check_routes_settled :
    (keys : List (RouteKind × Str)) (routes rs : List RouteRule)
    → Checked keys rs
    → All (IsSettled routes) rs
    → check_routes keys routes rs ≡ (rs, [])
unfolding check_routes
check_routes_settled keys routes [] c settled = refl
check_routes_settled keys routes (r ∷ rs) c (s, settled) =
    let key : is_empty r.key ≡ false = c.sound.0.0 in
    let later : Checked (seen_after r keys) rs = record {
      sound = c.sound.1;
      distinct = c.distinct.1;
      new = rw key (join-New r keys rs c.distinct.0 c.new.1);
    } in
    rw (IsSound-route_issues keys routes r c.sound.0 c.new.0 s)
      (rw (check_routes_settled (seen_after r keys) routes rs later settled) refl)
