-- ===== src/Config/Accepted.antt =====
-- What the validation accepts, it accepts again.
use hygress.Config.Findings.{
  same_key, IsSound, New, Checked, check_routes-Checked, check_routes_settled,
}
use hygress.Common.{
  ◌≡◌, refl, ℕ, suc, List, [], ◌∷◌, false, is_empty, length, All, arith, Bool-cases, inl, inr,
}
use hygress.Route.{RouteRule}
use hygress.Registry.{Registry, OutboundProxy}
use hygress.Config.Passes.{
  HasNoPair, Sublist, All-Sublist, HasNoPair-Sublist, first_mirror_only-Sublist, cascade-Sublist,
  IsSettled, cascade_pass_settled, cascade-IsSettled, both_mirrors, first_mirror_only-HasNoPair,
  first_mirror_only_settled,
}
use hygress.Config.{
  ProviderToken, ConfigData, check_routes, first_mirror_only, cascade, registry_issues,
  check_registries, token_issues, check_tokens, sanitize_routes, sanitize,
}

Checked-Sublist : {xs ys : List RouteRule} → Sublist xs ys → Checked [] ys → Checked [] xs
Checked-Sublist s c = record {
  sound = All-Sublist IsSound s c.sound;
  distinct = HasNoPair-Sublist same_key s c.distinct;
  new = All-Sublist (New []) s c.new;
}

cascade_stays :
    (fuel : ℕ) (rs : List RouteRule) → All (IsSettled rs) rs → cascade (suc fuel) rs ≡ (rs, [])
unfolding cascade
cascade_stays fuel rs settled = rw (cascade_pass_settled rs rs settled) (ground arith)

sanitize_routes_settled :
    (rs : List RouteRule)
    → Checked [] rs
    → HasNoPair both_mirrors rs
    → All (IsSettled rs) rs
    → sanitize_routes rs ≡ (rs, [])
unfolding sanitize_routes
sanitize_routes_settled rs checked mirrors settled =
    rw (check_routes_settled [] rs rs checked settled)
      (rw (first_mirror_only_settled rs mirrors) (rw (cascade_stays (length rs) rs settled) refl))

-- The validated routes: no finding against any of them alone, kinds and keys distinct, one mirror
-- at most, and no fallback link without its route.
pub record IsAccepted (rs : List RouteRule) : Type 0 where
  pub sound : All IsSound rs
  pub distinct : HasNoPair same_key rs
  pub one_mirror : HasNoPair both_mirrors rs
  pub linked : All (IsSettled rs) rs

sanitize_routes-Sublist :
    (rs : List RouteRule)
    → Sublist (sanitize_routes rs).0 (first_mirror_only false (check_routes [] rs rs).0).0
unfolding sanitize_routes
sanitize_routes-Sublist rs =
    let one = (first_mirror_only false (check_routes [] rs rs).0).0 in
    cascade-Sublist (suc (length one)) one

sanitize_routes-Checked : (rs : List RouteRule) → Checked [] (sanitize_routes rs).0
sanitize_routes-Checked rs =
    let checked = (check_routes [] rs rs).0 in
    Checked-Sublist (sanitize_routes-Sublist rs)
      (Checked-Sublist (first_mirror_only-Sublist false checked) (check_routes-Checked [] rs rs))

-- Whatever the routes of a snapshot are, no finding stands against any of the accepted routes
-- alone, no two of them share their kind and key, at most one is a mirror, and each fallback link
-- leads to an accepted Fallback route.
pub sanitize_routes-IsAccepted : (rs : List RouteRule) → IsAccepted (sanitize_routes rs).0
unfolding sanitize_routes
sanitize_routes-IsAccepted rs =
    let checked = (check_routes [] rs rs).0 in
    let one = (first_mirror_only false checked).0 in
    let c = sanitize_routes-Checked rs in
    record {
      sound = c.sound;
      distinct = c.distinct;
      one_mirror =
          HasNoPair-Sublist both_mirrors (sanitize_routes-Sublist rs)
            (first_mirror_only-HasNoPair false checked);
      linked = cascade-IsSettled (suc (length one)) one (omega arith);
    }

sanitize_routes-idempotent :
    (rs : List RouteRule) → sanitize_routes (sanitize_routes rs).0 ≡ ((sanitize_routes rs).0, [])
sanitize_routes-idempotent rs =
    let a = sanitize_routes-IsAccepted rs in
    sanitize_routes_settled (sanitize_routes rs).0 (sanitize_routes-Checked rs) a.one_mirror
      a.linked

check_registries-idempotent :
    (proxies : List OutboundProxy) (rs : List Registry)
    → check_registries proxies (check_registries proxies rs).0
      ≡ ((check_registries proxies rs).0, [])
unfolding check_registries
check_registries-idempotent proxies [] = refl
check_registries-idempotent proxies (r ∷ rs) =
    let rest = check_registries-idempotent proxies rs in
    elim (Bool-cases (is_empty (registry_issues proxies r))) [
      | inl clean ↦ rw clean (rw clean (rw rest refl))
      | inr found ↦ rw found rest
    ]

check_tokens-idempotent :
    (ts : List ProviderToken) → check_tokens (check_tokens ts).0 ≡ ((check_tokens ts).0, [])
unfolding check_tokens
check_tokens-idempotent [] = refl
check_tokens-idempotent (t ∷ ts) =
    let rest = check_tokens-idempotent ts in
    elim (Bool-cases (is_empty (token_issues t))) [
      | inl clean ↦ rw clean (rw clean (rw rest refl))
      | inr found ↦ rw found rest
    ]

-- An accepted snapshot is accepted again as it is, without a finding.
pub sanitize-idempotent :
    {Rest : Type 0} (snapshot : ConfigData Rest)
    → sanitize (sanitize snapshot).accepted
      ≡ record { accepted = (sanitize snapshot).accepted; issues = [] }
unfolding sanitize
sanitize-idempotent snapshot = rw (sanitize_routes-idempotent snapshot.routes) (
    rw (check_registries-idempotent snapshot.proxies snapshot.registries)
      (rw (check_tokens-idempotent snapshot.provider_tokens) refl))
