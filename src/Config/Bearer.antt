-- ===== src/Config/Bearer.antt =====
-- The choice of a provider's token.
use hygress.Common.{
  ◌≡◌, refl, Str, str_eq, List, [], ◌∷◌, Option, none, some, Bool, false, not, ◌&&◌, is_empty,
  is_some, find, arith,
}
use hygress.Config.{ProviderToken, provider_bearer, bearer_from, scope_matches, global_token}
use hygress.Route.{last_segment}

abbrev is_for : Str → ProviderToken → Bool
is_for service t = str_eq t.service service && not (is_empty t.api_tokens)

abbrev scope_is : Str → Option Str → Bool
scope_is ingress_bare none = false
scope_is ingress_bare (some scope) = scope_matches ingress_bare scope

-- A token for the service whose scope is the ingress, and one with no scope.
abbrev pub is_scoped : Str → Str → ProviderToken → Bool
is_scoped service ingress_bare t = is_for service t && scope_is ingress_bare t.ingress_scope

abbrev pub is_global : Str → ProviderToken → Bool
is_global service t = is_for service t && not (is_some t.ingress_scope)

-- The first of two that is there.
abbrev pub or_else : Option ProviderToken → Option ProviderToken → Option ProviderToken
or_else none b = b
or_else (some a) b = some a

bearer_from-find :
    (service ingress_bare : Str) (global : Option ProviderToken) (tokens : List ProviderToken)
    → bearer_from service ingress_bare global tokens
      ≡ global_token (
          or_else
            (find (is_scoped service ingress_bare) tokens)
            (or_else global (find (is_global service) tokens)))
unfolding bearer_from
bearer_from-find service ingress_bare none [] = refl
bearer_from-find service ingress_bare (some g) [] = refl
bearer_from-find service ingress_bare none (t ∷ ts) = ground (
  arith,
  bearer_from-find service ingress_bare none ts,
  bearer_from-find service ingress_bare (some t) ts,
)
bearer_from-find service ingress_bare (some g) (t ∷ ts) =
    ground (arith, bearer_from-find service ingress_bare (some g) ts)

-- The bearer is the first API token of the first token for the service that is scoped to the
-- ingress, wherever it stands, and otherwise that of the first token for the service without a
-- scope; the ingress and the scopes are compared by their last segments.
pub provider_bearer-find :
    (tokens : List ProviderToken) (service ingress_name : Str)
    → provider_bearer tokens service ingress_name
      ≡ global_token (
          or_else
            (find (is_scoped service (last_segment ingress_name)) tokens)
            (find (is_global service) tokens))
unfolding provider_bearer
provider_bearer-find tokens service ingress_name =
    bearer_from-find service (last_segment ingress_name) none tokens
