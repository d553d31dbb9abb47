-- ===== src/Registry/Index.antt =====
-- The precomputed index against a resolution at each request.
use hygress.Common.{◌≡◌, Str, str_eq, text_eq, List, [], ◌∷◌, Option, none, some, find, arith}
use hygress.Common.Dict.{lookup, or_insert, lookup-or_insert}
use hygress.Common.Results.{Result, Error}
use hygress.Registry.{
  Registry, OutboundProxy, PreResolvedRegistry, resolve_entry, precompute_from,
  precompute_registries,
}
use mathlib.Core.Option

-- The first of two that is there.
abbrev or_first {ℓ} : {A : Type ℓ} → Option A → Option A → Option A
or_first none b = b
or_first (some a) b = some a

abbrev direct_entry :
    List OutboundProxy → Str → List Registry → Option (Result Error PreResolvedRegistry)
direct_entry proxies id rs =
    Option.map (λ r. resolve_entry r proxies) (find (λ r. str_eq r.id id) rs)

lookup-precompute_from :
    (proxies : List OutboundProxy) (out : List (Str × Result Error PreResolvedRegistry))
    (rs : List Registry) (id : Str)
    → lookup id (precompute_from proxies out rs)
      ≡ or_first (lookup id out) (direct_entry proxies id rs)
unfolding precompute_from
lookup-precompute_from proxies out [] id = ground arith
lookup-precompute_from proxies out (r ∷ rs) id = ground (
  arith,
  lookup-precompute_from proxies (or_insert r.id (resolve_entry r proxies) out) rs id,
  lookup-or_insert r.id id (resolve_entry r proxies) out,
)

-- The index answers for an id with the resolution of the first registry that has it, its error
-- included, and with nothing where no registry has it.
pub precompute_registries-find :
    (rs : List Registry) (proxies : List OutboundProxy) (id : Str)
    → lookup id (precompute_registries rs proxies)
      ≡ Option.map (λ r. resolve_entry r proxies) (find (λ r. str_eq r.id id) rs)
unfolding precompute_registries lookup
precompute_registries-find rs proxies id = lookup-precompute_from proxies [] rs id
