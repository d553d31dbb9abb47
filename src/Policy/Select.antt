-- ===== src/Policy/Select.antt =====
-- `PolicyConfig::for_ingress` (policy.rs): the last route whose glob matches; and
-- `RoutePolicyActions::pick_override` (route_policy.rs).
use hygress.Common.{
  ap, Str, str_eq, List, [], ◌∷◌, ◌++◌, Option, none, some, false, ◌≡◌, ◌⊎◌, inl, inr, refl, arith,
  if◌then◌else◌, find, All, Bool-cases,
}
use hygress.Policy.{PolicyConfig, RoutePolicySpec, RoutePolicyActions}
use hygress.Policy.Glob.{glob_match}
use hygress.Policy.Matches.{glob_match-Matches}
use hygress.Policy.Pattern.{Matches}

module _ {F : Type 0} where
  -- The loop of `for_ingress`.
  unfoldable pub last_match :
      Str → Option (RoutePolicySpec F) → List (RoutePolicySpec F) → Option (RoutePolicySpec F)
  last_match name hit [] = hit
  last_match name hit (r ∷ rs) =
      last_match name (if glob_match r.name_glob name then some r else hit) rs

  unfoldable pub for_ingress : PolicyConfig F → Str → Option (RoutePolicySpec F)
  unfolding last_match
  for_ingress cfg name = last_match name none cfg.routes

  -- The routes after `r` do not match, and `r` does.
  pub record IsLastMatch (name : Str) (r : RoutePolicySpec F) (rs : List (RoutePolicySpec F))
      : Type 0 where
    pub before : List (RoutePolicySpec F)
    pub after : List (RoutePolicySpec F)
    pub split_eq : rs ≡ before ++ r ∷ after
    pub fits : Matches r.name_glob name
    pub none_later : All (λ q. ¬ Matches q.name_glob name) after

  unmatched :
      (r : RoutePolicySpec F) (name : Str)
      → glob_match r.name_glob name ≡ false
      → ¬ Matches r.name_glob name
  unmatched r name e m = ground (arith, (glob_match-Matches r.name_glob name).1.1 m)

  IsLastMatch-cons :
      {name : Str} {q : RoutePolicySpec F} {rs : List (RoutePolicySpec F)} (r : RoutePolicySpec F)
      → IsLastMatch name q rs
      → IsLastMatch name q (r ∷ rs)
  IsLastMatch-cons r last = record {
    before = r ∷ last.before;
    after = last.after;
    split_eq = ap (λ k. r ∷ k) last.split_eq;
    fits = last.fits;
    none_later = last.none_later;
  }

  last_match-cases :
      (name : Str) (hit : Option (RoutePolicySpec F)) (rs : List (RoutePolicySpec F))
      → ((last_match name hit rs ≡ hit) × All (λ q. ¬ Matches q.name_glob name) rs)
        ⊎ ((r : RoutePolicySpec F) × (last_match name hit rs ≡ some r) × IsLastMatch name r rs)
  unfolding last_match
  last_match-cases name hit [] = inl (refl, tt)
  last_match-cases name hit (r ∷ rs) = elim (Bool-cases (glob_match r.name_glob name)) [
    | inl e ↦ rw e (elim (last_match-cases name (some r) rs) [
      | inl (eq, none_later) ↦ inr (
        r,
        eq,
        record {
          before = [];
          after = rs;
          split_eq = refl;
          fits = (glob_match-Matches r.name_glob name).1.0 e;
          none_later = none_later;
        },
      )
      | inr (q, eq, last) ↦ inr (q, eq, IsLastMatch-cons r last)
    ])
    | inr e ↦ rw e (elim (last_match-cases name hit rs) [
      | inl (eq, none_later) ↦ inl (eq, (unmatched r name e, none_later))
      | inr (q, eq, last) ↦ inr (q, eq, IsLastMatch-cons r last)
    ])
  ]

  -- `for_ingress` answers with no route exactly where no glob matches the name, and otherwise with
  -- the last route of the configuration whose glob matches it.
  pub for_ingress-IsLastMatch :
      (cfg : PolicyConfig F) (name : Str)
      → ((for_ingress cfg name ≡ none) × All (λ q. ¬ Matches q.name_glob name) cfg.routes)
        ⊎ ((r : RoutePolicySpec F) × (for_ingress cfg name ≡ some r)
            × IsLastMatch name r cfg.routes)
  unfolding for_ingress
  for_ingress-IsLastMatch cfg name = last_match-cases name none cfg.routes

-- `pick_override`: the override target if it is among the candidate services.
unfoldable pub pick_override : RoutePolicyActions → List Str → Option Str
pick_override actions services = elim actions.override_route [
  | none ↦ none
  | some target ↦ find (λ s. str_eq s target) services
]
