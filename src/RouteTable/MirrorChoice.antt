-- ===== src/RouteTable/MirrorChoice.antt =====
-- Which predicate of a mirror is reported: the choice of `mirror_match`, read from its predicates.
use hygress.Common.{
  ◌≡◌, refl, ap, ◌∙◌, ℕ, suc, List, [], ◌∷◌, ◌++◌, Option, none, some, leb, if◌then◌else◌, length,
  unwrap_or, get_elem?, length-append, arith,
}
use hygress.Common.Results.{ok}
use hygress.Regex.{RegexEngine}
use hygress.Route.{PathPred}
use hygress.RouteTable.{
  mirror_predicate, compile_predicates, anchors_of, literal_anchor_len, last_longest,
}
use hygress.RouteTable.Choice.{number_of, compile_predicates-cons, anchor_here, next_anchors}

-- The later of two choices, unless the earlier has a longer anchor.
abbrev pub prefer_later : ℕ → ℕ → Option (ℕ × ℕ) → ℕ × ℕ
prefer_later a i none = (a, i)
prefer_later a i (some (b, j)) = if leb a b then (b, j) else (a, i)

-- The predicates of a mirror: the last with the longest anchor, whatever the path.
unfoldable pub last_choice : ℕ → List PathPred → Option (ℕ × ℕ)
last_choice i [] = none
last_choice i (p ∷ ps) = some (prefer_later (literal_anchor_len p.regex) i (last_choice (suc i) ps))

module _ (R : RegexEngine) where
  prefer_later_or :
      (a b here i : ℕ) (take_it leave_it : ℕ) (p_anchor : ℕ) (rest : Option (ℕ × ℕ))
      → here ≡ p_anchor
      → take_it ≡ (prefer_later p_anchor i rest).1
      → leave_it ≡ (prefer_later a b rest).1
      → (if leb a here then take_it else leave_it)
        ≡ (prefer_later a b (some (prefer_later p_anchor i rest))).1
  prefer_later_or a b here i take_it leave_it p_anchor none anchor taken left = ground arith
  prefer_later_or a b here i take_it leave_it p_anchor (some (c, j)) anchor taken left =
      ground arith

  -- The loop of `mirror_match` over the predicates that are left.
  last_longest-prefer_later :
      (ps : List PathPred) (before : List ℕ) (i a b : ℕ) (res : List R.Regex)
      → i ≡ length before
      → compile_predicates R ps ≡ ok res
      → last_longest R (before ++ anchors_of R ps) i a b res
        ≡ (prefer_later a b (last_choice i ps)).1
  unfolding compile_predicates last_longest last_choice
  last_longest-prefer_later [] before i a b [] at h = refl
  last_longest-prefer_later [] before i a b (re ∷ res) at h = absurd (ground arith)
  last_longest-prefer_later (p ∷ ps) before i a b res at h =
      let (re, rest, built, compiled, all) = compile_predicates-cons R p ps res h in
      let a' = literal_anchor_len p.regex in
      let as' = before ++ anchors_of R (p ∷ ps) in
      let anchor : unwrap_or (get_elem? as' i) 0 ≡ a' =
        ap (λ k. unwrap_or (get_elem? as' k) 0) at ∙ anchor_here R before p ps in
      let next : (c d : ℕ)
          → last_longest R as' (suc i) c d rest ≡ (prefer_later c d (last_choice (suc i) ps)).1 =
        λ c d.
          ap (λ l. last_longest R l (suc i) c d rest) (next_anchors R before p ps)
          ∙ last_longest-prefer_later ps (before ++ a' ∷ []) (suc i) c d rest
              (omega (arith, at, length-append before (a' ∷ []))) compiled in
      ap (last_longest R as' i a b) all
      ∙ prefer_later_or a b (unwrap_or (get_elem? as' i) 0) i
          (last_longest R as' (suc i) (unwrap_or (get_elem? as' i) 0) i rest)
          (last_longest R as' (suc i) a b rest) a' (last_choice (suc i) ps) anchor
          (ap (λ k. last_longest R as' (suc i) k i rest) anchor ∙ next a' i) (next a b)

  at_least_zero : (b j : ℕ) → (prefer_later 0 0 (some (b, j))).1 ≡ j
  at_least_zero b j = ground arith

  -- `mirror_match` over the predicates of a route makes the choice of a mirror.
  pub mirror_predicate-last_choice :
      (ps : List PathPred) (res : List R.Regex)
      → compile_predicates R ps ≡ ok res
      → mirror_predicate R (anchors_of R ps) res ≡ number_of (last_choice 0 ps)
  unfolding compile_predicates last_choice
  mirror_predicate-last_choice [] [] h = refl
  mirror_predicate-last_choice [] (re ∷ res) h = absurd (ground arith)
  mirror_predicate-last_choice (p ∷ ps) res h =
      let (re, rest, built, compiled, all) = compile_predicates-cons R p ps res h in
      let last = prefer_later (literal_anchor_len p.regex) 0 (last_choice 1 ps) in
      ap (mirror_predicate R (anchors_of R (p ∷ ps))) all
      ∙ ap some (
          last_longest-prefer_later (p ∷ ps) [] 0 0 0 (re ∷ rest) refl (h ∙ ap ok all)
          ∙ at_least_zero last.0 last.1)
