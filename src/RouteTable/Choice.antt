-- ===== src/RouteTable/Choice.antt =====
-- Which predicate of a route stands for a path: the choice of the loops of matcher.rs, read from the
-- predicates of the route itself.
use hygress.Common.{
  ◌≡◌, refl, sym, ap, ◌∙◌, Str, codes, ℕ, suc, List, [], ◌∷◌, ◌++◌, Option, none, some, Bool, true,
  false, ◌&&◌, ltb, if◌then◌else◌, length, unwrap_or, get_elem?, append_assoc, length-append, arith,
  Bool-cases, inl, inr, get_elem?-length,
}
use hygress.Common.Results.{Result, ok, Error, ◌>>=◌, >>=-ok, ok_or}
use hygress.Regex.{RegexEngine}
use hygress.Route.{PathPred}
use hygress.RouteTable.{
  full_match_pattern, compile_predicates, anchors_of, literal_anchor_len, best_from, better,
  pred_index,
}

pub ok-injective : {A : Type 0} {a b : A} {x : Result Error A} → x ≡ ok a → x ≡ ok b → a ≡ b
ok-injective h k = cc

-- The earlier of two choices, each an anchor and a number, unless the later has a longer anchor.
abbrev pub prefer : Option (ℕ × ℕ) → Option (ℕ × ℕ) → Option (ℕ × ℕ)
prefer none later = later
prefer (some c) none = some c
prefer (some (a, i)) (some (b, j)) = if ltb a b then some (b, j) else some (a, i)

-- The number of a choice.
abbrev pub number_of : Option (ℕ × ℕ) → Option ℕ
number_of none = none
number_of (some (_, i)) = some i

module _ (R : RegexEngine) where
  abbrev matches : Option R.Regex → Str → Bool
  matches none path = false
  matches (some re) path = R.is_match re path

  -- The predicate matches the whole path.
  abbrev pub fits : Str → PathPred → Bool
  fits path p = matches (R.build (codes "^(?:" ++ p.regex ++ codes ")$") p.ignore_case) path

  -- The first with the longest anchor among the predicates that match the path.
  unfoldable pub choice : Str → ℕ → List PathPred → Option (ℕ × ℕ)
  choice path i [] = none
  choice path i (p ∷ ps) =
      let rest = choice path (suc i) ps in
      if fits path p then prefer (some (literal_anchor_len p.regex, i)) rest else rest

  pub pred_index-number_of : (o : Option (ℕ × ℕ)) → pred_index R o ≡ number_of o
  pred_index-number_of none = refl
  pred_index-number_of (some c) = refl

  built_head :
      (p : PathPred) (re : R.Regex)
      → ok_or (R.build (codes "^(?:" ++ p.regex ++ codes ")$") p.ignore_case) Error.parse_error
        ≡ ok re
      → R.build (codes "^(?:" ++ p.regex ++ codes ")$") p.ignore_case ≡ some re
  built_head p re h = ground arith

  pub compile_predicates-cons :
      (p : PathPred) (ps : List PathPred) (res : List R.Regex)
      → compile_predicates R (p ∷ ps) ≡ ok res
      → (re : R.Regex) × (rest : List R.Regex) × (R.build
            (codes "^(?:" ++ p.regex ++ codes ")$")
            p.ignore_case
          ≡ some re)
        × (compile_predicates R ps ≡ ok rest)
        × (res ≡ re ∷ rest)
  unfolding compile_predicates
  compile_predicates-cons p ps res h =
      let (re, built, compiled) =
        >>=-ok (ok_or (R.build (full_match_pattern p.regex) p.ignore_case) Error.parse_error)
          (λ re. compile_predicates R ps >>= (λ rest. ok (re ∷ rest))) h in
      let (rest, compiled_rest, all) =
        >>=-ok (compile_predicates R ps) (λ rest. ok (re ∷ rest)) compiled in
      (re, rest, built_head p re built, compiled_rest, sym (ok-injective refl all))

  prefer_taken :
      (best : Option (ℕ × ℕ)) (a i : ℕ) (rest : Option (ℕ × ℕ))
      → better R best a ≡ true
      → prefer (some (a, i)) rest ≡ prefer best (prefer (some (a, i)) rest)
  prefer_taken none a i rest h = refl
  prefer_taken (some (a0, i0)) a i none h = ground arith
  prefer_taken (some (a0, i0)) a i (some (b, j)) h = ground arith

  prefer_left :
      (best : Option (ℕ × ℕ)) (a i : ℕ) (rest : Option (ℕ × ℕ))
      → better R best a ≡ false
      → prefer best rest ≡ prefer best (prefer (some (a, i)) rest)
  prefer_left none a i rest h = absurd (ground arith)
  prefer_left (some (a0, i0)) a i none h = ground arith
  prefer_left (some (a0, i0)) a i (some (b, j)) h = ground arith

  prefer-none : (best : Option (ℕ × ℕ)) → best ≡ prefer best none
  prefer-none none = refl
  prefer-none (some c) = refl

  pub anchor_here :
      (before : List ℕ) (p : PathPred) (ps : List PathPred)
      → unwrap_or (get_elem? (before ++ anchors_of R (p ∷ ps)) (length before)) 0
        ≡ literal_anchor_len p.regex
  unfolding anchors_of
  anchor_here before p ps =
      ap (λ o. unwrap_or o 0)
        (get_elem?-length before (literal_anchor_len p.regex) (anchors_of R ps))

  pub next_anchors :
      (before : List ℕ) (p : PathPred) (ps : List PathPred)
      → before ++ anchors_of R (p ∷ ps)
        ≡ (before ++ literal_anchor_len p.regex ∷ []) ++ anchors_of R ps
  unfolding anchors_of
  next_anchors before p ps =
      sym (append_assoc before (literal_anchor_len p.regex ∷ []) (anchors_of R ps))

  taken_or_left :
      (fit : Bool) (best : Option (ℕ × ℕ)) (a i here : ℕ) (take_it leave_it rest : Option (ℕ × ℕ))
      → here ≡ a
      → take_it ≡ prefer (some (a, i)) rest
      → leave_it ≡ prefer best rest
      → (if fit && better R best here then take_it else leave_it)
        ≡ prefer best (if fit then prefer (some (a, i)) rest else rest)
  taken_or_left false best a i here take_it leave_it rest anchor taken left = left
  taken_or_left true best a i here take_it leave_it rest anchor taken left =
      elim (Bool-cases (better R best a)) [
        | inl e ↦ rw (anchor, e) (taken ∙ prefer_taken best a i rest e)
        | inr e ↦ rw (anchor, e) (left ∙ prefer_left best a i rest e)
      ]

  -- The loop of `best_predicate` over the predicates that are left makes the choice among them.
  pub best_from-prefer :
      (path : Str) (ps : List PathPred) (before : List ℕ) (i : ℕ) (best : Option (ℕ × ℕ))
      (res : List R.Regex)
      → i ≡ length before
      → compile_predicates R ps ≡ ok res
      → best_from R false path (before ++ anchors_of R ps) i best res
        ≡ prefer best (choice path i ps)
  unfolding compile_predicates best_from choice
  best_from-prefer path [] before i best [] at h = prefer-none best
  best_from-prefer path [] before i best (re ∷ res) at h = absurd (ground arith)
  best_from-prefer path (p ∷ ps) before i best res at h =
      let (re, rest, built, compiled, all) = compile_predicates-cons p ps res h in
      let a = literal_anchor_len p.regex in
      let anchor : unwrap_or (get_elem? (before ++ anchors_of R (p ∷ ps)) i) 0 ≡ a =
        ap (λ k. unwrap_or (get_elem? (before ++ anchors_of R (p ∷ ps)) k) 0) at
        ∙ anchor_here before p ps in
      let next : (b : Option (ℕ × ℕ))
          → best_from R false path (before ++ anchors_of R (p ∷ ps)) (suc i) b rest
            ≡ prefer b (choice path (suc i) ps) =
        λ b.
          ap (λ as'. best_from R false path as' (suc i) b rest) (next_anchors before p ps)
          ∙ best_from-prefer path ps (before ++ a ∷ []) (suc i) b rest
              (omega (arith, at, length-append before (a ∷ []))) compiled in
      ap (best_from R false path (before ++ anchors_of R (p ∷ ps)) i best) all
      ∙ taken_or_left (R.is_match re path) best a i
          (unwrap_or (get_elem? (before ++ anchors_of R (p ∷ ps)) i) 0)
          (best_from R false path (before ++ anchors_of R (p ∷ ps)) (suc i)
            (some (unwrap_or (get_elem? (before ++ anchors_of R (p ∷ ps)) i) 0, i)) rest)
          (best_from R false path (before ++ anchors_of R (p ∷ ps)) (suc i) best rest)
          (choice path (suc i) ps) anchor
          (ap
              (λ k.
                best_from R false path (before ++ anchors_of R (p ∷ ps)) (suc i) (some (k, i)) rest)
              anchor
            ∙ next (some (a, i)))
          (next best)
      ∙ ap
          (λ o. prefer best (
            if matches o path
            then prefer (some (a, i)) (choice path (suc i) ps)
            else choice path (suc i) ps))
          (sym built)
