-- ===== src/RouteTable/Weights.antt =====
-- The weights of an accepted route, as the round robin takes them.
use hygress.Common.{
  ◌≡◌, refl, sym, subst, Option, unwrap_or, ℕ, suc, ◌*◌, ◌≤◌, ◌<◌, List, [], ◌∷◌, ◌++◌, none, some,
  ==_iff, is_empty, Str, All, arith, length,
}
use hygress.Common.Int.{as_i32}
use hygress.Config.{
  destination_issues, weight_issues, weight_total, issue_if, is_err, out_of_range_percent,
  bad_endpoint, out_of_range, no_destinations,
}
use hygress.Config.Findings.{IsSound, append-eq-nil}
use hygress.Destination.{Destination, weight, service_ref}
use hygress.Route.{RouteRule}
use hygress.RouteTable.{candidates_of}
use hygress.Swrr.{SwrrCandidate}
use hygress.Swrr.Fairness.{rounds, rounds-IsFair}
use hygress.Swrr.Round.{HasDistinctIds}
use hygress.Swrr.Sums.{sum_over, times, weight_ℕ, IsWeight}

in_range :
    (key : Str) (ds : List Destination)
    → destination_issues key ds ≡ []
    → All (λ d. weight d ≤ 100) ds
unfolding destination_issues
in_range key [] h = tt
in_range key (d ∷ ds) h =
    let bad = issue_if (is_err (service_ref d)) (bad_endpoint key d.service) in
    let large = issue_if (out_of_range_percent d.percent) (out_of_range key d.service) in
    let parts = append-eq-nil (bad ++ large) (destination_issues key ds) h in
    let here = append-eq-nil bad large parts.0 in
    (weight_le d.percent here.1, in_range key ds parts.1)
  where
    weight_le :
        (o : Option ℕ)
        → issue_if (out_of_range_percent o) (out_of_range key d.service) ≡ []
        → unwrap_or o 100 ≤ 100
    weight_le none e = omega arith
    weight_le (some p) e = ground arith

candidates_of-IsWeight :
    (ds : List Destination) → All (λ d. weight d ≤ 100) ds → All IsWeight (candidates_of ds)
unfolding candidates_of
candidates_of-IsWeight [] h = tt
candidates_of-IsWeight (d ∷ ds) (p, h) = (ground arith, candidates_of-IsWeight ds h)

sum_over-candidates_of :
    (ds : List Destination)
    → All (λ d. weight d ≤ 100) ds
    → (sum_over weight_ℕ (candidates_of ds) ≡ weight_total ds)
      × (weight_total ds ≤ 100 * length ds)
      × (length (candidates_of ds) ≡ length ds)
unfolding candidates_of weight_total
sum_over-candidates_of [] h = (refl, omega arith, refl)
sum_over-candidates_of (d ∷ ds) (p, h) =
    let (total, bound, count) = sum_over-candidates_of ds h in
    (ground arith, omega (arith, p, bound), omega (arith, count))

positive_total :
    (key : Str) (d : Destination) (ds : List Destination)
    → weight_issues key (d ∷ ds) ≡ []
    → 0 < weight_total (d ∷ ds)
unfolding weight_issues weight_total
positive_total key d ds h = by_percent d.percent refl
  where
    by_percent : (o : Option ℕ) → d.percent ≡ o → 0 < weight_total (d ∷ ds)
    by_percent none e = ground arith
    by_percent (some p) e = ground (arith, ==_iff (weight_total (d ∷ ds)) 100)

room : (n total : ℕ) → n ≤ 4600 → total ≤ 100 * n → suc n * total < 2147483648
room n total few small = grind arith

-- Over the candidates of a route that no finding stands against, with at most 4600 destinations of
-- distinct services, a full cycle of rounds from the empty state selects each as often as its weight
-- says: nothing overflows.
pub candidates_of-IsFair :
    (r : RouteRule)
    → IsSound r
    → length r.destinations ≤ 4600
    → HasDistinctIds (candidates_of r.destinations)
    → let cs = candidates_of r.destinations in
      All (λ d. times d.id (rounds (weight_total r.destinations) cs).1 ≡ weight_ℕ d) cs
unfolding candidates_of
candidates_of-IsFair r sound few distinct = fair r.destinations sound.2 sound.3 sound.4 few distinct
  where
    fair :
        (ds : List Destination)
        → issue_if (is_empty ds) (no_destinations r.key) ≡ []
        → destination_issues r.key ds ≡ []
        → weight_issues r.key ds ≡ []
        → length ds ≤ 4600
        → HasDistinctIds (candidates_of ds)
        → All
            (λ d. times d.id (rounds (weight_total ds) (candidates_of ds)).1 ≡ weight_ℕ d)
            (candidates_of ds)
    fair [] some_left good weighted few distinct = tt
    fair (d ∷ ds) some_left good weighted few distinct =
        let small = in_range r.key (d ∷ ds) good in
        let (total, bound, count) = sum_over-candidates_of (d ∷ ds) small in
        let c : SwrrCandidate = record { id = d.service; weight = as_i32 (weight d) } in
        let cs = candidates_of ds in
        subst (λ n. All (λ e. times e.id (rounds n (c ∷ cs)).1 ≡ weight_ℕ e) (c ∷ cs)) total
          (rounds-IsFair c cs (candidates_of-IsWeight (d ∷ ds) small) distinct
            (subst (λ n. 0 < n) (sym total) (positive_total r.key d ds weighted))
            (room (length (c ∷ cs)) (sum_over weight_ℕ (c ∷ cs)) (omega (arith, count, few))
              (omega (arith, total, bound, count))))
