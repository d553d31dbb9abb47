-- ===== src/Swrr/Fits.antt =====
-- That the `i32` sums of a round do not overflow.
use hygress.Common.{◌≡◌, ap, Str, ℕ, suc, ◌+◌, ◌*◌, ◌≤◌, ◌<◌, List, [], ◌∷◌, All, arith, length}
use hygress.Common.Int.{pos, IsI32, ◌+ℤ◌, ◌-ℤ◌, +ℤ-IsI32, -ℤ-IsI32}
use hygress.Swrr.{SwrrCandidate, SwrrState, weight_of}
use hygress.Swrr.Balance.{Balance, IsBounded, plus, minus, sum_balanced, add_bounded}
use hygress.Swrr.Sums.{sum_over, times, weight_ℕ, IsWeight, summands-le}

-- The sums of a round over a balanced state fit in an `i32`.
abbrev pub Fits : SwrrState → ℕ → SwrrCandidate → Type 0
Fits st total d =
    IsI32 (weight_of st d.id +ℤ d.weight) × IsI32 (weight_of st d.id +ℤ d.weight -ℤ pos total)

sum_minus-le :
    (cs : List SwrrCandidate) (total n : ℕ) (picks : List Str) (st : SwrrState)
    → All (IsBounded total n picks st) cs
    → sum_over (minus st) cs ≤ length cs * total
sum_minus-le [] total n picks st h = omega arith
sum_minus-le (c ∷ cs) total n picks st (p, h) = omega (arith, sum_minus-le cs total n picks st h)

Fits-All :
    (ds : List SwrrCandidate) (total n bound : ℕ) (picks : List Str) (st : SwrrState)
    → bound + total < 2147483648
    → total + total < 2147483648
    → All IsWeight ds
    → All (λ d. plus st d ≤ bound) ds
    → All (λ d. weight_ℕ d ≤ total) ds
    → All (IsBounded total n picks st) ds
    → All (Fits st total) ds
Fits-All [] total n bound picks st h k w p q b = tt
Fits-All (d ∷ ds) total n bound picks st h k (w, ws) (p, ps) (q, qs) (b, bs) =
    let a = weight_of st d.id in
    let advanced = +ℤ-IsI32 a d.weight (omega arith) (omega arith) in
    (
      (
        advanced,
        -ℤ-IsI32 (a +ℤ d.weight) (pos total) (omega (arith, advanced.0))
            (omega (arith, add_bounded a d.weight w, b)),
      ),
      Fits-All ds total n bound picks st h k ws ps qs bs,
    )

pub Balance-Fits :
    (cs : List SwrrCandidate) (n : ℕ) (picks : List Str) (st : SwrrState)
    → let total = sum_over weight_ℕ cs in
      suc (length cs) * total < 2147483648
      → total + total < 2147483648
      → All IsWeight cs
      → Balance cs total n picks st
      → All (Fits st total) cs
Balance-Fits cs n picks st room twice weights h =
    let total = sum_over weight_ℕ cs in
    let counted : total * sum_over (λ d. times d.id picks) cs ≡ total * n =
      ap (λ k. total * k) h.counted in
    let low = sum_minus-le cs total n picks st h.bounded in
    let plus_low : sum_over (plus st) cs ≤ length cs * total =
      omega (arith, low, counted, sum_balanced cs total n picks st h.balanced) in
    Fits-All cs total n (length cs * total) picks st (omega (arith, room)) twice weights
      (summands-le (plus st) (length cs * total) cs plus_low)
      (summands-le weight_ℕ total cs (omega arith)) h.bounded
