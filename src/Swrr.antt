-- ===== src/Swrr.antt =====
-- crates/hygress-core/src/swrr.rs: smooth weighted round robin. Weights and sums are `i32`, with the
-- arithmetic of a build without overflow checks: it wraps around.
pub mod Balance
pub mod Fairness
pub mod Fits
pub mod Pick
pub mod Round
pub mod Sums
use hygress.Common.{
  Str, str_eq, text_eq, ℕ, zero, suc, List, [], ◌∷◌, ◌++◌, Option, none, some, Bool, true, false,
  if◌then◌else◌, unwrap_or, get_elem?, take, drop,
}
use hygress.Common.Int.{ℤ, pos, negsuc, add_i32, sub_i32, ltb_ℤ, leb_ℤ}
use hygress.Common.Dict.{lookup, insert, modify}

pub record SwrrCandidate : Type 0 where
  pub id : Str
  pub weight : ℤ  -- i32

pub record SwrrState : Type 0 where
  pub current_weights : List (Str × ℤ)  -- i32

abbrev pub new_state : SwrrState
new_state = record { current_weights = [] }

-- `iter().sum()`, with the sum of what went before.
unfoldable pub sum_weights : ℤ → List SwrrCandidate → ℤ
sum_weights sum [] = sum
sum_weights sum (c ∷ cs) = sum_weights (add_i32 sum c.weight) cs

unfoldable pub total_weight : List SwrrCandidate → ℤ
total_weight cs = sum_weights (pos 0) cs

-- `get(id).copied().unwrap_or(0)`.
unfoldable pub weight_of : SwrrState → Str → ℤ
weight_of st id = unwrap_or (lookup id st.current_weights) (pos 0)

-- `*entry(id).or_insert(0) += weight`.
unfoldable pub add_weight : Str → ℤ → SwrrState → SwrrState
add_weight id w st = record st {
  current_weights = insert id (add_i32 (weight_of st id) w) st.current_weights;
}

unfoldable pub advance : List SwrrCandidate → SwrrState → SwrrState
advance [] st = st
advance (c ∷ cs) st = advance cs (add_weight c.id c.weight st)

-- The loop that looks for the largest current weight; `i` is the index of the head of what is
-- left, and `best` the candidate at `picked`.
unfoldable pub pick_from :
    SwrrState → ℕ → ℕ → SwrrCandidate → List SwrrCandidate → ℕ × SwrrCandidate
pick_from st i picked best [] = (picked, best)
pick_from st i picked best (c ∷ cs) =
    if ltb_ℤ (weight_of st best.id) (weight_of st c.id)
    then pick_from st (suc i) i c cs
    else pick_from st (suc i) picked best cs

-- `if let Some(cw) = get_mut(id) { *cw -= total }`.
unfoldable pub subtract : Str → ℤ → SwrrState → SwrrState
subtract id total st = record st {
  current_weights = modify id (λ w. sub_i32 w total) st.current_weights;
}

-- `candidates[..=picked].rotate_right(1)`.
unfoldable pub rotate_front : ℕ → SwrrCandidate → List SwrrCandidate → List SwrrCandidate
rotate_front picked best cs = best ∷ (take picked cs ++ drop (suc picked) cs)

-- The steps of `order` where there is a candidate and the total is positive.
unfoldable pub order_round :
    SwrrCandidate → List SwrrCandidate → SwrrState → List SwrrCandidate × SwrrState
unfolding advance add_weight pick_from subtract rotate_front total_weight
order_round c cs st =
    let st1 = advance (c ∷ cs) st in
    let (picked, best) = pick_from st1 1 0 c cs in
    (rotate_front picked best (c ∷ cs), subtract best.id (total_weight (c ∷ cs)) st1)

-- An empty slice has the total 0.
unfoldable pub order : List SwrrCandidate → SwrrState → List SwrrCandidate × SwrrState
unfolding order_round
order [] st = ([], st)
order (c ∷ cs) st =
    if leb_ℤ (total_weight (c ∷ cs)) (pos 0) then (c ∷ cs, st) else order_round c cs st
