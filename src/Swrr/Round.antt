-- ===== src/Swrr/Round.antt =====
-- What one round does to the running weights, where the candidates have distinct ids.
use hygress.Common.{
  ◌≡◌, ◌≢◌, refl, ap, ◌∙◌, Str, str_eq, str_eq_iff, str_eq_refl, text_eq, List, [], ◌∷◌, Bool, true,
  if◌then◌else◌, is_some, All, arith,
}
use hygress.Common.Dict.{lookup, lookup-insert, lookup-modify}
use hygress.Common.Int.{ℤ, add_i32, sub_i32, IsI32, ◌+ℤ◌, ◌-ℤ◌, add_i32-IsI32, sub_i32-IsI32}
use hygress.Swrr.{SwrrCandidate, SwrrState, weight_of, add_weight, advance, subtract}

abbrev pub Fresh : Str → List SwrrCandidate → Type 0
Fresh id cs = All (λ d. d.id ≢ id) cs

abbrev pub HasDistinctIds : List SwrrCandidate → Type 0
HasDistinctIds [] = Unit
HasDistinctIds (c ∷ cs) = Fresh c.id cs × HasDistinctIds cs

weight_of-add_weight :
    (id j : Str) (w : ℤ) (st : SwrrState)
    → weight_of (add_weight id w st) j
      ≡ (if str_eq id j then add_i32 (weight_of st id) w else weight_of st j)
unfolding weight_of add_weight
weight_of-add_weight id j w st =
    ground (arith, lookup-insert id j (add_i32 (weight_of st id) w) st.current_weights)

-- The state has a weight for the id.
abbrev pub has_weight : Str → SwrrState → Bool
has_weight id st = is_some (lookup id st.current_weights)

has_weight-add_weight :
    (id j : Str) (w : ℤ) (st : SwrrState)
    → has_weight j st ≡ true
    → has_weight j (add_weight id w st) ≡ true
unfolding add_weight
has_weight-add_weight id j w st h =
    ground (arith, lookup-insert id j (add_i32 (weight_of st id) w) st.current_weights)

has_weight-add_weight_self :
    (id : Str) (w : ℤ) (st : SwrrState) → has_weight id (add_weight id w st) ≡ true
unfolding add_weight
has_weight-add_weight_self id w st =
    ground
      (arith, str_eq_refl id, lookup-insert id id (add_i32 (weight_of st id) w) st.current_weights)

has_weight-advance :
    (j : Str) (cs : List SwrrCandidate) (st : SwrrState)
    → has_weight j st ≡ true
    → has_weight j (advance cs st) ≡ true
unfolding advance
has_weight-advance j [] st h = h
has_weight-advance j (c ∷ cs) st h =
    has_weight-advance j cs (add_weight c.id c.weight st)
      (has_weight-add_weight c.id j c.weight st h)

pub advance-has_weight :
    (cs : List SwrrCandidate) (st : SwrrState)
    → All (λ d. has_weight d.id (advance cs st) ≡ true) cs
unfolding advance
advance-has_weight [] st = tt
advance-has_weight (c ∷ cs) st = (
  has_weight-advance c.id cs (add_weight c.id c.weight st)
      (has_weight-add_weight_self c.id c.weight st),
  advance-has_weight cs (add_weight c.id c.weight st),
)

weight_of-advance-Fresh :
    (j : Str) (cs : List SwrrCandidate) (st : SwrrState)
    → Fresh j cs
    → weight_of (advance cs st) j ≡ weight_of st j
unfolding advance
weight_of-advance-Fresh j [] st h = refl
weight_of-advance-Fresh j (c ∷ cs) st (ne, h) =
    weight_of-advance-Fresh j cs (add_weight c.id c.weight st) h
    ∙ ground (arith, weight_of-add_weight c.id j c.weight st, str_eq_iff c.id j)

transport-weights :
    (c : SwrrCandidate) (ds : List SwrrCandidate) (st after : SwrrState)
    → Fresh c.id ds
    → All
        (λ d.
          weight_of after d.id ≡ add_i32 (weight_of (add_weight c.id c.weight st) d.id) d.weight)
        ds
    → All (λ d. weight_of after d.id ≡ add_i32 (weight_of st d.id) d.weight) ds
transport-weights c [] st after h k = tt
transport-weights c (d ∷ ds) st after (ne, h) (p, k) = (
  p
      ∙ ap (λ w. add_i32 w d.weight)
          (ground (arith, weight_of-add_weight c.id d.id c.weight st, str_eq_iff c.id d.id)),
  transport-weights c ds st after h k,
)

weight_of-advance :
    (cs : List SwrrCandidate) (st : SwrrState)
    → HasDistinctIds cs
    → All (λ d. weight_of (advance cs st) d.id ≡ add_i32 (weight_of st d.id) d.weight) cs
unfolding advance
weight_of-advance [] st h = tt
weight_of-advance (c ∷ cs) st (fresh, h) =
    let st' = add_weight c.id c.weight st in
    (
      weight_of-advance-Fresh c.id cs st' fresh
          ∙ ground (arith, weight_of-add_weight c.id c.id c.weight st, str_eq_refl c.id),
      transport-weights c cs st (advance cs st') fresh (weight_of-advance cs st' h),
    )

weight_of-subtract :
    (id j : Str) (total : ℤ) (st : SwrrState)
    → has_weight id st ≡ true
    → weight_of (subtract id total st) j
      ≡ (if str_eq id j then sub_i32 (weight_of st j) total else weight_of st j)
unfolding subtract weight_of
weight_of-subtract id j total st h =
    ground (arith, str_eq_iff id j, lookup-modify id j (λ w. sub_i32 w total) st.current_weights)

-- Where nothing overflows, the weights are the sums over the integers.
advance-IsI32 :
    (ds : List SwrrCandidate) (st after : SwrrState)
    → All (λ d. IsI32 (weight_of st d.id +ℤ d.weight)) ds
    → All (λ d. weight_of after d.id ≡ add_i32 (weight_of st d.id) d.weight) ds
    → All (λ d. weight_of after d.id ≡ weight_of st d.id +ℤ d.weight) ds
advance-IsI32 [] st after h e = tt
advance-IsI32 (d ∷ ds) st after (h, hs) (e, es) =
    (e ∙ add_i32-IsI32 (weight_of st d.id) d.weight h, advance-IsI32 ds st after hs es)

pub weight_of-advance_exact :
    (cs : List SwrrCandidate) (st : SwrrState)
    → HasDistinctIds cs
    → All (λ d. IsI32 (weight_of st d.id +ℤ d.weight)) cs
    → All (λ d. weight_of (advance cs st) d.id ≡ weight_of st d.id +ℤ d.weight) cs
weight_of-advance_exact cs st distinct h =
    advance-IsI32 cs st (advance cs st) h (weight_of-advance cs st distinct)

pub weight_of-subtract_exact :
    (id j : Str) (total : ℤ) (st : SwrrState)
    → has_weight id st ≡ true
    → IsI32 (weight_of st j -ℤ total)
    → weight_of (subtract id total st) j
      ≡ (if str_eq id j then weight_of st j -ℤ total else weight_of st j)
weight_of-subtract_exact id j total st there h =
    weight_of-subtract id j total st there
    ∙ ap (λ w. if str_eq id j then w else weight_of st j) (sub_i32-IsI32 (weight_of st j) total h)
