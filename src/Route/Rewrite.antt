-- ===== src/Route/Rewrite.antt =====
-- Path rewriting against a reading of the target as a template.
use hygress.Common.{◌≡◌, ◌≢◌, refl, ap, ◌∙◌, Str, ℕ, ◌+◌, ◌<◌, List, [], ◌∷◌, ◌++◌, All, arith}
use hygress.Route.{rewrite, rewrite_chars, group_text}

-- A character other than `$`, a `$` itself, or the group with the number i + 1.
pub data Piece : Type 0 where
  literal : ℕ → Piece
  dollar : Piece
  group : ℕ → Piece

abbrev pub IsPiece : Piece → Type 0
IsPiece (literal c) = c ≢ 36
IsPiece dollar = Unit
IsPiece (group i) = i < 9

-- The target that a template is written as: `$$` for a `$`, and `$1` to `$9` for the groups.
unfoldable pub print_template : List Piece → Str
print_template [] = []
print_template (literal c ∷ ps) = c ∷ print_template ps
print_template (dollar ∷ ps) = 36 ∷ 36 ∷ print_template ps
print_template (group i ∷ ps) = 36 ∷ (49 + i) ∷ print_template ps

-- The text that a template stands for.
unfoldable pub fill : List Str → List Piece → Str
fill groups [] = []
fill groups (literal c ∷ ps) = c ∷ fill groups ps
fill groups (dollar ∷ ps) = 36 ∷ fill groups ps
fill groups (group i ∷ ps) = group_text groups i ++ fill groups ps

rewrite_chars-literal :
    (groups : List Str) (c : ℕ) (s : Str)
    → c ≢ 36
    → rewrite_chars groups (c ∷ s) ≡ c ∷ rewrite_chars groups s
unfolding rewrite_chars
rewrite_chars-literal groups c [] h = refl
rewrite_chars-literal groups c (d ∷ s) h = ground arith

rewrite_chars-group :
    (groups : List Str) (i : ℕ) (s : Str)
    → i < 9
    → rewrite_chars groups (36 ∷ (49 + i) ∷ s) ≡ group_text groups i ++ rewrite_chars groups s
unfolding rewrite_chars
rewrite_chars-group groups i s h = ground arith

rewrite_chars-print_template :
    (groups : List Str) (ps : List Piece)
    → All IsPiece ps
    → rewrite_chars groups (print_template ps) ≡ fill groups ps
unfolding print_template fill rewrite_chars
rewrite_chars-print_template groups [] h = refl
rewrite_chars-print_template groups (literal c ∷ ps) (ne, h) =
    rewrite_chars-literal groups c (print_template ps) ne
    ∙ ap (λ t. c ∷ t) (rewrite_chars-print_template groups ps h)
rewrite_chars-print_template groups (dollar ∷ ps) (_, h) =
    ap (λ t. 36 ∷ t) (rewrite_chars-print_template groups ps h)
rewrite_chars-print_template groups (group i ∷ ps) (lt, h) =
    rewrite_chars-group groups i (print_template ps) lt
    ∙ ap (λ t. group_text groups i ++ t) (rewrite_chars-print_template groups ps h)

-- Rewriting with a target written from a template gives the template's text: the characters and
-- the dollar signs as they stand, and each group's text, nothing where there is no such group. The
-- template's characters are no `$`, and its groups are the first nine.
pub rewrite-print_template :
    (groups : List Str) (ps : List Piece)
    → All IsPiece ps
    → rewrite (record { target = print_template ps }) groups ≡ fill groups ps
unfolding rewrite
rewrite-print_template groups ps h = rewrite_chars-print_template groups ps h
