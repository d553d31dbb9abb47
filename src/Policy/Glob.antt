-- ===== src/Policy/Glob.antt =====
-- `glob_match` of crates/hygress-core/src/policy.rs, and `pin_matches` of route_policy.rs. An
-- index into the pattern or the input is the part of the text that begins there; `star_pi` and
-- `star_si` are one option, absent while `star_pi` is `usize::MAX`.
use hygress.Common.{
  ℕ, zero, suc, ◌+◌, ◌*◌, Str, Bool, false, Option, none, some, [], ◌∷◌, ◌==◌, if◌then◌else◌,
  is_empty, length, unwrap_or, drop,
}

abbrev pub star : ℕ
star = b'*'

abbrev pub Backtrack : Type 0
Backtrack = Option (Str × Str)

-- The trailing `*`s match the empty remainder.
unfoldable pub skip_stars : Str → Str
skip_stars [] = []
skip_stars (c ∷ p) = if c == star then skip_stars p else c ∷ p

-- One round of the main loop at an input that is not empty: the answer, or the next state.
pub data Round : Type 0 where
  answer : Bool → Round
  goto : Str → Str → Backtrack → Round

abbrev pub backtrack : Backtrack → Round
backtrack none = answer false
backtrack (some (star_p, star_s)) = goto star_p (drop 1 star_s) (some (star_p, drop 1 star_s))

unfoldable pub glob_round : Str → ℕ → Str → Backtrack → Round
glob_round [] c s b = backtrack b
glob_round (x ∷ p) c s b =
    if x == star
    then goto p (c ∷ s) (some (p, c ∷ s))
    else if x == c
    then goto p s b
    else backtrack b

-- The main loop, on fuel.
unfoldable pub glob_loop : ℕ → Str → Str → Backtrack → Option Bool
glob_loop zero p s b = none
glob_loop (suc f) p [] b = some (is_empty (skip_stars p))
glob_loop (suc f) p (c ∷ s) b = elim (glob_round p c s b) [
  | answer r ↦ some r
  | goto p' s' b' ↦ glob_loop f p' s' b'
]

abbrev pub glob_fuel : Str → Str → ℕ
glob_fuel p s =
    (length p + 1) * ((length s + 2) * (length s + 2)) + (length s + 2) * (length s + 2) + 1

unfoldable pub glob_match : Str → Str → Bool
unfolding glob_loop glob_round skip_stars
glob_match pattern input = unwrap_or (glob_loop (glob_fuel pattern input) pattern input none) false

unfoldable pub pin_matches : Str → Str → Bool
unfolding glob_match
pin_matches pattern service_name = glob_match pattern service_name
