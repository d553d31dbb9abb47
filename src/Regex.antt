-- ===== src/Regex.antt =====
-- The `regex` crate, which is not part of the repository: what the program calls of it, as the
-- parameter of the models that use it.
use hygress.Common.{Str, Bool, List, Option}

pub record RegexEngine : Type 1 where
  pub Regex : Type 0
  -- `RegexBuilder::new(pattern).case_insensitive(flag).build()`; `Regex::new(pattern)` is the
  -- same with the flag off. `none` is an error.
  pub build : Str → Bool → Option Regex
  pub is_match : Regex → Str → Bool
  -- The groups of a match, the whole match first; a group that took no part is `none`.
  pub captures : Regex → Str → Option (List (Option Str))
