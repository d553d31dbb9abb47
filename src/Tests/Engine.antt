-- ===== src/Tests/Engine.antt =====
-- A small engine in place of the regex crate: a pattern is a literal text, which matches where it
-- occurs, or is a literal in `^(?:` and `)$`, which matches the whole text.
use hygress.Common.{
  Str, str_eq, Bool, ◌||◌, [], ◌∷◌, none, some, is_some, split_once_str, if◌then◌else◌,
}
use hygress.Regex.{RegexEngine}
use hygress.RouteTable.{full_match_pattern}

unfoldable pub literal_match : Str → Str → Bool
unfolding split_once_str str_eq
literal_match pattern text =
    str_eq pattern (full_match_pattern text) || is_some (split_once_str pattern text)

abbrev pub literal_engine : RegexEngine
literal_engine = record {
  Regex = Str;
  build = λ pattern flag. some pattern;
  is_match = literal_match;
  captures = λ pattern text. if literal_match pattern text then some (some text ∷ []) else none;
}
