-- ===== src/Guardrail.antt =====
-- crates/hygress-core/src/guardrail.rs: the static rules, and the scanner that carries a bounded
-- tail of the response over chunk boundaries. Bytes are numbers below 256; the lossy decoding of
-- UTF-8 belongs to the standard library and is a parameter beside the regex crate.
pub mod Response
pub mod Scanner
use hygress.Common.{
  Str, ℕ, ◌-◌, List, [], ◌∷◌, ◌++◌, Option, none, some, Bool, false, length, drop, if◌then◌else◌,
  ltb, is_empty,
}
use hygress.Common.Results.{Result, ok, err, Error, parse_error, ◌>>=◌, ok_or, collect}
use hygress.Policy.{GuardAction, StaticRuleSpec}
use hygress.Regex.{RegexEngine}

pub record GuardDecision : Type 0 where
  pub hit_name : Str
  pub action : GuardAction

module _ (rx : RegexEngine) where
  open rx use {Regex, build, is_match}

  -- A compiled rule: its name, its regex and its action.
  abbrev pub Rule : Type 0
  Rule = Str × Regex × GuardAction

  pub record StaticRuleSet : Type 0 where
    pub rules : List Rule

  unfoldable pub compile_rule : StaticRuleSpec → Result Error Rule
  compile_rule r = do re ← ok_or (build r.regex false) parse_error; ok (r.name, re, r.action)

  -- `StaticRuleSet::new`.
  unfoldable pub compile_rules : List StaticRuleSpec → Result Error StaticRuleSet
  unfolding compile_rule collect
  compile_rules specs = do compiled ← collect compile_rule specs; ok (record { rules = compiled })

  -- The loop of `StaticRuleSet::evaluate`: the first hit in rule order.
  unfoldable pub first_hit : List Rule → Str → Option GuardDecision
  first_hit [] text = none
  first_hit ((name, re, action) ∷ rules) text =
      if is_match re text
      then some (record { hit_name = name; action = action })
      else first_hit rules text

  unfoldable pub evaluate : StaticRuleSet → Str → Option GuardDecision
  unfolding first_hit
  evaluate set text = first_hit set.rules text

  -- `max_tail` is a `usize`.
  pub record ChunkScanner : Type 0 where
    pub buffer : List ℕ
    pub rules : StaticRuleSet
    pub max_tail : ℕ

  unfoldable pub new_scanner : StaticRuleSet → ℕ → ChunkScanner
  new_scanner rules max_tail = record { buffer = []; rules = rules; max_tail = max_tail }

  -- `extend_from_slice` and the `drain` of the excess.
  unfoldable pub push_chunk : ChunkScanner → List ℕ → ChunkScanner
  push_chunk s chunk =
      let joined = s.buffer ++ chunk in
      let kept =
        if ltb s.max_tail (length joined)
        then drop (length joined - s.max_tail) joined
        else joined in
      record s { buffer = kept }

  module _ (from_utf8_lossy : List ℕ → Str) where
    unfoldable pub evaluate_buffer : ChunkScanner → Option GuardDecision
    unfolding evaluate
    evaluate_buffer s = evaluate s.rules (from_utf8_lossy s.buffer)

    unfoldable pub feed : ChunkScanner → List ℕ → ChunkScanner × Option GuardDecision
    unfolding push_chunk
    feed s chunk = let s' = push_chunk s chunk in (s', evaluate_buffer s')

    unfoldable pub finish : ChunkScanner → ChunkScanner × Option GuardDecision
    finish s = (record s { buffer = [] }, evaluate_buffer s)
