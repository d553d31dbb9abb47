-- ===== src/Guardrail/Response.antt =====
-- crates/hygress-gateway/src/response_pipeline.rs, and the loop of `stream_back` of
-- crates/hygress-gateway/src/pipe.rs that writes a response: which chunks reach the client.
use hygress.Common.{
  ◌≡◌, refl, sym, ◌∙◌, Str, ℕ, List, [], ◌∷◌, ◌++◌, Option, none, some, Bool, is_empty, is_some,
  if◌then◌else◌, Option-cases, inl, inr,
}
use hygress.Common.Results.{Result, ok, err, Error}
use hygress.Policy.{StaticRuleSpec}
use hygress.Regex.{RegexEngine}
use hygress.Guardrail.{
  GuardDecision, StaticRuleSet, compile_rules, ChunkScanner, new_scanner, feed, evaluate,
}
use hygress.Guardrail.Scanner.{
  last, last-append_last, feed-buffer, feed-decision, feed-rules, feed-max_tail,
}

abbrev pub max_tail_response : ℕ
max_tail_response = 4096

module _ (rx : RegexEngine) where
  -- No scanner is the state in which chunks are only observed.
  pub record ResponsePipeline : Type 0 where
    pub scanner : Option (ChunkScanner rx)

  abbrev pub from_compiled : Option (StaticRuleSet rx) → ResponsePipeline
  from_compiled none = record { scanner = none }
  from_compiled (some set) = record { scanner = some (new_scanner rx set max_tail_response) }

  abbrev of_result : Result Error (StaticRuleSet rx) → ResponsePipeline
  of_result (err e) = from_compiled none
  of_result (ok set) = from_compiled (some set)

  unfoldable pub new_pipeline : List StaticRuleSpec → ResponsePipeline
  new_pipeline rules =
      if is_empty rules then from_compiled none else of_result (compile_rules rx rules)

  abbrev pub is_active : ResponsePipeline → Bool
  is_active p = is_some p.scanner

  module _ (from_utf8_lossy : List ℕ → Str) where
    abbrev fed : ChunkScanner rx × Option GuardDecision → ResponsePipeline × Option GuardDecision
    fed (s, decision) = (record { scanner = some s }, decision)

    abbrev on_scanner : Option (ChunkScanner rx) → List ℕ → ResponsePipeline × Option GuardDecision
    on_scanner none chunk = (record { scanner = none }, none)
    on_scanner (some s) chunk = fed (feed rx from_utf8_lossy s chunk)

    unfoldable pub on_chunk : ResponsePipeline → List ℕ → ResponsePipeline × Option GuardDecision
    on_chunk p chunk = on_scanner p.scanner chunk

    -- A hit stops the writing before its chunk.
    abbrev unless_hit : Option GuardDecision → List ℕ → List (List ℕ) → List (List ℕ)
    unless_hit none chunk rest = chunk ∷ rest
    unless_hit (some hit) chunk rest = []

    unfoldable pub written : ResponsePipeline → List (List ℕ) → List (List ℕ)
    written p [] = []
    written p (c ∷ cs) = let r = on_chunk p c in unless_hit r.1 c (written r.0 cs)

    -- At no chunk does a rule hit the tail of what was written up to its end.
    abbrev pub IsClean : StaticRuleSet rx → List ℕ → List (List ℕ) → Type 0
    IsClean set seen [] = Unit
    IsClean set seen (c ∷ cs) =
        (evaluate rx set (from_utf8_lossy (last max_tail_response (seen ++ c))) ≡ none)
        × IsClean set (seen ++ c) cs

    written-from :
        (set : StaticRuleSet rx) (s : ChunkScanner rx) (seen : List ℕ) (cs : List (List ℕ))
        → s.rules ≡ set
        → s.max_tail ≡ max_tail_response
        → s.buffer ≡ last max_tail_response seen
        → IsClean set seen (written (record { scanner = some s }) cs)
    unfolding written on_chunk
    written-from set s seen [] r m b = tt
    written-from set s seen (c ∷ cs) r m b =
        let decision = (feed rx from_utf8_lossy s c).1 in
        let next = (feed rx from_utf8_lossy s c).0 in
        let tail : last s.max_tail (s.buffer ++ c) ≡ last max_tail_response (seen ++ c) =
          rw m (rw b (last-append_last max_tail_response seen c)) in
        let judged : decision
            ≡ evaluate rx set (from_utf8_lossy (last max_tail_response (seen ++ c))) =
          rw (feed-decision rx from_utf8_lossy s c) (rw tail (rw r refl)) in
        elim (Option-cases decision) [
          | inl e ↦ rw e (
            sym judged ∙ e,
            written-from set next (seen ++ c) cs (feed-rules rx from_utf8_lossy s c ∙ r)
                (feed-max_tail rx from_utf8_lossy s c ∙ m)
                (feed-buffer rx from_utf8_lossy s c ∙ tail),
          )
          | inr (hit, e) ↦ rw e tt
        ]

    -- Under a compiled set of rules no chunk is written at which a rule hits the tail of the
    -- response so far, however the response is cut; the chunk with the hit is not written.
    pub written-IsClean :
        (set : StaticRuleSet rx) (cs : List (List ℕ))
        → IsClean set [] (written (from_compiled (some set)) cs)
    unfolding new_scanner
    written-IsClean set cs =
        written-from set (new_scanner rx set max_tail_response) [] cs refl refl refl
