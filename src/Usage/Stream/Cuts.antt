-- ===== src/Usage/Stream/Cuts.antt =====
-- A response in chunks: the counts do not depend on the cuts.
use hygress.Common.{
  ◌≡◌, true-ne-false, starts_with, refl, sym, ap, ◌∙◌, subst, ℕ, suc, ◌+◌, ◌≤◌, List, [], ◌∷◌, ◌++◌,
  append_assoc, append-nil, Option, none, some, Bool, true, false, ltb, ◌&&◌, is_empty, length,
  concat, take, drop, length-append, arith, Bool-cases, Option-cases, inl, inr,
}
use hygress.External.{Bytes, JsonEngine, Memchr, IsFirst, index_of}
use hygress.Usage.{UsageCounts, UsageSchema, no_counts}
use hygress.Usage.Stream.{
  UsageSnapshot, unknown, sse, new_snapshot, max_tail_bytes, consume_sse, keep_sliver, slice_lines,
  splice_at, slice_from, consume_sse_slice, classify, feed_usage, try_json, max_json_parse_attempts,
  feed_chunks, probe_anchored_data, json_may_have_completed,
}
use hygress.Usage.Stream.Lines.{
  split_lines, split_lines-append, judge, judge_all, judge_all-append, judge_all-counts,
  lines_of-split_lines, length-take_found, split_lines-splice, split_lines-whole, IsShort,
  IsShort-append, no_newline_left,
}
use hygress.Usage.Stream.Probe.{has_marker, has_later_marker, probe_anchored_data-has_marker}

is_empty-nil : (s : Bytes) → is_empty s ≡ true → s ≡ []
is_empty-nil [] h = refl
is_empty-nil (b ∷ s) h = cc

module _ (js : JsonEngine) where
  abbrev pub is_json : Option js.Value → Bool
  is_json none = false
  is_json (some v) = js.is_object v

  -- Nothing before the first marker is a JSON object or longer than the cap.
  pub record IsEventStream (stream : Bytes) : Type 0 where
    pub begins : has_marker stream ≡ true
    pub fits : (p q : Bytes) → p ++ q ≡ stream → has_marker p ≡ false → length p ≤ max_tail_bytes
    pub plain :
        (p q : Bytes) → p ++ q ≡ stream → has_marker p ≡ false → is_json (js.from_slice p) ≡ false

module _ (js : JsonEngine) (mem : Memchr) (first : IsFirst mem) where
  -- The snapshot has read `a` as an event stream.
  pub record Streams (start : UsageCounts) (a : Bytes) (u : UsageSnapshot) : Type 0 where
    pub in_sse : u.mode ≡ sse
    pub not_skipping : u.skip_until_newline ≡ false
    pub pending : u.tail ≡ (split_lines a).1
    pub judged : u.counts ≡ (judge_all js mem (split_lines a).0 (start, false)).0

  keep_sliver-short :
      (u : UsageSnapshot) (s : Bytes)
      → u.tail ≡ []
      → length s ≤ max_tail_bytes
      → keep_sliver js mem u s ≡ record u { tail = s }
  keep_sliver-short u [] h short = refl
  keep_sliver-short u (b ∷ s) h short = rw h (ground (arith, short))

  -- The snapshot after the lines of `s` with the flag `found`.
  abbrev read : UsageSnapshot → Bool → Bytes → UsageSnapshot
  read u found s = record u {
    counts = (judge_all js mem (split_lines s).0 (u.counts, found)).0;
    tail = (split_lines s).1;
  }

  slice_lines-split_lines :
      (u : UsageSnapshot) (found : Bool) (s : Bytes)
      → u.tail ≡ []
      → length (split_lines s).1 ≤ max_tail_bytes
      → (slice_lines js mem u found s).0 ≡ read u found s
  unfolding slice_lines
  slice_lines-split_lines u found s h short =
      rw (lines_of-split_lines js mem first s (u.counts, found)) (
        keep_sliver-short
          (record u { counts = (judge_all js mem (split_lines s).0 (u.counts, found)).0 })
          (split_lines s).1 h short)

  splice_at-split_lines :
      (u : UsageSnapshot) (c : Bytes)
      → index_of 10 u.tail ≡ none
      → IsShort (u.tail ++ c)
      → (splice_at js mem u c (index_of 10 c)).0 ≡ read u false (u.tail ++ c)
  unfolding splice_at judge_all
  splice_at-split_lines u c h short = elim (Option-cases (index_of 10 c)) [
    | inl e ↦
        let cut = split_lines-whole u.tail c h e in
        let fits : length (u.tail ++ c) ≤ max_tail_bytes = rw cut at short.1 in
        rw e (rw cut (ground (arith, fits, length-append u.tail c)))
    | inr (i, e) ↦
        let cut = split_lines-splice u.tail c i h e in
        let line : length (u.tail ++ take i c) ≤ max_tail_bytes = (rw cut at short.0).0 in
        let fits : ltb max_tail_bytes (length u.tail + i) ≡ false =
          ground (arith, line, length-append u.tail (take i c), length-take_found c i e) in
        rw e (
          rw cut (
            rw fits (
              slice_lines-split_lines
                (record u {
                  tail = [];
                  counts = (judge js mem (u.tail ++ take i c) (u.counts, false)).0;
                })
                (judge js mem (u.tail ++ take i c) (u.counts, false)).1 (drop (suc i) c) refl
                (rw cut at short.1))))
  ]

  slice_from-split_lines :
      (u : UsageSnapshot) (c : Bytes)
      → index_of 10 u.tail ≡ none
      → IsShort (u.tail ++ c)
      → (slice_from js mem u c).0 ≡ read u false (u.tail ++ c)
  unfolding slice_from
  slice_from-split_lines u c h short = elim (Bool-cases (is_empty u.tail)) [
    | inl e ↦
        let at = is_empty-nil u.tail e in
        let whole : u.tail ++ c ≡ c = ap (λ t. t ++ c) at in
        rw e (
          slice_lines-split_lines u false c at (subst (λ s. IsShort s) whole short).1
          ∙ ap (λ s. read u false s) (sym whole))
    | inr e ↦ rw e (rw (first.memchr_first 10 c) (splice_at-split_lines u c h short))
  ]

  consume_sse_slice-slice_from :
      (u : UsageSnapshot) (c : Bytes)
      → u.skip_until_newline ≡ false
      → consume_sse_slice js mem u c ≡ slice_from js mem u c
  unfolding consume_sse_slice
  consume_sse_slice-slice_from u c on = simp on refl

  feed_usage-consume_sse_slice :
      (u : UsageSnapshot) (b : ℕ) (c : Bytes)
      → u.mode ≡ sse
      → feed_usage js mem u (b ∷ c) ≡ consume_sse_slice js mem u (b ∷ c)
  unfolding feed_usage
  feed_usage-consume_sse_slice u b c on = simp on refl

  judge_all-stream :
      (start : UsageCounts) (a c : Bytes)
      → (judge_all js mem (split_lines (a ++ c)).0 (start, false)).0
        ≡ (judge_all js mem
            (split_lines ((split_lines a).1 ++ c)).0
            ((judge_all js mem (split_lines a).0 (start, false)).0, false)).0
  judge_all-stream start a c =
      let later = (split_lines ((split_lines a).1 ++ c)).0 in
      let r = judge_all js mem (split_lines a).0 (start, false) in
      rw (split_lines-append a c) (
        rw (judge_all-append js mem (split_lines a).0 later (start, false))
          (judge_all-counts js mem later r.0 r.1 false))

  Streams-step :
      (start : UsageCounts) (a c : Bytes) (u : UsageSnapshot)
      → Streams start a u
      → IsShort (a ++ c)
      → Streams start (a ++ c) (feed_usage js mem u c).0
  unfolding feed_usage
  Streams-step start a [] u at short = rw (append-nil a) at
  Streams-step start a (b ∷ c) u at short =
      let later = (IsShort-append a (b ∷ c) short).1 in
      let next =
        ap (λ r. r.0)
          (feed_usage-consume_sse_slice u b c at.in_sse
            ∙ consume_sse_slice-slice_from u (b ∷ c) at.not_skipping)
        ∙ slice_from-split_lines u (b ∷ c) (rw at.pending (no_newline_left a))
            (rw at.pending later) in
      rw next record {
        in_sse = at.in_sse;
        not_skipping = at.not_skipping;
        pending = rw at.pending (rw (split_lines-append a (b ∷ c)) refl);
        judged = rw at.pending (rw at.judged (sym (judge_all-stream start a (b ∷ c))));
      }

  -- The snapshot has read `a`, and waits for the begin of an event stream.
  record Waits (schema : UsageSchema) (a : Bytes) (u : UsageSnapshot) : Type 0 where
    in_unknown : u.mode ≡ unknown
    fresh : u.skip_until_newline ≡ false
    held : u.tail ≡ a
    searched : u.data_probe ≡ length a
    uncounted : u.counts ≡ no_counts schema

  feed_usage-classify :
      (u : UsageSnapshot) (b : ℕ) (c : Bytes)
      → u.mode ≡ unknown
      → feed_usage js mem u (b ∷ c) ≡ classify js mem (record u { tail = u.tail ++ b ∷ c })
  unfolding feed_usage
  feed_usage-classify u b c on = simp on refl

  Streams-begin :
      (schema : UsageSchema) (u : UsageSnapshot)
      → u.skip_until_newline ≡ false
      → u.counts ≡ no_counts schema
      → probe_anchored_data u.tail u.data_probe ≡ true
      → Streams (no_counts schema) u.tail (classify js mem u).0
  unfolding classify consume_sse
  Streams-begin schema u fresh uncounted found = rw found (
      rw (lines_of-split_lines js mem first u.tail (u.counts, false))
        record { in_sse = refl; not_skipping = fresh; pending = refl; judged = rw uncounted refl })

  try_json-plain :
      (o : Option js.Value) (u : UsageSnapshot)
      → is_json js o ≡ false
      → try_json js mem o u ≡ (u, false)
  try_json-plain none u h = refl
  try_json-plain (some v) u h = rw h refl

  Waits-step :
      (schema : UsageSchema) (u : UsageSnapshot)
      → u.mode ≡ unknown
      → u.skip_until_newline ≡ false
      → u.counts ≡ no_counts schema
      → probe_anchored_data u.tail u.data_probe ≡ false
      → length u.tail ≤ max_tail_bytes
      → is_json js (js.from_slice u.tail) ≡ false
      → Waits schema u.tail (classify js mem u).0
  unfolding classify
  Waits-step schema u on fresh uncounted none_yet fits plain =
      let small : ltb max_tail_bytes (length u.tail) ≡ false = ground (arith, fits) in
      let asks =
        json_may_have_completed u.tail && ltb u.json_parse_attempts max_json_parse_attempts in
      rw none_yet (
        rw small (elim (Bool-cases asks) [
          | inl e ↦ rw e (
              rw
                (try_json-plain (js.from_slice u.tail)
                  (record u {
                    data_probe = length u.tail;
                    json_parse_attempts = suc u.json_parse_attempts;
                  })
                  plain)
                record {
                  in_unknown = on;
                  fresh = fresh;
                  held = refl;
                  searched = refl;
                  uncounted = uncounted;
                })
          | inr e ↦ rw e record {
            in_unknown = on;
            fresh = fresh;
            held = refl;
            searched = refl;
            uncounted = uncounted;
          }
        ]))

  -- What the counts are to be once the whole stream has been read.
  abbrev counts_of : UsageSchema → Bytes → UsageCounts
  counts_of schema stream = (judge_all js mem (split_lines stream).0 (no_counts schema, false)).0

  Streams-all :
      (schema : UsageSchema) (cs : List Bytes) (a : Bytes) (u : UsageSnapshot)
      → Streams (no_counts schema) a u
      → IsShort (a ++ concat cs)
      → (feed_chunks js mem u cs).counts ≡ counts_of schema (a ++ concat cs)
  unfolding feed_chunks
  Streams-all schema [] a u at short = rw (append-nil a) at.judged
  Streams-all schema (c ∷ cs) a u at short =
      let parts : a ++ (c ++ concat cs) ≡ (a ++ c) ++ concat cs =
        sym (append_assoc a c (concat cs)) in
      let here : IsShort ((a ++ c) ++ concat cs) = subst (λ s. IsShort s) parts short in
      let next =
        Streams-step (no_counts schema) a c u at (IsShort-append (a ++ c) (concat cs) here).0 in
      rw parts (Streams-all schema cs (a ++ c) (feed_usage js mem u c).0 next here)

  probed :
      (schema : UsageSchema) (a c : Bytes) (u : UsageSnapshot)
      → Waits schema a u
      → has_marker a ≡ false
      → probe_anchored_data (u.tail ++ c) u.data_probe ≡ has_marker (a ++ c)
  probed schema a c u at h = rw at.held (rw at.searched (probe_anchored_data-has_marker a c h))

  Waits-Streams :
      (schema : UsageSchema) (a c : Bytes) (u : UsageSnapshot)
      → Waits schema a u
      → has_marker a ≡ false
      → has_marker (a ++ c) ≡ true
      → Streams (no_counts schema) (a ++ c) (feed_usage js mem u c).0
  Waits-Streams schema a [] u at h found =
      absurd (true-ne-false (sym found ∙ (rw (append-nil a) h)))
  Waits-Streams schema a (b ∷ c) u at h found = rw (feed_usage-classify u b c at.in_unknown) (
      subst
        (λ t.
          Streams (no_counts schema) (t ++ b ∷ c)
            (classify js mem (record u { tail = u.tail ++ b ∷ c })).0)
        at.held
        (Streams-begin schema (record u { tail = u.tail ++ b ∷ c }) at.fresh at.uncounted
          (probed schema a (b ∷ c) u at h ∙ found)))

  Waits-on :
      (schema : UsageSchema) (a c : Bytes) (u : UsageSnapshot)
      → Waits schema a u
      → has_marker a ≡ false
      → has_marker (a ++ c) ≡ false
      → length (a ++ c) ≤ max_tail_bytes
      → is_json js (js.from_slice (a ++ c)) ≡ false
      → Waits schema (a ++ c) (feed_usage js mem u c).0
  unfolding feed_usage
  Waits-on schema a [] u at h none_yet fits plain = rw (append-nil a) at
  Waits-on schema a (b ∷ c) u at h none_yet fits plain =
      rw (feed_usage-classify u b c at.in_unknown) (
        subst
          (λ t. Waits schema (t ++ b ∷ c) (classify js mem (record u { tail = u.tail ++ b ∷ c })).0)
          at.held
          (Waits-step schema (record u { tail = u.tail ++ b ∷ c }) at.in_unknown at.fresh
            at.uncounted (probed schema a (b ∷ c) u at h ∙ none_yet) (rw at.held fits)
            (rw at.held plain)))

  Waits-all :
      (schema : UsageSchema) (stream : Bytes)
      → IsEventStream js stream
      → IsShort stream
      → (cs : List Bytes) (a : Bytes) (u : UsageSnapshot) → Waits schema a u
      → has_marker a ≡ false
      → a ++ concat cs ≡ stream
      → (feed_chunks js mem u cs).counts ≡ counts_of schema stream
  unfolding feed_chunks
  Waits-all schema stream ok short [] a u at h whole =
      let whole_marker : has_marker stream ≡ false = rw (← whole) (rw (append-nil a) h) in
      absurd (true-ne-false (sym ok.begins ∙ whole_marker))
  Waits-all schema stream ok short (c ∷ cs) a u at h whole =
      let parts : (a ++ c) ++ concat cs ≡ stream = append_assoc a c (concat cs) ∙ whole in
      let next = (feed_usage js mem u c).0 in
      elim (Bool-cases (has_marker (a ++ c))) [
        | inl e ↦
            Streams-all schema cs (a ++ c) next (Waits-Streams schema a c u at h e) (rw parts short)
            ∙ ap (λ s. counts_of schema s) parts
        | inr e ↦
            Waits-all schema stream ok short cs (a ++ c) next
              (Waits-on schema a c u at h e (ok.fits (a ++ c) (concat cs) parts e)
                (ok.plain (a ++ c) (concat cs) parts e))
              e parts
      ]

  -- The counts of an event stream none of whose lines is longer than the cap are those of its
  -- lines one after the other, whatever the chunks in which it arrives.
  pub feed_chunks-split_lines :
      (schema : UsageSchema) (chunks : List Bytes)
      → IsEventStream js (concat chunks)
      → IsShort (concat chunks)
      → (feed_chunks js mem (new_snapshot schema) chunks).counts
        ≡ (judge_all js mem (split_lines (concat chunks)).0 (no_counts schema, false)).0
  unfolding has_marker has_later_marker starts_with
  feed_chunks-split_lines schema chunks ok short =
      Waits-all schema (concat chunks) ok short chunks [] (new_snapshot schema)
        record { in_unknown = refl; fresh = refl; held = refl; searched = refl; uncounted = refl }
        refl refl
