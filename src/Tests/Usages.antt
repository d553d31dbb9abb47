-- ===== src/Tests/Usages.antt =====
-- Concrete event streams and chunkings of them.
use hygress.Common.{
  ◌≡◌, refl, ap, codes, List, [], ◌∷◌, ◌++◌, none, some, true, false, if◌then◌else◌, is_some,
  str_eq, starts_with, length, concat, length-append, arith,
}
use hygress.External.{Bytes, JsonEngine, Memchr, IsFirst, index_of, index_of_text}
use hygress.Usage.{
  open_ai, no_counts, process_sse_line, trim_ascii, is_ascii_whitespace, usage_from_payload,
  absorb_value, fields_from,
}
use hygress.Usage.Stream.{feed_chunks, new_snapshot}
use hygress.Usage.Stream.Lines.{split_lines, judge_all}
use hygress.Usage.Stream.Probe.{has_marker, has_later_marker}
use hygress.Usage.Stream.Cuts.{is_json, IsEventStream, feed_chunks-split_lines}

-- Every text that begins with a brace is an object; a key that occurs is there, and all numbers
-- are the length of the text.
abbrev braces : JsonEngine
braces = record {
  Value = Bytes;
  from_slice = λ s. if starts_with (codes "{") s then some s else none;
  is_object = λ v. true;
  get = λ v key. if is_some (index_of_text key v) then some v else none;
  as_u64 = λ v. some (length v);
}

abbrev pub scanner : Memchr
scanner = record { memchr = index_of; memmem = index_of_text }

pub scanner-IsFirst : IsFirst scanner
scanner-IsFirst = record { memchr_first = λ b s. refl; memmem_first = λ p s. refl }

abbrev pieces : List Bytes
pieces =
    codes "da"
    ∷ codes "ta: {\"usage\":{\"to"
    ∷ codes "tal_tokens\":1}}\n\nda"
    ∷ codes "ta: [DONE]\n"
    ∷ []

not_json : (p q : Bytes) → p ++ q ≡ concat pieces → is_json braces (braces.from_slice p) ≡ false
unfolding starts_with
not_json [] q h = refl
not_json (x ∷ p) q h = let first : x ≡ 100 = cc in rw first refl

pieces-IsEventStream : IsEventStream braces (concat pieces)
unfolding has_marker has_later_marker starts_with
pieces-IsEventStream = record {
  begins = refl;
  fits = λ p q h none_yet. omega (arith, length-append p q, ap length h);
  plain = λ p q h none_yet. not_json p q h;
}

feed_chunks-split_lines_example :
    (feed_chunks braces scanner (new_snapshot open_ai) pieces).counts
    ≡ (judge_all braces scanner (split_lines (concat pieces)).0 (no_counts open_ai, false)).0
unfolding split_lines
feed_chunks-split_lines_example =
    feed_chunks-split_lines braces scanner scanner-IsFirst open_ai pieces pieces-IsEventStream
      ((omega arith, (omega arith, (omega arith, tt))), omega arith)

both_counted :
    (judge_all braces scanner
      (split_lines (concat pieces)).0
      (no_counts open_ai, false)).0.output_chunk_count
    ≡ 1
unfolding split_lines judge_all process_sse_line starts_with trim_ascii is_ascii_whitespace str_eq
    usage_from_payload absorb_value fields_from
both_counted = refl
