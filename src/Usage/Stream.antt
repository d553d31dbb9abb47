-- ===== src/Usage/Stream.antt =====
-- `UsageSnapshot::feed` of crates/hygress-core/src/usage.rs: a response that arrives in chunks. A
-- position in a buffer is the part of it that begins there.
pub mod Cuts
pub mod Lines
pub mod Probe
use hygress.Common.{
  Str, codes, ℕ, zero, suc, ◌+◌, ◌-◌, List, [], ◌∷◌, ◌++◌, Option, none, some, Bool, true, false,
  not, ◌==◌, ltb, leb, ◌&&◌, ◌||◌, if◌then◌else◌, is_empty, starts_with, length, take, drop,
}
use hygress.External.{Bytes, JsonEngine, Memchr}
use hygress.Usage.{
  UsageCounts, UsageSchema, no_counts, is_ascii_whitespace, process_sse_line, absorb_parsed,
}

abbrev pub max_tail_bytes : ℕ
max_tail_bytes = 1048576

abbrev pub max_json_parse_attempts : ℕ
max_json_parse_attempts = 128

pub data Mode : Type 0 where
  unknown sse json oversized : Mode

-- The rest of `UsageSnapshot` beside the counts.
pub record UsageSnapshot : Type 0 where
  pub counts : UsageCounts
  pub tail : Bytes
  pub mode : Mode
  pub json_counted : Bool
  pub data_probe : ℕ
  pub json_parse_attempts : ℕ
  pub skip_until_newline : Bool

abbrev pub new_snapshot : UsageSchema → UsageSnapshot
new_snapshot schema = record {
  counts = no_counts schema;
  tail = [];
  mode = unknown;
  json_counted = false;
  data_probe = 0;
  json_parse_attempts = 0;
  skip_until_newline = false;
}

-- The loop from `from` on, over the windows of six bytes; `fuel` windows are left.
unfoldable pub marker_from : ℕ → Bytes → Bool
marker_from zero s = false
marker_from (suc fuel) s =
    let rest = marker_from fuel (drop 1 s) in if starts_with (codes "\ndata:") s then true else rest

-- The answer; the probe moves to `buf.len()` in every case.
unfoldable pub probe_anchored_data : Bytes → ℕ → Bool
probe_anchored_data buf probe =
    let len = length buf in
    let from = probe - 6 in
    if ltb probe 5 && leb 5 len && starts_with (codes "data:") buf
    then true
    else if ltb len 6
    then false
    else if ltb (len - 6) from
    then false
    else marker_from (suc (len - 6 - from)) (drop from buf)

abbrev last_visible : Bool → Option ℕ → ℕ → Option ℕ
last_visible blank (some b) c = some b
last_visible blank none c = if blank then none else some c

-- `iter().rev().find(|b| !b.is_ascii_whitespace())`.
unfoldable pub last_non_blank : Bytes → Option ℕ
last_non_blank [] = none
last_non_blank (b ∷ s) = last_visible (is_ascii_whitespace b) (last_non_blank s) b

abbrev is_brace : Option ℕ → Bool
is_brace none = false
is_brace (some b) = b == 125

unfoldable pub json_may_have_completed : Bytes → Bool
json_may_have_completed buf = is_brace (last_non_blank buf)

-- What is done where a newline was found, and where none was.
abbrev pub at_newline {ℓ} : {A : Type ℓ} → Option ℕ → A → (ℕ → A) → A
at_newline none stop go = stop
at_newline (some nl) stop go = go nl

module _ (js : JsonEngine) (mem : Memchr) where
  -- The counts, whether a usage object was absorbed, and the bytes after the last newline. The
  -- source's loop ends by its test; here each line found takes one of the fuel.
  unfoldable pub lines_loop : ℕ → Bytes → UsageCounts × Bool → (UsageCounts × Bool) × Bytes
  lines_loop zero rest r = (r, rest)
  lines_loop (suc fuel) rest r =
      at_newline (mem.memchr 10 rest) (r, rest)
        (λ nl.
          let judged = process_sse_line js mem (take nl rest) r.0 in
          lines_loop fuel (drop (suc nl) rest) (judged.0, r.1 || judged.1))

  -- All the lines of a buffer.
  abbrev pub lines_of : Bytes → UsageCounts × Bool → (UsageCounts × Bool) × Bytes
  lines_of buf r = lines_loop (suc (length buf)) buf r

  -- `consume_sse` on the tail, and `discard_prefix` of what it consumed.
  unfoldable pub consume_sse : UsageSnapshot → UsageSnapshot × Bool
  consume_sse u =
      let r = lines_of u.tail (u.counts, false) in (record u { counts = r.0.0; tail = r.1 }, r.0.1)

  -- The sliver after the last newline of a chunk; `u.tail` is empty here.
  abbrev pub keep_sliver : UsageSnapshot → Bytes → UsageSnapshot
  keep_sliver u [] = record u { tail = [] }
  keep_sliver u (b ∷ s) =
      if ltb max_tail_bytes (length u.tail + length (b ∷ s))
      then record u { tail = []; skip_until_newline = true }
      else record u { tail = u.tail ++ b ∷ s }

  unfoldable pub slice_lines : UsageSnapshot → Bool → Bytes → UsageSnapshot × Bool
  slice_lines u found rest =
      let r = lines_of rest (u.counts, found) in
      (keep_sliver (record u { counts = r.0.0 }) r.1, r.0.1)

  -- The chunk from `start` on, where a line is pending.
  unfoldable pub splice_at : UsageSnapshot → Bytes → Option ℕ → UsageSnapshot × Bool
  splice_at u rest none =
      if ltb max_tail_bytes (length u.tail + length rest)
      then (record u { tail = []; skip_until_newline = true }, false)
      else (record u { tail = u.tail ++ rest }, false)
  splice_at u rest (some nl) =
      if ltb max_tail_bytes (length u.tail + nl)
      then slice_lines (record u { tail = [] }) false (drop (suc nl) rest)
      else let judged = process_sse_line js mem (u.tail ++ take nl rest) u.counts in
        slice_lines (record u { tail = []; counts = judged.0 }) judged.1 (drop (suc nl) rest)

  unfoldable pub slice_from : UsageSnapshot → Bytes → UsageSnapshot × Bool
  slice_from u rest =
      if is_empty u.tail then slice_lines u false rest else splice_at u rest (mem.memchr 10 rest)

  -- The rest of a line that was dropped.
  abbrev skip_to : UsageSnapshot → Bytes → Option ℕ → UsageSnapshot × Bool
  skip_to u chunk none = (u, false)
  skip_to u chunk (some nl) =
      slice_from (record u { skip_until_newline = false }) (drop (suc nl) chunk)

  unfoldable pub consume_sse_slice : UsageSnapshot → Bytes → UsageSnapshot × Bool
  consume_sse_slice u chunk =
      if u.skip_until_newline then skip_to u chunk (mem.memchr 10 chunk) else slice_from u chunk

  -- `finish_json`, with the change of the mode and the tail around its call.
  abbrev finish_json : js.Value → UsageSnapshot → UsageSnapshot × Bool
  finish_json value u =
      let counted =
        if u.json_counted
        then u.counts
        else record u.counts { output_chunk_count = suc u.counts.output_chunk_count } in
      let absorbed = absorb_parsed js (some value) counted in
      (record u { mode = json; counts = absorbed.0; json_counted = true; tail = [] }, absorbed.1)

  abbrev pub try_json : Option js.Value → UsageSnapshot → UsageSnapshot × Bool
  try_json none u = (u, false)
  try_json (some value) u = if js.is_object value then finish_json value u else (u, false)

  -- The tail already holds the chunk.
  unfoldable pub classify : UsageSnapshot → UsageSnapshot × Bool
  classify u =
      let probed = record u { data_probe = length u.tail } in
      if probe_anchored_data u.tail u.data_probe
      then consume_sse (record probed { mode = sse })
      else if ltb max_tail_bytes (length u.tail)
      then (record probed { tail = []; mode = oversized }, false)
      else if json_may_have_completed u.tail && ltb u.json_parse_attempts max_json_parse_attempts
      then try_json (js.from_slice u.tail)
          (record probed { json_parse_attempts = suc u.json_parse_attempts })
      else (probed, false)

  abbrev feed_in : Mode → UsageSnapshot → Bytes → UsageSnapshot × Bool
  feed_in unknown u chunk = classify (record u { tail = u.tail ++ chunk })
  feed_in sse u chunk = consume_sse_slice u chunk
  feed_in json u chunk = (record u { tail = [] }, false)
  feed_in oversized u chunk = (record u { tail = [] }, false)

  unfoldable pub feed_usage : UsageSnapshot → Bytes → UsageSnapshot × Bool
  feed_usage u chunk = if is_empty chunk then (u, false) else feed_in u.mode u chunk

  unfoldable pub feed_chunks : UsageSnapshot → List Bytes → UsageSnapshot
  feed_chunks u [] = u
  feed_chunks u (c ∷ cs) = feed_chunks (feed_usage u c).0 cs
