-- ===== src/Usage.antt =====
-- crates/hygress-core/src/usage.rs: what a usage object says, the counts of one response, and the
-- record that is reported.
pub mod Stream
use hygress.Common.{
  Str, codes, ℕ, suc, ◌+◌, List, [], ◌∷◌, Option, none, some, Bool, true, false, ◌==◌, ltb, ◌||◌,
  if◌then◌else◌, is_empty, is_some, unwrap_or, starts_with, str_eq, find, saturating_add, drop,
}
use hygress.External.{Bytes, JsonEngine, Memchr}

pub data Operation : Type 0 where
  completion chat_completion embedding rerank image_generation audio_speech audit_transcription :
      Operation

abbrev pub all_operations : List Operation
all_operations =
    completion ∷ chat_completion ∷ embedding ∷ rerank ∷ image_generation ∷ audio_speech
    ∷ audit_transcription ∷ []

abbrev pub operation_text : Operation → Str
operation_text completion = codes "completion"
operation_text chat_completion = codes "chat_completion"
operation_text embedding = codes "embedding"
operation_text rerank = codes "rerank"
operation_text image_generation = codes "image_generation"
operation_text audio_speech = codes "audio_speech"
operation_text audit_transcription = codes "audit_transcription"

unfoldable pub parse_operation : Str → Option Operation
parse_operation s = find (λ op. str_eq (operation_text op) s) all_operations

pub data UsageSchema : Type 0 where
  open_ai anthropic generic : UsageSchema

-- All are u64.
pub record Usage : Type 0 where
  pub input_tokens : Option ℕ
  pub output_tokens : Option ℕ
  pub total_tokens : Option ℕ
  pub cache_hit_tokens : Option ℕ

pub record ModelUsageMetrics : Type 0 where
  pub model : Str
  pub input_token : ℕ
  pub output_token : ℕ
  pub total_token : ℕ
  pub input_cached_token : ℕ
  pub request_count : ℕ
  pub completed : Bool
  pub output_chunk_count : ℕ
  pub request_content_bytes : ℕ
  pub started_at : Option ℕ
  pub completed_at : Option ℕ
  pub user_id : Option ℕ
  pub model_id : Option ℕ
  pub model_route_id : Option ℕ
  pub provider_id : Option ℕ
  pub access_key : Option Str
  pub organization_id : Option Str

-- The four fields that `flush` drops are left out. The ids are `i64`, and are only handed on.
pub record FlushFields : Type 0 where
  pub model : Str
  pub user_id : Option ℕ
  pub model_id : Option ℕ
  pub model_route_id : Option ℕ
  pub provider_id : Option ℕ
  pub access_key : Option Str
  pub organization_id : Option Str
  pub started_at_ms : Option ℕ
  pub completed_at_ms : Option ℕ
  pub request_content_bytes : ℕ
  pub output_chunk_count : Option ℕ

-- The fields of `UsageSnapshot` that a payload changes, with the schema that reads it.
pub record UsageCounts : Type 0 where
  pub schema : UsageSchema
  pub input_token : Option ℕ
  pub output_token : Option ℕ
  pub total_token : Option ℕ
  pub input_cached_token : Option ℕ
  pub output_chunk_count : ℕ
  pub seen_any : Bool

abbrev pub no_counts : UsageSchema → UsageCounts
no_counts schema = record {
  schema = schema;
  input_token = none;
  output_token = none;
  total_token = none;
  input_cached_token = none;
  output_chunk_count = 0;
  seen_any = false;
}

-- `Option::or_else`, and the value that a write keeps where there is no new one.
abbrev pub or_else : Option ℕ → Option ℕ → Option ℕ
or_else none b = b
or_else (some a) b = some a

-- `total_token` of the record: the upstream's where it is larger than the sum.
abbrev total_of : Option ℕ → ℕ → ℕ
total_of none recomputed = recomputed
total_of (some t) recomputed = if ltb recomputed t then t else recomputed

unfoldable pub flush : UsageCounts → FlushFields → ModelUsageMetrics
flush c f =
    let input = unwrap_or c.input_token 0 in
    let output = unwrap_or c.output_token 0 in
    record {
      model = f.model;
      input_token = input;
      output_token = output;
      total_token = total_of c.total_token (saturating_add input output);
      input_cached_token = unwrap_or c.input_cached_token 0;
      request_count = 1;
      completed = c.seen_any;
      output_chunk_count = unwrap_or f.output_chunk_count c.output_chunk_count;
      request_content_bytes = f.request_content_bytes;
      started_at = f.started_at_ms;
      completed_at = f.completed_at_ms;
      user_id = f.user_id;
      model_id = f.model_id;
      model_route_id = f.model_route_id;
      provider_id = f.provider_id;
      access_key = f.access_key;
      organization_id = f.organization_id;
    }

-- `u8::is_ascii_whitespace`.
unfoldable pub is_ascii_whitespace : ℕ → Bool
is_ascii_whitespace b = b == 9 || b == 10 || b == 12 || b == 13 || b == 32

unfoldable pub trim_ascii_start : Bytes → Bytes
trim_ascii_start [] = []
trim_ascii_start (b ∷ s) = if is_ascii_whitespace b then trim_ascii_start s else b ∷ s

abbrev keep_tail : Bool → ℕ → Bytes → Bytes
keep_tail blank b [] = if blank then [] else b ∷ []
keep_tail blank b (c ∷ s) = b ∷ c ∷ s

unfoldable pub trim_ascii_end : Bytes → Bytes
trim_ascii_end [] = []
trim_ascii_end (b ∷ s) = keep_tail (is_ascii_whitespace b) b (trim_ascii_end s)

unfoldable pub trim_ascii : Bytes → Bytes
unfolding trim_ascii_start trim_ascii_end
trim_ascii s = trim_ascii_end (trim_ascii_start s)

module _ (js : JsonEngine) where
  open js use {Value, from_slice, is_object, get, as_u64}

  abbrev then_u64 : Option Value → Option ℕ
  then_u64 none = none
  then_u64 (some v) = as_u64 v

  abbrev then_get : Option Value → Str → Option Value
  then_get none key = none
  then_get (some v) key = get v key

  -- `o.get(key).and_then(|x| x.as_u64())`.
  abbrev u64_at : Value → Str → Option ℕ
  u64_at v key = then_u64 (get v key)

  abbrev cached_details : Value → Option ℕ
  cached_details v =
      then_u64 (then_get (get v (codes "prompt_tokens_details")) (codes "cached_tokens"))

  abbrev total_at : Value → Option ℕ
  total_at v = or_else (u64_at v (codes "total_tokens")) (u64_at v (codes "total_token"))

  abbrev usage_by : UsageSchema → Value → Usage
  usage_by open_ai v = record {
    input_tokens = or_else (u64_at v (codes "prompt_tokens")) (u64_at v (codes "input_tokens"));
    output_tokens =
        or_else (u64_at v (codes "completion_tokens")) (u64_at v (codes "output_tokens"));
    total_tokens = total_at v;
    cache_hit_tokens = or_else (cached_details v) (u64_at v (codes "cached_tokens"));
  }
  usage_by anthropic v = record {
    input_tokens = u64_at v (codes "input_tokens");
    output_tokens = u64_at v (codes "output_tokens");
    total_tokens = total_at v;
    cache_hit_tokens = u64_at v (codes "cache_read_input_tokens");
  }
  usage_by generic v = record {
    input_tokens = or_else (u64_at v (codes "prompt_tokens")) (u64_at v (codes "input_tokens"));
    output_tokens =
        or_else (u64_at v (codes "completion_tokens")) (u64_at v (codes "output_tokens"));
    total_tokens = total_at v;
    cache_hit_tokens =
        or_else (u64_at v (codes "cache_read_input_tokens"))
          (or_else (u64_at v (codes "cached_tokens")) (cached_details v));
  }

  unfoldable pub fields_from : Value → UsageSchema → Option Usage
  fields_from v schema = if is_object v then some (usage_by schema v) else none

  abbrev fields_of : Option Value → UsageSchema → Option Usage
  fields_of none schema = none
  fields_of (some v) schema = fields_from v schema

  unfoldable pub parse_usage : Bytes → UsageSchema → Option Usage
  parse_usage json schema = fields_of (from_slice json) schema

  abbrev or_value : Option Value → Option Value → Option Value
  or_value none b = b
  or_value (some a) b = some a

  unfoldable pub usage_from_payload : Value → Option Value
  usage_from_payload v =
      or_value (get v (codes "usage")) (then_get (get v (codes "message")) (codes "usage"))

  abbrev adopt : Option Usage → UsageCounts → UsageCounts × Bool
  adopt none c = (c, false)
  adopt (some u) c = (
    record c {
      input_token = or_else u.input_tokens c.input_token;
      output_token = or_else u.output_tokens c.output_token;
      total_token = or_else u.total_tokens c.total_token;
      input_cached_token = or_else u.cache_hit_tokens c.input_cached_token;
      seen_any = true;
    },
    true,
  )

  unfoldable pub absorb_value : Value → UsageCounts → UsageCounts × Bool
  absorb_value v c = adopt (fields_from v c.schema) c

  abbrev pub absorb_payload : Option Value → UsageCounts → UsageCounts × Bool
  absorb_payload none c = (c, false)
  absorb_payload (some v) c = absorb_value v c

  abbrev pub absorb_parsed : Option Value → UsageCounts → UsageCounts × Bool
  absorb_parsed none c = (c, false)
  absorb_parsed (some v) c = absorb_payload (usage_from_payload v) c

  module _ (mem : Memchr) where
    abbrev counted : UsageCounts → UsageCounts
    counted c = record c { output_chunk_count = suc c.output_chunk_count }

    abbrev judge_payload : Bytes → UsageCounts → UsageCounts × Bool
    judge_payload payload c =
        if is_empty payload || str_eq payload (codes "[DONE]")
        then (c, false)
        else if is_some (mem.memmem (codes "\"usage\"") payload)
        then absorb_parsed (from_slice payload) (counted c)
        else (counted c, false)

    unfoldable pub process_sse_line : Bytes → UsageCounts → UsageCounts × Bool
    process_sse_line line c =
        if starts_with (codes "data:") line
        then judge_payload (trim_ascii (drop 5 line)) c
        else (c, false)
