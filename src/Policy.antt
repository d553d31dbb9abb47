-- ===== src/Policy.antt =====
-- crates/hygress-core/src/policy.rs: the policy configuration. An `f64` (the rate `rps`) is a
-- value of the parameter `F`, which nothing here computes with. The attributes that tell serde
-- how to read the YAML file are left out.
pub mod Glob
pub mod Matches
pub mod Select
pub mod Merge
pub mod Pattern
pub mod MergeLaws
use hygress.Common.{Str, ℕ, List, [], Option, none}

-- One token bucket: fill rate and capacity.
pub record TokenBucketSpec (F : Type 0) : Type 0 where
  pub rps : F
  pub burst : ℕ  -- u64

pub record LimitsSpec (F : Type 0) : Type 0 where
  pub ip : Option (TokenBucketSpec F)
  pub consumer : Option (TokenBucketSpec F)

-- One fixed-window token budget; all three are u64.
pub record LimitWindowSpec : Type 0 where
  pub window_secs : ℕ
  pub soft : Option ℕ
  pub hard : Option ℕ

pub record QuotaSpec : Type 0 where
  pub by_model_tokens : Option LimitWindowSpec

pub data GuardrailFailMode : Type 0 where
  closed open_ : GuardrailFailMode

pub data GuardAction : Type 0 where
  block : GuardAction

pub record StaticRuleSpec : Type 0 where
  pub name : Str
  pub regex : Str
  pub action : GuardAction

pub data LlmGuardMode : Type 0 where
  sync async : LlmGuardMode

pub data LlmOnError : Type 0 where
  reject allow : LlmOnError

pub record LlmGuardSpec : Type 0 where
  pub mode : LlmGuardMode
  pub timeout_ms : ℕ  -- u64
  pub max_rps : ℕ  -- u32
  pub cache_ttl_secs : ℕ  -- u64
  pub on_error : LlmOnError

abbrev pub default_llm_guard : LlmGuardSpec
default_llm_guard = record {
  mode = sync;
  timeout_ms = 3000;
  max_rps = 5;
  cache_ttl_secs = 300;
  on_error = reject;
}

pub record GuardrailSpec : Type 0 where
  pub fail_mode : GuardrailFailMode
  pub static_rules : List StaticRuleSpec
  pub llm : Option LlmGuardSpec

pub record RoutePolicyActions : Type 0 where
  pub override_route : Option Str
  pub pin_provider_svc_pattern : Option Str
  pub header_add : List (Str × Str)
  pub header_del : List Str
  pub timeout_ms : Option ℕ  -- u64
  pub retries : Option ℕ  -- u32

pub record RoutePolicySpec (F : Type 0) : Type 0 where
  pub name_glob : Str
  pub limits : Option (LimitsSpec F)
  pub quota : Option QuotaSpec
  pub policy : Option RoutePolicyActions
  pub guardrail : Option GuardrailSpec

pub record GlobalPolicy (F : Type 0) : Type 0 where
  pub limits : Option (LimitsSpec F)
  pub quota : Option QuotaSpec
  pub guardrail : Option GuardrailSpec

pub record PolicyConfig (F : Type 0) : Type 0 where
  pub version : ℕ  -- u32
  pub global : GlobalPolicy F
  pub routes : List (RoutePolicySpec F)

-- The default passes everything.
abbrev pub default_policy : (F : Type 0) → PolicyConfig F
default_policy F = record {
  version = 1;
  global = record { limits = none; quota = none; guardrail = none };
  routes = [];
}
