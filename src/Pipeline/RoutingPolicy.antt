-- ===== src/Pipeline/RoutingPolicy.antt =====
-- crates/hygress-gateway/src/pipeline/routing_policy.rs: the routing policy of the matched route
-- on the candidates of a request. Of the prepared request and of a candidate the model keeps the
-- fields that the policy reads or writes; the others are handed on.
pub mod Narrowing
use hygress.Common.{
  ◌≡◌, refl, subst, Str, str_eq, ℕ, List, [], ◌∷◌, Option, none, some, Bool, true, false, not, ◌||◌,
  is_empty, is_some, find, retain, All, arith, Bool-cases, inl, inr,
}
use hygress.Policy.{RoutePolicyActions}
use hygress.Policy.Glob.{pin_matches}
use hygress.Policy.Select.{pick_override}
use hygress.Transform.{HeaderMap, insert_header, remove_header}

pub record CandidateTarget (Rest : Type 0) : Type 0 where
  pub service : Str
  pub service_name : Str
  pub rest : Rest

pub record PreparedRequest (Rest Other : Type 0) : Type 0 where
  pub candidates : List (CandidateTarget Rest)
  pub base_headers : HeaderMap
  pub selected_service : Str
  pub override_timeout_ms : Option ℕ  -- u64
  pub override_retries : Option ℕ  -- u32
  pub other : Other

pub record PolicyApply : Type 0 where
  pub applied : Bool
  pub override_hit : Bool
  pub override_miss : Bool
  pub pin_applied : Bool
  pub pin_miss : Bool

abbrev pub no_apply : PolicyApply
no_apply = record {
  applied = false;
  override_hit = false;
  override_miss = false;
  pin_applied = false;
  pin_miss = false;
}

abbrev services : {Rest : Type 0} → List (CandidateTarget Rest) → List Str
services [] = []
services (c ∷ cs) = c.service ∷ services cs

-- `position(|c| c.service == hit)` and `remove`.
abbrev candidate_of :
    {Rest : Type 0} → List (CandidateTarget Rest) → Option Str → Option (CandidateTarget Rest)
candidate_of cs none = none
candidate_of cs (some hit) = find (λ c. str_eq c.service hit) cs

abbrev add_all : HeaderMap → List (Str × Str) → HeaderMap
add_all h [] = h
add_all h ((name, value) ∷ hs) = add_all (insert_header h name value) hs

abbrev del_all : HeaderMap → List Str → HeaderMap
del_all h [] = h
del_all h (name ∷ names) = del_all (remove_header h name) names

module _ {Rest Other : Type 0} where
  -- The candidates become the one that is found.
  abbrev override_with :
      Option (CandidateTarget Rest)
      → PreparedRequest Rest Other
      → PolicyApply
      → PreparedRequest Rest Other × PolicyApply
  override_with none r out = (r, record out { override_miss = true })
  override_with (some c) r out = (
    record r { candidates = c ∷ []; selected_service = c.service_name },
    record out { override_hit = true; applied = true },
  )

  abbrev override_step :
      RoutePolicyActions
      → Option Str
      → PreparedRequest Rest Other
      → PolicyApply
      → PreparedRequest Rest Other × PolicyApply
  override_step actions none r out = (r, out)
  override_step actions (some _) r out =
      override_with (candidate_of r.candidates (pick_override actions (services r.candidates))) r
        out

  abbrev pin_with :
      List (CandidateTarget Rest)
      → PreparedRequest Rest Other
      → PolicyApply
      → PreparedRequest Rest Other × PolicyApply
  pin_with [] r out = (r, record out { pin_miss = true })
  pin_with (c ∷ cs) r out = (
    record r { candidates = c ∷ cs; selected_service = c.service_name },
    record out { pin_applied = true; applied = true },
  )

  abbrev pin_step :
      Option Str
      → PreparedRequest Rest Other
      → PolicyApply
      → PreparedRequest Rest Other × PolicyApply
  pin_step none r out = (r, out)
  pin_step (some pattern) r out =
      pin_with (retain (λ c. pin_matches pattern c.service_name) r.candidates) r out

  abbrev finish_step :
      RoutePolicyActions
      → PreparedRequest Rest Other
      → PolicyApply
      → PreparedRequest Rest Other × PolicyApply
  finish_step actions r out = (
    record r {
      base_headers = del_all (add_all r.base_headers actions.header_add) actions.header_del;
      override_timeout_ms = actions.timeout_ms;
      override_retries = actions.retries;
    },
    record out {
      applied =
          out.applied
          || not (is_empty actions.header_add)
          || not (is_empty actions.header_del)
          || is_some actions.timeout_ms
          || is_some actions.retries;
    },
  )

  unfoldable pub apply_policy :
      PreparedRequest Rest Other → RoutePolicyActions → PreparedRequest Rest Other × PolicyApply
  apply_policy r actions =
      let first = override_step actions actions.override_route r no_apply in
      let second = pin_step actions.pin_provider_svc_pattern first.0 first.1 in
      finish_step actions second.0 second.1
