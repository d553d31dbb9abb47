-- ===== src/Lib.antt =====
-- Verification of Hygress, an AI gateway: a data plane that routes requests for models to their
-- backends under a control plane's snapshot. The core (crates/hygress-core) is pure; the gateway
-- (crates/hygress-gateway) calls it for each request.
--
-- How the parts interact. The control plane's snapshot (`ConfigData`) is validated by `sanitize`,
-- and a `RouteTable` is built of what is accepted. A request's model is resolved by the model
-- router, its route found in the table, its destinations ordered by a round of the weighted round
-- robin and resolved through the registries. The policy of the matched route narrows the
-- candidates, and its quota is reserved before the request and settled after it by a guard. An
-- attempt that fails is retried by the route's retry policy, and then redirected to its Fallback
-- route. What a candidate is sent is written on an overlay over headers that all candidates share.
-- The guardrail scans what the backend answers, and the usage is counted from it.
--
-- Files and code (paths from the repository's root):
--   Quota             crates/hygress-core/src/quota.rs (`QuotaEngine`)
--   Quota/Guard       crates/hygress-gateway/src/quota.rs (`QuotaReservation`)
--   Quota/Ledger, Budget, Crossing, Eviction, Lifecycle: proofs about the two
--   Policy, Policy/Glob, Policy/Select  crates/hygress-core/src/policy.rs and route_policy.rs
--   Policy/Merge      crates/hygress-gateway/src/policy_loader.rs (`merge_policy`, `MergedTable`)
--   Policy/Pattern, Matches and MergeLaws: proofs about these
--   Guardrail, Guardrail/Scanner        crates/hygress-core/src/guardrail.rs
--   Guardrail/Response                  crates/hygress-gateway/src/response_pipeline.rs
--   Retry and its children              crates/hygress-core/src/retry.rs
--   Swrr and its children               crates/hygress-core/src/swrr.rs
--   Destination, Destination/RoundTrip  crates/hygress-core/src/destination.rs
--   Route, Route/Rewrite                crates/hygress-core/src/route.rs
--   ModelMapping      crates/hygress-core/src/model_mapping.rs (the lookup, multipart bodies)
--   Registry, Registry/Index            crates/hygress-core/src/registry.rs
--   Config and its children             crates/hygress-core/src/config.rs (`sanitize`,
--                     `provider_bearer`, `fallbacks`)
--   RouteTable and its children         crates/hygress-core/src/config.rs (`RouteTable`) and matcher.rs
--   Transform, Transform/HeaderLaws     crates/hygress-core/src/transform.rs (`HeaderMap`)
--   Transform/Rules   the same file (`HeaderOps`, `TransformRule`, `Transformer`) and
--                     crates/hygress-gateway/src/pipeline/transformer.rs; laws in Transform/RuleLaws
--   Transform/Outbound                  the same file (`OutboundHeaders`); its children Refinement,
--                     Writes and Pairs relate it to `HeaderMap`
--   Pipeline/Fallback, ModelRouter, RoutingPolicy (with RoutingPolicy/Narrowing), RegistryResolve
--                     crates/hygress-gateway/src/pipeline, the files of these names
--   Pipeline/Outbound, Pipeline/Outbound/Sent  crates/hygress-gateway/src/pipeline/mod.rs
--                     (`build_outbound`) and set_pre_route_headers.rs
--   Dispatch, Dispatch/Failover, Dispatch/Chain  crates/hygress-gateway/src/pipe.rs
--                     (`request_filter`: the loops over the candidates and the hops)
--   Attribution, Attribution/Texts      crates/hygress-gateway/src/pipe.rs (its pure helpers)
--   RateLimit, RateLimit/Keys           crates/hygress-core/src/ratelimit.rs
--   RateLimit/Shared  crates/hygress-gateway/src/pipe.rs (`check_bucket`, `rate_limit_pre`,
--                     `rate_limit_post`)
--   Usage, Usage/Stream (with Lines, Probe and Cuts)  crates/hygress-core/src/usage.rs
--   FormData, FormData/Span             crates/hygress-core/src/bytes.rs
--   Tls, Tls/Served   crates/hygress-gateway/src/tls_store.rs; the listener does not use this store
--   Regex, External   what the program calls of the regex, serde_json and memchr crates, parameters
--                     of the models
--   Common            texts, dictionaries, results, machine words and integers
--   Tests             the theorems at concrete inputs
--
-- Conventions. A text is the list of its code points. A hash map is an association list with each
-- key at most once. A method that writes through `&mut self` or a `DashMap` returns the new state; a
-- clock is an argument. A `Result` keeps the variant of the crate's error and drops its text.
-- Unsigned numbers are natural numbers with their saturation and bounds written out; the i32 weights
-- of the round robin wrap around, as in a build without overflow checks; the theorems on its rounds
-- bound the weights, and RouteTable/Weights relates the bound to what validation accepts. Third-party
-- crates, the arithmetic of f64 and the lossy decoding of UTF-8 are parameters.
--
-- Fuel. `glob_loop` runs on fuel that is quadratic in the input, and is enough. `cascade` has the
-- bound of the source's own loop, the number of routes and one, and reaches its fixpoint within it.
-- `show_digits`, `remove_text` and `strip_pairs` have the number or the length itself, of which each
-- round takes at least one. `lines_loop` has a round for each byte and one more, and so has
-- `scan_parts`, whose search moves on in each round. `dispatch` has a hop for each redirect that a
-- route may grant, and one more.
--
-- Not modelled: the asynchronous session around the dispatch loop, network clients, metrics and
-- start-up, which are I/O; the body scanners, the preparation of a request and the translation of
-- cluster objects; the texts of errors and findings; the digests that name SWRR groups; what
-- comes between the two accesses of a quota commit that finds no entry.
pub mod Attribution
pub mod Common
pub mod Config
pub mod Destination
pub mod Dispatch
pub mod External
pub mod FormData
pub mod Guardrail
pub mod ModelMapping
pub mod Pipeline
pub mod Policy
pub mod Quota
pub mod RateLimit
pub mod Regex
pub mod Registry
pub mod Retry
pub mod Route
pub mod RouteTable
pub mod Swrr
pub mod Tests
pub mod Tls
pub mod Transform
pub mod Usage
