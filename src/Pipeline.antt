-- ===== src/Pipeline.antt =====
-- crates/hygress-gateway/src/pipeline: the stages of a request that are pure.
pub mod Fallback
pub mod ModelRouter
pub mod Outbound
pub mod RegistryResolve
pub mod RoutingPolicy
