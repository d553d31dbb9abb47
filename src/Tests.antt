-- ===== src/Tests.antt =====
-- The theorems at concrete inputs, and the regex engine and the data that these use.
pub mod Engine
pub mod Quotas
pub mod Policies
pub mod Routes
pub mod Usages
pub mod Exchanges
