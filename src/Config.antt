-- ===== src/Config.antt =====
-- The configuration: src/infrastructure/config and src/infrastructure/tls. Zod, which validates it, is
-- not part of the repository: what the schemas check by functions of their own is in Config.Checks.
pub mod Env
pub mod Hydrate
pub mod Access
pub mod Checks
pub mod Secrets
pub mod Keys
pub mod Tls
mod Tests
