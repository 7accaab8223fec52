-- ===== src/Http.antt =====
-- The HTTP interface: src/interface/http.
pub mod Presenter
pub mod Filter
pub mod Guards
pub mod Formatter
pub mod Health
pub mod RequestIds
pub mod Validation
pub mod OrderBy
pub mod Deprecation
