-- ===== src/Directive.antt =====
-- internal/directive: the `X-Tip-*` directives of a request.
pub mod Types
pub mod Names
pub mod Resolve
pub mod Policy
pub mod Parse
pub mod Operator
pub mod Schema
pub mod Tests
