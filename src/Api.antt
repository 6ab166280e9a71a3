-- ===== src/Api.antt =====
-- The custom resources of api/v1beta1, one record for each Go struct: a pointer is an `Option`, a
-- slice a list, a map an association list. The children are named for what the structs describe.
mod Sizing
mod Policies
mod GitOps
mod Tenant
pub use Sizing.*
pub use Policies.*
pub use GitOps.*
pub use Tenant.*
