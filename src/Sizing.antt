-- ===== src/Sizing.antt =====
-- internal/onboarding/tshirt_merge.go: the sizing of a tenant. `Merge` lays the limits of an entry
-- over those of a T-shirt size, and `Resolve` chooses between them; the other children are laws.
pub mod Merge
pub mod Resolve
pub mod Fields
pub mod QuotaFields
pub mod StorageClasses
pub mod Laws
pub mod Catalogue
