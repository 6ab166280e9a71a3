-- ===== src/Validation.antt =====
-- internal/validation: the admission checks. `Quantity` has those on single values and blocks of
-- values, and `Resources` those on whole resources.
pub mod Quantity
pub mod Resources
