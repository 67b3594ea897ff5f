-- ===== src/Api.antt =====
-- The API group site.operator/v1alpha1.
pub mod Group
pub mod Site
pub mod DeepCopy
pub mod Validation
pub mod Defaults
