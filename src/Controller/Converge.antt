-- ===== src/Controller/Converge.antt =====
-- What one pass of Reconcile leaves in a cluster whose API server answers.
pub mod Ensure
pub mod Stages
pub mod Shapes
pub mod Objects
pub mod Created
pub mod Optional
pub mod Pass
pub mod Claim
pub mod Rest
pub mod Again
