-- ===== src/Kube.antt =====
-- The Kubernetes types and the client library, as far as the operator uses them.
pub mod Meta
pub mod Pod
pub mod Objects
pub mod Equality
pub mod Library
pub mod Client
pub mod Action
pub mod Owned
pub mod Keeps
pub mod Server
