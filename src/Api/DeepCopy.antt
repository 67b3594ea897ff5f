-- ===== src/Api/DeepCopy.antt =====
-- api/v1alpha1/zz_generated.deepcopy.go
pub mod Heap
pub mod Copies
pub mod Slices
pub mod Into
pub mod Shows
pub mod Sound
pub mod Deep
pub mod New
pub mod Separate
