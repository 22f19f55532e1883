-- ===== src/Enum.antt =====
-- source/core/enum: the enumerations of the manifests and their names.
pub mod Exact
pub mod Platform
pub mod Build
pub mod Target
pub mod Package
pub mod PlatformNames
pub mod BuildNames
pub mod TargetNames
pub mod PackageNames
pub mod ManifestNames
