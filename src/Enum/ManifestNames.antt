-- ===== src/Enum/ManifestNames.antt =====
-- source/core/enum: the names that a manifest writes for its targets, packages and dependencies.
use spn.Enum.TargetNames.{AreTargetNames, target_names}
use spn.Enum.PackageNames.{ArePackageNames, package_names}

-- The reader and the writer of each enumeration of targets, packages and dependencies are inverse to
-- each other: a written name reads as its value, and a text that reads as a value other than the
-- reader's fallback is its name.
pub manifest_names : AreTargetNames × ArePackageNames
manifest_names = (target_names, package_names)
