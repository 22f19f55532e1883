-- ===== src/Semver.antt =====
-- source/core/semver: versions, ranges and their text. The types of semver/types.h.
pub mod Compare
pub mod Order
pub mod Convert
pub mod Bounds
pub mod Parser
pub mod Print
pub mod Number
pub mod Canonical
pub mod RoundTrip
pub mod Written
pub mod Reread
mod Tests
use spn.Base.{ℕ, Bool}

-- `spn_semver_t` of include/spn/core.h, without its padding. The components are u32.
pub record Semver : Type 0 where
  pub major : ℕ
  pub minor : ℕ
  pub patch : ℕ

pub data SemverOp : Type 0 where
  op_lt op_leq op_gt op_geq op_eq : SemverOp

pub data SemverMod : Type 0 where
  mod_none mod_caret mod_tilde mod_wildcard mod_cmp : SemverMod

pub record SemverComponents : Type 0 where
  pub has_major : Bool
  pub has_minor : Bool
  pub has_patch : Bool

pub record SemverParsed : Type 0 where
  pub version : Semver
  pub components : SemverComponents

pub record SemverBound : Type 0 where
  pub version : Semver
  pub op : SemverOp

pub record SemverRange : Type 0 where
  pub low : SemverBound
  pub high : SemverBound
  pub mod_kind : SemverMod
