-- ===== src/Enum/BuildNames.antt =====
-- The names of Enum/Build.antt are read back exactly.
use spn.Base.{String, ◌≡◌, ◌⊎◌, refl, some, arith, str_eq_iff}
use spn.Enum.Exact.{IsExact, read_literal}
use spn.Enum.Build.{
  BuildMode, mode_none, mode_debug, mode_release, mode_to_str, mode_from_str, OptLevel, opt_none,
  opt_0, opt_1, opt_2, opt_3, opt_s, opt_z, opt_level_to_str, opt_level_from_str, WinSubsystem,
  subsystem_none, subsystem_console, subsystem_windows, win_subsystem_to_str,
  win_subsystem_from_str, Tree, tree_none, tree_source, tree_manifest, tree_to_str, tree_from_str,
  Sanitizer, sanitizer_none, sanitizer_address, sanitizer_thread, sanitizer_undefined,
  sanitizer_memory, sanitizer_leak, sanitizer_to_str, sanitizer_from_str,
}

build_mode_back :
    (a : BuildMode) (t : String) → some (mode_to_str a) ≡ some t → some (mode_from_str t) ≡ some a
unfolding mode_to_str mode_from_str
build_mode_back mode_none t e = read_literal (λ s. some (mode_from_str s)) "" t mode_none refl e
build_mode_back mode_debug t e =
    read_literal (λ s. some (mode_from_str s)) "debug" t mode_debug refl e
build_mode_back mode_release t e =
    read_literal (λ s. some (mode_from_str s)) "release" t mode_release refl e

build_mode_only :
    (s : String) (a : BuildMode)
    → some (mode_from_str s) ≡ some a
    → (a ≡ mode_none) ⊎ (some (mode_to_str a) ≡ some s)
unfolding mode_to_str mode_from_str
build_mode_only s a e = ground (arith, str_eq_iff s "release", str_eq_iff s "debug")

pub BuildMode-IsExact :
    IsExact {A = BuildMode}
      (λ a. some (mode_to_str a))
      (λ s. some (mode_from_str s))
      (λ a. a ≡ mode_none)
BuildMode-IsExact = record { back = build_mode_back; only = build_mode_only }

opt_level_back :
    (a : OptLevel) (t : String)
    → some (opt_level_to_str a) ≡ some t
    → some (opt_level_from_str t) ≡ some a
unfolding opt_level_to_str opt_level_from_str
opt_level_back opt_none t e = read_literal (λ s. some (opt_level_from_str s)) "" t opt_none refl e
opt_level_back opt_0 t e = read_literal (λ s. some (opt_level_from_str s)) "0" t opt_0 refl e
opt_level_back opt_1 t e = read_literal (λ s. some (opt_level_from_str s)) "1" t opt_1 refl e
opt_level_back opt_2 t e = read_literal (λ s. some (opt_level_from_str s)) "2" t opt_2 refl e
opt_level_back opt_3 t e = read_literal (λ s. some (opt_level_from_str s)) "3" t opt_3 refl e
opt_level_back opt_s t e = read_literal (λ s. some (opt_level_from_str s)) "s" t opt_s refl e
opt_level_back opt_z t e = read_literal (λ s. some (opt_level_from_str s)) "z" t opt_z refl e

opt_level_only :
    (s : String) (a : OptLevel)
    → some (opt_level_from_str s) ≡ some a
    → (a ≡ opt_none) ⊎ (some (opt_level_to_str a) ≡ some s)
unfolding opt_level_to_str opt_level_from_str
opt_level_only s a e = ground (
  arith,
  str_eq_iff s "0",
  str_eq_iff s "1",
  str_eq_iff s "2",
  str_eq_iff s "3",
  str_eq_iff s "s",
  str_eq_iff s "z",
)

pub OptLevel-IsExact :
    IsExact {A = OptLevel}
      (λ a. some (opt_level_to_str a))
      (λ s. some (opt_level_from_str s))
      (λ a. a ≡ opt_none)
OptLevel-IsExact = record { back = opt_level_back; only = opt_level_only }

win_subsystem_back :
    (a : WinSubsystem) (t : String)
    → some (win_subsystem_to_str a) ≡ some t
    → some (win_subsystem_from_str t) ≡ some a
unfolding win_subsystem_to_str win_subsystem_from_str
win_subsystem_back subsystem_none t e =
    read_literal (λ s. some (win_subsystem_from_str s)) "" t subsystem_none refl e
win_subsystem_back subsystem_console t e =
    read_literal (λ s. some (win_subsystem_from_str s)) "console" t subsystem_console refl e
win_subsystem_back subsystem_windows t e =
    read_literal (λ s. some (win_subsystem_from_str s)) "windows" t subsystem_windows refl e

win_subsystem_only :
    (s : String) (a : WinSubsystem)
    → some (win_subsystem_from_str s) ≡ some a
    → (a ≡ subsystem_none) ⊎ (some (win_subsystem_to_str a) ≡ some s)
unfolding win_subsystem_to_str win_subsystem_from_str
win_subsystem_only s a e = ground (arith, str_eq_iff s "console", str_eq_iff s "windows")

pub WinSubsystem-IsExact :
    IsExact {A = WinSubsystem}
      (λ a. some (win_subsystem_to_str a))
      (λ s. some (win_subsystem_from_str s))
      (λ a. a ≡ subsystem_none)
WinSubsystem-IsExact = record { back = win_subsystem_back; only = win_subsystem_only }

tree_back :
    (a : Tree) (t : String) → some (tree_to_str a) ≡ some t → some (tree_from_str t) ≡ some a
unfolding tree_to_str tree_from_str
tree_back tree_none t e = read_literal (λ s. some (tree_from_str s)) "" t tree_none refl e
tree_back tree_source t e = read_literal (λ s. some (tree_from_str s)) "source" t tree_source refl e
tree_back tree_manifest t e =
    read_literal (λ s. some (tree_from_str s)) "manifest" t tree_manifest refl e

tree_only :
    (s : String) (a : Tree)
    → some (tree_from_str s) ≡ some a
    → (a ≡ tree_none) ⊎ (some (tree_to_str a) ≡ some s)
unfolding tree_to_str tree_from_str
tree_only s a e = ground (arith, str_eq_iff s "source", str_eq_iff s "manifest")

pub Tree-IsExact :
    IsExact {A = Tree}
      (λ a. some (tree_to_str a))
      (λ s. some (tree_from_str s))
      (λ a. a ≡ tree_none)
Tree-IsExact = record { back = tree_back; only = tree_only }

sanitizer_back :
    (a : Sanitizer) (t : String)
    → some (sanitizer_to_str a) ≡ some t
    → some (sanitizer_from_str t) ≡ some a
unfolding sanitizer_to_str sanitizer_from_str
sanitizer_back sanitizer_none t e =
    read_literal (λ s. some (sanitizer_from_str s)) "" t sanitizer_none refl e
sanitizer_back sanitizer_address t e =
    read_literal (λ s. some (sanitizer_from_str s)) "address" t sanitizer_address refl e
sanitizer_back sanitizer_thread t e =
    read_literal (λ s. some (sanitizer_from_str s)) "thread" t sanitizer_thread refl e
sanitizer_back sanitizer_undefined t e =
    read_literal (λ s. some (sanitizer_from_str s)) "undefined" t sanitizer_undefined refl e
sanitizer_back sanitizer_memory t e =
    read_literal (λ s. some (sanitizer_from_str s)) "memory" t sanitizer_memory refl e
sanitizer_back sanitizer_leak t e =
    read_literal (λ s. some (sanitizer_from_str s)) "leak" t sanitizer_leak refl e

sanitizer_only :
    (s : String) (a : Sanitizer)
    → some (sanitizer_from_str s) ≡ some a
    → (a ≡ sanitizer_none) ⊎ (some (sanitizer_to_str a) ≡ some s)
unfolding sanitizer_to_str sanitizer_from_str
sanitizer_only s a e = ground (
  arith,
  str_eq_iff s "address",
  str_eq_iff s "thread",
  str_eq_iff s "undefined",
  str_eq_iff s "memory",
  str_eq_iff s "leak",
)

pub Sanitizer-IsExact :
    IsExact {A = Sanitizer}
      (λ a. some (sanitizer_to_str a))
      (λ s. some (sanitizer_from_str s))
      (λ a. a ≡ sanitizer_none)
Sanitizer-IsExact = record { back = sanitizer_back; only = sanitizer_only }

-- The reader and the writer of each enumeration of this file are inverse to each other: a written name
-- reads as its value, and a text that reads as a value other than the reader's fallback is its name.
pub build_names :
    IsExact {A = BuildMode}
      (λ a. some (mode_to_str a))
      (λ s. some (mode_from_str s))
      (λ a. a ≡ mode_none)
    × IsExact {A = OptLevel}
        (λ a. some (opt_level_to_str a))
        (λ s. some (opt_level_from_str s))
        (λ a. a ≡ opt_none)
    × IsExact {A = WinSubsystem}
        (λ a. some (win_subsystem_to_str a))
        (λ s. some (win_subsystem_from_str s))
        (λ a. a ≡ subsystem_none)
    × IsExact {A = Tree}
        (λ a. some (tree_to_str a))
        (λ s. some (tree_from_str s))
        (λ a. a ≡ tree_none)
    × IsExact {A = Sanitizer}
        (λ a. some (sanitizer_to_str a))
        (λ s. some (sanitizer_from_str s))
        (λ a. a ≡ sanitizer_none)
build_names =
    (BuildMode-IsExact, OptLevel-IsExact, WinSubsystem-IsExact, Tree-IsExact, Sanitizer-IsExact)
