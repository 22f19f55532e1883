-- ===== src/Enum/PlatformNames.antt =====
-- The names of Enum/Platform.antt are read back exactly.
use spn.Base.{String, ◌≡◌, ◌⊎◌, refl, some, arith, str_eq_iff}
use spn.Enum.Exact.{IsExact, read_literal}
use spn.Enum.Platform.{
  Arch, arch_none, arch_x64, arch_arm64, arch_wasm32, arch_to_str, arch_from_str, Os, os_none,
  os_windows, os_linux, os_macos, os_wasi, os_freestanding, os_to_str, os_from_str, CcDriver,
  driver_none, driver_gcc, driver_clang, driver_msvc, driver_zig, cc_driver_to_str,
  cc_driver_from_str, LdFamily, ld_none, ld_gnu, ld_lld, ld_ld64, ld_msvc, ld_family_to_str,
  ld_family_from_str, ToolchainDetect, detect_none, detect_msvc, toolchain_detect_to_str,
  toolchain_detect_from_str, Abi, abi_none, abi_gnu, abi_musl, abi_msvc, abi_apple, abi_bare,
  abi_elf, abi_to_str, abi_from_str, LibcKind, libc_gnu, libc_musl, libc_cosmopolitan, libc_custom,
  libc_none, libc_kind_to_str, libc_kind_from_str,
}

arch_back :
    (a : Arch) (t : String) → some (arch_to_str a) ≡ some t → some (arch_from_str t) ≡ some a
unfolding arch_to_str arch_from_str
arch_back arch_none t e = read_literal (λ s. some (arch_from_str s)) "" t arch_none refl e
arch_back arch_x64 t e = read_literal (λ s. some (arch_from_str s)) "x86_64" t arch_x64 refl e
arch_back arch_arm64 t e = read_literal (λ s. some (arch_from_str s)) "aarch64" t arch_arm64 refl e
arch_back arch_wasm32 t e = read_literal (λ s. some (arch_from_str s)) "wasm32" t arch_wasm32 refl e

arch_only :
    (s : String) (a : Arch)
    → some (arch_from_str s) ≡ some a
    → (a ≡ arch_none) ⊎ (some (arch_to_str a) ≡ some s)
unfolding arch_to_str arch_from_str
arch_only s a e =
    ground (arith, str_eq_iff s "x86_64", str_eq_iff s "aarch64", str_eq_iff s "wasm32")

pub Arch-IsExact :
    IsExact {A = Arch}
      (λ a. some (arch_to_str a))
      (λ s. some (arch_from_str s))
      (λ a. a ≡ arch_none)
Arch-IsExact = record { back = arch_back; only = arch_only }

os_back : (a : Os) (t : String) → some (os_to_str a) ≡ some t → some (os_from_str t) ≡ some a
unfolding os_to_str os_from_str
os_back os_none t e = read_literal (λ s. some (os_from_str s)) "" t os_none refl e
os_back os_windows t e = read_literal (λ s. some (os_from_str s)) "windows" t os_windows refl e
os_back os_linux t e = read_literal (λ s. some (os_from_str s)) "linux" t os_linux refl e
os_back os_macos t e = read_literal (λ s. some (os_from_str s)) "macos" t os_macos refl e
os_back os_wasi t e = read_literal (λ s. some (os_from_str s)) "wasi" t os_wasi refl e
os_back os_freestanding t e =
    read_literal (λ s. some (os_from_str s)) "freestanding" t os_freestanding refl e

os_only :
    (s : String) (a : Os)
    → some (os_from_str s) ≡ some a
    → (a ≡ os_none) ⊎ (some (os_to_str a) ≡ some s)
unfolding os_to_str os_from_str
os_only s a e = ground (
  arith,
  str_eq_iff s "windows",
  str_eq_iff s "linux",
  str_eq_iff s "macos",
  str_eq_iff s "wasi",
  str_eq_iff s "freestanding",
)

pub Os-IsExact :
    IsExact {A = Os} (λ a. some (os_to_str a)) (λ s. some (os_from_str s)) (λ a. a ≡ os_none)
Os-IsExact = record { back = os_back; only = os_only }

cc_driver_back :
    (a : CcDriver) (t : String)
    → some (cc_driver_to_str a) ≡ some t
    → some (cc_driver_from_str t) ≡ some a
unfolding cc_driver_to_str cc_driver_from_str
cc_driver_back driver_none t e =
    read_literal (λ s. some (cc_driver_from_str s)) "" t driver_none refl e
cc_driver_back driver_gcc t e =
    read_literal (λ s. some (cc_driver_from_str s)) "gcc" t driver_gcc refl e
cc_driver_back driver_clang t e =
    read_literal (λ s. some (cc_driver_from_str s)) "clang" t driver_clang refl e
cc_driver_back driver_msvc t e =
    read_literal (λ s. some (cc_driver_from_str s)) "msvc" t driver_msvc refl e
cc_driver_back driver_zig t e =
    read_literal (λ s. some (cc_driver_from_str s)) "zig" t driver_zig refl e

cc_driver_only :
    (s : String) (a : CcDriver)
    → some (cc_driver_from_str s) ≡ some a
    → (a ≡ driver_none) ⊎ (some (cc_driver_to_str a) ≡ some s)
unfolding cc_driver_to_str cc_driver_from_str
cc_driver_only s a e =
    ground
      (arith, str_eq_iff s "gcc", str_eq_iff s "clang", str_eq_iff s "msvc", str_eq_iff s "zig")

pub CcDriver-IsExact :
    IsExact {A = CcDriver}
      (λ a. some (cc_driver_to_str a))
      (λ s. some (cc_driver_from_str s))
      (λ a. a ≡ driver_none)
CcDriver-IsExact = record { back = cc_driver_back; only = cc_driver_only }

ld_family_back :
    (a : LdFamily) (t : String)
    → some (ld_family_to_str a) ≡ some t
    → some (ld_family_from_str t) ≡ some a
unfolding ld_family_to_str ld_family_from_str
ld_family_back ld_none t e = read_literal (λ s. some (ld_family_from_str s)) "" t ld_none refl e
ld_family_back ld_gnu t e = read_literal (λ s. some (ld_family_from_str s)) "gnu" t ld_gnu refl e
ld_family_back ld_lld t e = read_literal (λ s. some (ld_family_from_str s)) "lld" t ld_lld refl e
ld_family_back ld_ld64 t e = read_literal (λ s. some (ld_family_from_str s)) "ld64" t ld_ld64 refl e
ld_family_back ld_msvc t e = read_literal (λ s. some (ld_family_from_str s)) "msvc" t ld_msvc refl e

ld_family_only :
    (s : String) (a : LdFamily)
    → some (ld_family_from_str s) ≡ some a
    → (a ≡ ld_none) ⊎ (some (ld_family_to_str a) ≡ some s)
unfolding ld_family_to_str ld_family_from_str
ld_family_only s a e =
    ground (arith, str_eq_iff s "gnu", str_eq_iff s "lld", str_eq_iff s "ld64", str_eq_iff s "msvc")

pub LdFamily-IsExact :
    IsExact {A = LdFamily}
      (λ a. some (ld_family_to_str a))
      (λ s. some (ld_family_from_str s))
      (λ a. a ≡ ld_none)
LdFamily-IsExact = record { back = ld_family_back; only = ld_family_only }

toolchain_detect_back :
    (a : ToolchainDetect) (t : String)
    → some (toolchain_detect_to_str a) ≡ some t
    → some (toolchain_detect_from_str t) ≡ some a
unfolding toolchain_detect_to_str toolchain_detect_from_str
toolchain_detect_back detect_none t e =
    read_literal (λ s. some (toolchain_detect_from_str s)) "" t detect_none refl e
toolchain_detect_back detect_msvc t e =
    read_literal (λ s. some (toolchain_detect_from_str s)) "msvc" t detect_msvc refl e

toolchain_detect_only :
    (s : String) (a : ToolchainDetect)
    → some (toolchain_detect_from_str s) ≡ some a
    → (a ≡ detect_none) ⊎ (some (toolchain_detect_to_str a) ≡ some s)
unfolding toolchain_detect_to_str toolchain_detect_from_str
toolchain_detect_only s a e = ground (arith, str_eq_iff s "msvc")

pub ToolchainDetect-IsExact :
    IsExact {A = ToolchainDetect}
      (λ a. some (toolchain_detect_to_str a))
      (λ s. some (toolchain_detect_from_str s))
      (λ a. a ≡ detect_none)
ToolchainDetect-IsExact = record { back = toolchain_detect_back; only = toolchain_detect_only }

abi_back : (a : Abi) (t : String) → some (abi_to_str a) ≡ some t → some (abi_from_str t) ≡ some a
unfolding abi_to_str abi_from_str
abi_back abi_none t e = read_literal (λ s. some (abi_from_str s)) "" t abi_none refl e
abi_back abi_gnu t e = read_literal (λ s. some (abi_from_str s)) "gnu" t abi_gnu refl e
abi_back abi_musl t e = read_literal (λ s. some (abi_from_str s)) "musl" t abi_musl refl e
abi_back abi_msvc t e = read_literal (λ s. some (abi_from_str s)) "msvc" t abi_msvc refl e
abi_back abi_apple t e = read_literal (λ s. some (abi_from_str s)) "apple" t abi_apple refl e
abi_back abi_bare t e = read_literal (λ s. some (abi_from_str s)) "none" t abi_bare refl e
abi_back abi_elf t e = read_literal (λ s. some (abi_from_str s)) "elf" t abi_elf refl e

abi_only :
    (s : String) (a : Abi)
    → some (abi_from_str s) ≡ some a
    → (a ≡ abi_none) ⊎ (some (abi_to_str a) ≡ some s)
unfolding abi_to_str abi_from_str
abi_only s a e = ground (
  arith,
  str_eq_iff s "gnu",
  str_eq_iff s "musl",
  str_eq_iff s "msvc",
  str_eq_iff s "apple",
  str_eq_iff s "none",
  str_eq_iff s "elf",
)

pub Abi-IsExact :
    IsExact {A = Abi} (λ a. some (abi_to_str a)) (λ s. some (abi_from_str s)) (λ a. a ≡ abi_none)
Abi-IsExact = record { back = abi_back; only = abi_only }

libc_kind_back :
    (a : LibcKind) (t : String) → some (libc_kind_to_str a) ≡ some t → libc_kind_from_str t ≡ some a
unfolding libc_kind_to_str libc_kind_from_str
libc_kind_back libc_gnu t e = read_literal libc_kind_from_str "gnu" t libc_gnu refl e
libc_kind_back libc_musl t e = read_literal libc_kind_from_str "musl" t libc_musl refl e
libc_kind_back libc_cosmopolitan t e =
    read_literal libc_kind_from_str "cosmopolitan" t libc_cosmopolitan refl e
libc_kind_back libc_custom t e = read_literal libc_kind_from_str "custom" t libc_custom refl e
libc_kind_back libc_none t e = read_literal libc_kind_from_str "none" t libc_none refl e

libc_kind_only :
    (s : String) (a : LibcKind)
    → libc_kind_from_str s ≡ some a
    → ⊥ ⊎ (some (libc_kind_to_str a) ≡ some s)
unfolding libc_kind_to_str libc_kind_from_str
libc_kind_only s a e = ground (
  arith,
  str_eq_iff s "gnu",
  str_eq_iff s "musl",
  str_eq_iff s "cosmopolitan",
  str_eq_iff s "custom",
  str_eq_iff s "none",
)

pub LibcKind-IsExact :
    IsExact {A = LibcKind} (λ a. some (libc_kind_to_str a)) libc_kind_from_str (λ _. ⊥)
LibcKind-IsExact = record { back = libc_kind_back; only = libc_kind_only }

-- The reader and the writer of each enumeration of this file are inverse to each other: a written name
-- reads as its value, and a text that reads as a value other than the reader's fallback is its name.
pub platform_names :
    IsExact {A = Arch}
      (λ a. some (arch_to_str a))
      (λ s. some (arch_from_str s))
      (λ a. a ≡ arch_none)
    × IsExact {A = Os} (λ a. some (os_to_str a)) (λ s. some (os_from_str s)) (λ a. a ≡ os_none)
    × IsExact {A = CcDriver}
        (λ a. some (cc_driver_to_str a))
        (λ s. some (cc_driver_from_str s))
        (λ a. a ≡ driver_none)
    × IsExact {A = LdFamily}
        (λ a. some (ld_family_to_str a))
        (λ s. some (ld_family_from_str s))
        (λ a. a ≡ ld_none)
    × IsExact {A = ToolchainDetect}
        (λ a. some (toolchain_detect_to_str a))
        (λ s. some (toolchain_detect_from_str s))
        (λ a. a ≡ detect_none)
    × IsExact {A = Abi} (λ a. some (abi_to_str a)) (λ s. some (abi_from_str s)) (λ a. a ≡ abi_none)
    × IsExact {A = LibcKind} (λ a. some (libc_kind_to_str a)) libc_kind_from_str (λ _. ⊥)
platform_names = (
  Arch-IsExact, Os-IsExact, CcDriver-IsExact, LdFamily-IsExact, ToolchainDetect-IsExact,
  Abi-IsExact, LibcKind-IsExact,
)
