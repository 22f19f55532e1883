-- ===== src/Enum/Platform.antt =====
-- source/core/enum/enum.c: the enumerations of the platform and the names they are written with.
-- A branch that the code declares unreachable gives `none`.
use spn.Base.{String, str_eq, if◌then◌else◌, Option, none, some}

pub data Arch : Type 0 where
  arch_none arch_x64 arch_arm64 arch_wasm32 : Arch

unfoldable pub arch_to_str : Arch → String
arch_to_str arch_none = ""
arch_to_str arch_x64 = "x86_64"
arch_to_str arch_arm64 = "aarch64"
arch_to_str arch_wasm32 = "wasm32"

unfoldable pub arch_from_str : String → Arch
arch_from_str str =
    if str_eq str "x86_64"
    then arch_x64
    else if str_eq str "aarch64"
    then arch_arm64
    else if str_eq str "wasm32"
    then arch_wasm32
    else arch_none

pub data Os : Type 0 where
  os_none os_windows os_linux os_macos os_wasi os_freestanding : Os

unfoldable pub os_to_str : Os → String
os_to_str os_none = ""
os_to_str os_windows = "windows"
os_to_str os_linux = "linux"
os_to_str os_macos = "macos"
os_to_str os_wasi = "wasi"
os_to_str os_freestanding = "freestanding"

unfoldable pub os_from_str : String → Os
os_from_str str =
    if str_eq str "windows"
    then os_windows
    else if str_eq str "linux"
    then os_linux
    else if str_eq str "macos"
    then os_macos
    else if str_eq str "wasi"
    then os_wasi
    else if str_eq str "freestanding"
    then os_freestanding
    else os_none

pub data CcDriver : Type 0 where
  driver_none driver_gcc driver_clang driver_msvc driver_zig : CcDriver

unfoldable pub cc_driver_to_str : CcDriver → String
cc_driver_to_str driver_none = ""
cc_driver_to_str driver_gcc = "gcc"
cc_driver_to_str driver_clang = "clang"
cc_driver_to_str driver_msvc = "msvc"
cc_driver_to_str driver_zig = "zig"

unfoldable pub cc_driver_from_str : String → CcDriver
cc_driver_from_str str =
    if str_eq str "gcc"
    then driver_gcc
    else if str_eq str "clang"
    then driver_clang
    else if str_eq str "msvc"
    then driver_msvc
    else if str_eq str "zig"
    then driver_zig
    else driver_none

pub data LdFamily : Type 0 where
  ld_none ld_gnu ld_lld ld_ld64 ld_msvc : LdFamily

unfoldable pub ld_family_to_str : LdFamily → String
ld_family_to_str ld_none = ""
ld_family_to_str ld_gnu = "gnu"
ld_family_to_str ld_lld = "lld"
ld_family_to_str ld_ld64 = "ld64"
ld_family_to_str ld_msvc = "msvc"

unfoldable pub ld_family_from_str : String → LdFamily
ld_family_from_str str =
    if str_eq str "gnu"
    then ld_gnu
    else if str_eq str "lld"
    then ld_lld
    else if str_eq str "ld64"
    then ld_ld64
    else if str_eq str "msvc"
    then ld_msvc
    else ld_none

pub data ToolchainDetect : Type 0 where
  detect_none detect_msvc : ToolchainDetect

unfoldable pub toolchain_detect_to_str : ToolchainDetect → String
toolchain_detect_to_str detect_none = ""
toolchain_detect_to_str detect_msvc = "msvc"

unfoldable pub toolchain_detect_from_str : String → ToolchainDetect
toolchain_detect_from_str str = if str_eq str "msvc" then detect_msvc else detect_none

pub data Abi : Type 0 where
  abi_none abi_gnu abi_musl abi_msvc abi_apple abi_bare abi_elf : Abi

unfoldable pub abi_to_str : Abi → String
abi_to_str abi_none = ""
abi_to_str abi_gnu = "gnu"
abi_to_str abi_musl = "musl"
abi_to_str abi_msvc = "msvc"
abi_to_str abi_apple = "apple"
abi_to_str abi_bare = "none"
abi_to_str abi_elf = "elf"

unfoldable pub abi_from_str : String → Abi
abi_from_str str =
    if str_eq str "gnu"
    then abi_gnu
    else if str_eq str "musl"
    then abi_musl
    else if str_eq str "msvc"
    then abi_msvc
    else if str_eq str "apple"
    then abi_apple
    else if str_eq str "none"
    then abi_bare
    else if str_eq str "elf"
    then abi_elf
    else abi_none

pub data LibcKind : Type 0 where
  libc_gnu libc_musl libc_cosmopolitan libc_custom libc_none : LibcKind

unfoldable pub libc_kind_to_str : LibcKind → String
libc_kind_to_str libc_gnu = "gnu"
libc_kind_to_str libc_musl = "musl"
libc_kind_to_str libc_cosmopolitan = "cosmopolitan"
libc_kind_to_str libc_custom = "custom"
libc_kind_to_str libc_none = "none"

unfoldable pub libc_kind_from_str : String → Option LibcKind
libc_kind_from_str str =
    if str_eq str "gnu"
    then some libc_gnu
    else if str_eq str "musl"
    then some libc_musl
    else if str_eq str "cosmopolitan"
    then some libc_cosmopolitan
    else if str_eq str "custom"
    then some libc_custom
    else if str_eq str "none"
    then some libc_none
    else none
