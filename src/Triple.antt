-- ===== src/Triple.antt =====
-- source/core/triple/triple.c: the machine, system and ABI that a build is for. The host's own
-- triple, which the preprocessor and the file system decide, is not modelled.
pub mod Parse
pub mod Listed
pub mod Entry
pub mod RoundTrip
pub mod Merge
mod Tests
use spn.Base.{String, Bool, true, false, not, ◌&&◌, List, [], ◌∷◌, ◌++◌, map, if◌then◌else◌}
use spn.Enum.Platform.{
  Arch, arch_none, arch_x64, arch_arm64, arch_wasm32, Os, os_none, os_windows, os_linux, os_macos,
  os_wasi, os_freestanding, Abi, abi_none, abi_gnu, abi_musl, abi_msvc, abi_apple, abi_bare,
  abi_elf,
}

pub record Triple : Type 0 where
  pub arch : Arch
  pub os : Os
  pub abi : Abi

-- `a == b` on the three enumerations.
unfoldable pub arch_eq : Arch → Arch → Bool
arch_eq arch_none arch_none = true
arch_eq arch_x64 arch_x64 = true
arch_eq arch_arm64 arch_arm64 = true
arch_eq arch_wasm32 arch_wasm32 = true
arch_eq _ _ = false

unfoldable pub os_eq : Os → Os → Bool
os_eq os_none os_none = true
os_eq os_windows os_windows = true
os_eq os_linux os_linux = true
os_eq os_macos os_macos = true
os_eq os_wasi os_wasi = true
os_eq os_freestanding os_freestanding = true
os_eq _ _ = false

unfoldable pub abi_eq : Abi → Abi → Bool
abi_eq abi_none abi_none = true
abi_eq abi_gnu abi_gnu = true
abi_eq abi_musl abi_musl = true
abi_eq abi_msvc abi_msvc = true
abi_eq abi_apple abi_apple = true
abi_eq abi_bare abi_bare = true
abi_eq abi_elf abi_elf = true
abi_eq _ _ = false

-- The rows of `os_abis`, and how many of each can complete a triple without an ABI.
unfoldable pub os_abis : Os → List Abi
os_abis os_linux = abi_gnu ∷ abi_musl ∷ abi_bare ∷ []
os_abis os_windows = abi_gnu ∷ abi_msvc ∷ []
os_abis os_macos = abi_apple ∷ []
os_abis os_wasi = abi_musl ∷ []
os_abis os_freestanding = abi_bare ∷ abi_elf ∷ []
os_abis os_none = []

unfoldable pub os_completions : Os → List Abi
os_completions os_linux = abi_gnu ∷ abi_musl ∷ []
os_completions os_windows = abi_gnu ∷ abi_msvc ∷ []
os_completions os_macos = abi_apple ∷ []
os_completions os_wasi = abi_musl ∷ []
os_completions os_freestanding = abi_bare ∷ abi_elf ∷ []
os_completions os_none = []

unfoldable pub os_archs : Os → List Arch
os_archs os_linux = arch_x64 ∷ arch_arm64 ∷ []
os_archs os_windows = arch_x64 ∷ arch_arm64 ∷ []
os_archs os_macos = arch_x64 ∷ arch_arm64 ∷ []
os_archs os_freestanding = arch_x64 ∷ arch_arm64 ∷ []
os_archs os_wasi = arch_wasm32 ∷ []
os_archs os_none = []

-- The loop of `os_has_arch`, and that of `os_has_abi`.
unfoldable pub has_arch : List Arch → Arch → Bool
unfolding arch_eq
has_arch [] arch = false
has_arch (a ∷ archs) arch = if arch_eq a arch then true else has_arch archs arch

unfoldable pub has_abi : List Abi → Abi → Bool
unfolding abi_eq
has_abi [] abi = false
has_abi (a ∷ abis) abi = if abi_eq a abi then true else has_abi abis abi

unfoldable pub os_has_arch : Os → Arch → Bool
unfolding os_archs has_arch
os_has_arch os arch = has_arch (os_archs os) arch

unfoldable pub os_has_abi : Os → Abi → Bool
unfolding os_abis has_abi
os_has_abi os abi = has_abi (os_abis os) abi

unfoldable pub os_triples : Arch → Os → List Triple
unfolding os_abis
os_triples arch os = map (λ abi. record { arch = arch; os = os; abi = abi }) (os_abis os)

-- The loop of `spn_arch_triples` over its systems.
unfoldable pub triples_on : Arch → List Os → List Triple
unfolding os_has_arch os_triples
triples_on arch [] = []
triples_on arch (os ∷ oses) =
    if not (os_has_arch os arch)
    then triples_on arch oses
    else os_triples arch os ++ triples_on arch oses

unfoldable pub arch_triples : Arch → List Triple
unfolding triples_on
arch_triples arch =
    triples_on arch (os_linux ∷ os_windows ∷ os_macos ∷ os_wasi ∷ os_freestanding ∷ [])

-- `SPN_TRIPLE_ENTRY_OK` holds the full triple; otherwise the out parameter is zero.
pub data TripleEntry : Type 0 where
  entry_ok : Triple → TripleEntry
  missing_arch missing_os missing_abi foreign_arch foreign_abi : TripleEntry

-- `count != 1` of the completions, and the one that there is.
unfoldable pub complete : Triple → List Abi → TripleEntry
complete partial (abi ∷ []) = entry_ok (record { arch = partial.arch; os = partial.os; abi = abi })
complete partial _ = missing_abi

unfoldable pub triple_entry : Triple → TripleEntry
unfolding arch_eq os_eq abi_eq os_has_arch os_has_abi os_completions complete
triple_entry partial =
    if arch_eq partial.arch arch_none
    then missing_arch
    else if os_eq partial.os os_none
    then missing_os
    else if not (os_has_arch partial.os partial.arch)
    then foreign_arch
    else if not (abi_eq partial.abi abi_none)
    then (if not (os_has_abi partial.os partial.abi) then foreign_abi else entry_ok partial)
    else complete partial (os_completions partial.os)

unfoldable pub triple_merge : Triple → Triple → Triple
unfolding arch_eq os_eq abi_eq
triple_merge base partial = record {
  arch = if arch_eq partial.arch arch_none then base.arch else partial.arch;
  os = if os_eq partial.os os_none then base.os else partial.os;
  abi = if abi_eq partial.abi abi_none then base.abi else partial.abi;
}

unfoldable pub triple_match : Triple → Triple → Bool
unfolding arch_eq os_eq abi_eq
triple_match entry target =
    if not (arch_eq entry.arch arch_none) && not (arch_eq entry.arch target.arch)
    then false
    else if not (os_eq entry.os os_none) && not (os_eq entry.os target.os)
    then false
    else if not (abi_eq entry.abi abi_none) && not (abi_eq entry.abi target.abi)
    then false
    else true

unfoldable pub triple_equal : Triple → Triple → Bool
unfolding arch_eq os_eq abi_eq
triple_equal a b = arch_eq a.arch b.arch && (os_eq a.os b.os && abi_eq a.abi b.abi)

unfoldable pub triple_in : List Triple → Triple → Bool
triple_in [] triple = false
triple_in (t ∷ triples) triple = if triple_equal t triple then true else triple_in triples triple

pub data ObjFormat : Type 0 where
  obj_elf obj_coff obj_macho obj_wasm : ObjFormat

unfoldable pub os_to_native_object_format : Os → ObjFormat
os_to_native_object_format os_linux = obj_elf
os_to_native_object_format os_freestanding = obj_elf
os_to_native_object_format os_windows = obj_coff
os_to_native_object_format os_macos = obj_macho
os_to_native_object_format os_wasi = obj_wasm
os_to_native_object_format os_none = obj_elf

abbrev pub is_coff : ObjFormat → Bool
is_coff obj_coff = true
is_coff _ = false

-- The switch of `spn_triple_dynamic`.
unfoldable pub os_dynamic : Os → Bool
os_dynamic os_linux = true
os_dynamic os_windows = true
os_dynamic os_macos = true
os_dynamic os_wasi = false
os_dynamic os_freestanding = false
os_dynamic os_none = false

unfoldable pub triple_dynamic : Triple → Bool
unfolding abi_eq os_dynamic
triple_dynamic triple = if abi_eq triple.abi abi_bare then false else os_dynamic triple.os

unfoldable pub triple_pic : Triple → Bool
unfolding triple_dynamic os_to_native_object_format
triple_pic triple = triple_dynamic triple && not (is_coff (os_to_native_object_format triple.os))
