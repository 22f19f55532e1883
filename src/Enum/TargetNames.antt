-- ===== src/Enum/TargetNames.antt =====
-- The names of Enum/Target.antt are read back exactly.
use spn.Base.{String, ◌≡◌, ◌⊎◌, refl, some, arith, str_eq_iff}
use spn.Enum.Exact.{IsExact, read_literal}
use spn.Enum.Target.{
  Linkage, linkage_none, linkage_shared, linkage_static, linkage_source, linkage_object,
  linkage_to_str, lib_kind_from_str, OptionType, type_none, type_bool, type_enum,
  option_type_to_str, option_type_from_str, Runtime, runtime_none, runtime_static, runtime_shared,
  runtime_to_str, runtime_from_str, CStandard, std_none, std_c11, std_c99, std_c89, std_gnu11,
  std_gnu99, std_gnu89, c_standard_to_str, c_standard_from_str, CxxStandard, cxxstd_none, cxxstd_11,
  cxxstd_14, cxxstd_17, cxxstd_20, cxxstd_23, cxx_standard_to_str, cxx_standard_from_str,
}

linkage_back :
    (a : Linkage) (t : String) → linkage_to_str a ≡ some t → some (lib_kind_from_str t) ≡ some a
unfolding linkage_to_str lib_kind_from_str
linkage_back linkage_none t e = cc
linkage_back linkage_shared t e =
    read_literal (λ s. some (lib_kind_from_str s)) "shared" t linkage_shared refl e
linkage_back linkage_static t e =
    read_literal (λ s. some (lib_kind_from_str s)) "static" t linkage_static refl e
linkage_back linkage_source t e =
    read_literal (λ s. some (lib_kind_from_str s)) "source" t linkage_source refl e
linkage_back linkage_object t e =
    read_literal (λ s. some (lib_kind_from_str s)) "object" t linkage_object refl e

linkage_only :
    (s : String) (a : Linkage)
    → some (lib_kind_from_str s) ≡ some a
    → (a ≡ linkage_none) ⊎ (linkage_to_str a ≡ some s)
unfolding linkage_to_str lib_kind_from_str
linkage_only s a e = ground (
  arith,
  str_eq_iff s "shared",
  str_eq_iff s "static",
  str_eq_iff s "source",
  str_eq_iff s "object",
)

pub Linkage-IsExact :
    IsExact {A = Linkage} linkage_to_str (λ s. some (lib_kind_from_str s)) (λ a. a ≡ linkage_none)
Linkage-IsExact = record { back = linkage_back; only = linkage_only }

option_type_back :
    (a : OptionType) (t : String)
    → some (option_type_to_str a) ≡ some t
    → some (option_type_from_str t) ≡ some a
unfolding option_type_to_str option_type_from_str
option_type_back type_none t e =
    read_literal (λ s. some (option_type_from_str s)) "" t type_none refl e
option_type_back type_bool t e =
    read_literal (λ s. some (option_type_from_str s)) "bool" t type_bool refl e
option_type_back type_enum t e =
    read_literal (λ s. some (option_type_from_str s)) "enum" t type_enum refl e

option_type_only :
    (s : String) (a : OptionType)
    → some (option_type_from_str s) ≡ some a
    → (a ≡ type_none) ⊎ (some (option_type_to_str a) ≡ some s)
unfolding option_type_to_str option_type_from_str
option_type_only s a e = ground (arith, str_eq_iff s "bool", str_eq_iff s "enum")

pub OptionType-IsExact :
    IsExact {A = OptionType}
      (λ a. some (option_type_to_str a))
      (λ s. some (option_type_from_str s))
      (λ a. a ≡ type_none)
OptionType-IsExact = record { back = option_type_back; only = option_type_only }

runtime_back :
    (a : Runtime) (t : String) → runtime_to_str a ≡ some t → some (runtime_from_str t) ≡ some a
unfolding runtime_to_str runtime_from_str
runtime_back runtime_none t e = cc
runtime_back runtime_static t e =
    read_literal (λ s. some (runtime_from_str s)) "static" t runtime_static refl e
runtime_back runtime_shared t e =
    read_literal (λ s. some (runtime_from_str s)) "shared" t runtime_shared refl e

runtime_only :
    (s : String) (a : Runtime)
    → some (runtime_from_str s) ≡ some a
    → (a ≡ runtime_none) ⊎ (runtime_to_str a ≡ some s)
unfolding runtime_to_str runtime_from_str
runtime_only s a e = ground (arith, str_eq_iff s "static", str_eq_iff s "shared")

pub Runtime-IsExact :
    IsExact {A = Runtime} runtime_to_str (λ s. some (runtime_from_str s)) (λ a. a ≡ runtime_none)
Runtime-IsExact = record { back = runtime_back; only = runtime_only }

c_standard_back :
    (a : CStandard) (t : String)
    → some (c_standard_to_str a) ≡ some t
    → some (c_standard_from_str t) ≡ some a
unfolding c_standard_to_str c_standard_from_str
c_standard_back std_none t e = read_literal (λ s. some (c_standard_from_str s)) "" t std_none refl e
c_standard_back std_c11 t e =
    read_literal (λ s. some (c_standard_from_str s)) "c11" t std_c11 refl e
c_standard_back std_c99 t e =
    read_literal (λ s. some (c_standard_from_str s)) "c99" t std_c99 refl e
c_standard_back std_c89 t e =
    read_literal (λ s. some (c_standard_from_str s)) "c89" t std_c89 refl e
c_standard_back std_gnu11 t e =
    read_literal (λ s. some (c_standard_from_str s)) "gnu11" t std_gnu11 refl e
c_standard_back std_gnu99 t e =
    read_literal (λ s. some (c_standard_from_str s)) "gnu99" t std_gnu99 refl e
c_standard_back std_gnu89 t e =
    read_literal (λ s. some (c_standard_from_str s)) "gnu89" t std_gnu89 refl e

c_standard_only :
    (s : String) (a : CStandard)
    → some (c_standard_from_str s) ≡ some a
    → (a ≡ std_none) ⊎ (some (c_standard_to_str a) ≡ some s)
unfolding c_standard_to_str c_standard_from_str
c_standard_only s a e = ground (
  arith,
  str_eq_iff s "c89",
  str_eq_iff s "c99",
  str_eq_iff s "c11",
  str_eq_iff s "gnu89",
  str_eq_iff s "gnu99",
  str_eq_iff s "gnu11",
)

pub CStandard-IsExact :
    IsExact {A = CStandard}
      (λ a. some (c_standard_to_str a))
      (λ s. some (c_standard_from_str s))
      (λ a. a ≡ std_none)
CStandard-IsExact = record { back = c_standard_back; only = c_standard_only }

cxx_standard_back :
    (a : CxxStandard) (t : String)
    → some (cxx_standard_to_str a) ≡ some t
    → some (cxx_standard_from_str t) ≡ some a
unfolding cxx_standard_to_str cxx_standard_from_str
cxx_standard_back cxxstd_none t e =
    read_literal (λ s. some (cxx_standard_from_str s)) "" t cxxstd_none refl e
cxx_standard_back cxxstd_11 t e =
    read_literal (λ s. some (cxx_standard_from_str s)) "c++11" t cxxstd_11 refl e
cxx_standard_back cxxstd_14 t e =
    read_literal (λ s. some (cxx_standard_from_str s)) "c++14" t cxxstd_14 refl e
cxx_standard_back cxxstd_17 t e =
    read_literal (λ s. some (cxx_standard_from_str s)) "c++17" t cxxstd_17 refl e
cxx_standard_back cxxstd_20 t e =
    read_literal (λ s. some (cxx_standard_from_str s)) "c++20" t cxxstd_20 refl e
cxx_standard_back cxxstd_23 t e =
    read_literal (λ s. some (cxx_standard_from_str s)) "c++23" t cxxstd_23 refl e

cxx_standard_only :
    (s : String) (a : CxxStandard)
    → some (cxx_standard_from_str s) ≡ some a
    → (a ≡ cxxstd_none) ⊎ (some (cxx_standard_to_str a) ≡ some s)
unfolding cxx_standard_to_str cxx_standard_from_str
cxx_standard_only s a e = ground (
  arith,
  str_eq_iff s "c++11",
  str_eq_iff s "c++14",
  str_eq_iff s "c++17",
  str_eq_iff s "c++20",
  str_eq_iff s "c++23",
)

pub CxxStandard-IsExact :
    IsExact {A = CxxStandard}
      (λ a. some (cxx_standard_to_str a))
      (λ s. some (cxx_standard_from_str s))
      (λ a. a ≡ cxxstd_none)
CxxStandard-IsExact = record { back = cxx_standard_back; only = cxx_standard_only }

-- For each enumeration, the reader and the writer are inverse to each other.
abbrev pub AreTargetNames : Type 0
AreTargetNames =
    IsExact {A = Linkage} linkage_to_str (λ s. some (lib_kind_from_str s)) (λ a. a ≡ linkage_none)
    × IsExact {A = OptionType} (λ a. some (option_type_to_str a))
        (λ s. some (option_type_from_str s)) (λ a. a ≡ type_none)
    × IsExact {A = Runtime} runtime_to_str (λ s. some (runtime_from_str s)) (λ a. a ≡ runtime_none)
    × IsExact {A = CStandard} (λ a. some (c_standard_to_str a)) (λ s. some (c_standard_from_str s))
        (λ a. a ≡ std_none)
    × IsExact {A = CxxStandard} (λ a. some (cxx_standard_to_str a))
        (λ s. some (cxx_standard_from_str s)) (λ a. a ≡ cxxstd_none)

pub target_names : AreTargetNames
target_names =
    (Linkage-IsExact, OptionType-IsExact, Runtime-IsExact, CStandard-IsExact, CxxStandard-IsExact)
