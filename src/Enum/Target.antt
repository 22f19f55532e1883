-- ===== src/Enum/Target.antt =====
-- source/core/enum/enum.c: the enumerations of the target and the names they are written with.
-- A branch that the code declares unreachable gives `none`.
use spn.Base.{String, str_eq, if◌then◌else◌, Option, none, some}

pub data Linkage : Type 0 where
  linkage_none linkage_shared linkage_static linkage_source linkage_object : Linkage

unfoldable pub linkage_to_str : Linkage → Option String
linkage_to_str linkage_none = none
linkage_to_str linkage_shared = some "shared"
linkage_to_str linkage_static = some "static"
linkage_to_str linkage_source = some "source"
linkage_to_str linkage_object = some "object"

unfoldable pub lib_kind_from_str : String → Linkage
lib_kind_from_str str =
    if str_eq str "shared"
    then linkage_shared
    else if str_eq str "static"
    then linkage_static
    else if str_eq str "source"
    then linkage_source
    else if str_eq str "object"
    then linkage_object
    else linkage_none

pub data OptionType : Type 0 where
  type_none type_bool type_enum : OptionType

unfoldable pub option_type_to_str : OptionType → String
option_type_to_str type_none = ""
option_type_to_str type_bool = "bool"
option_type_to_str type_enum = "enum"

unfoldable pub option_type_from_str : String → OptionType
option_type_from_str str =
    if str_eq str "bool" then type_bool else if str_eq str "enum" then type_enum else type_none

pub data Runtime : Type 0 where
  runtime_none runtime_static runtime_shared : Runtime

unfoldable pub runtime_to_str : Runtime → Option String
runtime_to_str runtime_none = none
runtime_to_str runtime_static = some "static"
runtime_to_str runtime_shared = some "shared"

unfoldable pub runtime_from_str : String → Runtime
runtime_from_str str =
    if str_eq str "static"
    then runtime_static
    else if str_eq str "shared"
    then runtime_shared
    else runtime_none

pub data CStandard : Type 0 where
  std_none std_c11 std_c99 std_c89 std_gnu11 std_gnu99 std_gnu89 : CStandard

unfoldable pub c_standard_to_str : CStandard → String
c_standard_to_str std_none = ""
c_standard_to_str std_c11 = "c11"
c_standard_to_str std_c99 = "c99"
c_standard_to_str std_c89 = "c89"
c_standard_to_str std_gnu11 = "gnu11"
c_standard_to_str std_gnu99 = "gnu99"
c_standard_to_str std_gnu89 = "gnu89"

unfoldable pub c_standard_from_str : String → CStandard
c_standard_from_str str =
    if str_eq str "c89"
    then std_c89
    else if str_eq str "c99"
    then std_c99
    else if str_eq str "c11"
    then std_c11
    else if str_eq str "gnu89"
    then std_gnu89
    else if str_eq str "gnu99"
    then std_gnu99
    else if str_eq str "gnu11"
    then std_gnu11
    else std_none

pub data CxxStandard : Type 0 where
  cxxstd_none cxxstd_11 cxxstd_14 cxxstd_17 cxxstd_20 cxxstd_23 : CxxStandard

unfoldable pub cxx_standard_to_str : CxxStandard → String
cxx_standard_to_str cxxstd_none = ""
cxx_standard_to_str cxxstd_11 = "c++11"
cxx_standard_to_str cxxstd_14 = "c++14"
cxx_standard_to_str cxxstd_17 = "c++17"
cxx_standard_to_str cxxstd_20 = "c++20"
cxx_standard_to_str cxxstd_23 = "c++23"

unfoldable pub cxx_standard_from_str : String → CxxStandard
cxx_standard_from_str str =
    if str_eq str "c++11"
    then cxxstd_11
    else if str_eq str "c++14"
    then cxxstd_14
    else if str_eq str "c++17"
    then cxxstd_17
    else if str_eq str "c++20"
    then cxxstd_20
    else if str_eq str "c++23"
    then cxxstd_23
    else cxxstd_none
