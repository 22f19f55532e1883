-- ===== src/Enum/Build.antt =====
-- source/core/enum/enum.c: the enumerations of the build and the names they are written with.
-- A branch that the code declares unreachable gives `none`.
use spn.Base.{String, str_eq, if◌then◌else◌}

pub data BuildMode : Type 0 where
  mode_none mode_debug mode_release : BuildMode

unfoldable pub mode_to_str : BuildMode → String
mode_to_str mode_none = ""
mode_to_str mode_debug = "debug"
mode_to_str mode_release = "release"

unfoldable pub mode_from_str : String → BuildMode
mode_from_str str =
    if str_eq str "release"
    then mode_release
    else if str_eq str "debug"
    then mode_debug
    else mode_none

pub data OptLevel : Type 0 where
  opt_none opt_0 opt_1 opt_2 opt_3 opt_s opt_z : OptLevel

unfoldable pub opt_level_to_str : OptLevel → String
opt_level_to_str opt_none = ""
opt_level_to_str opt_0 = "0"
opt_level_to_str opt_1 = "1"
opt_level_to_str opt_2 = "2"
opt_level_to_str opt_3 = "3"
opt_level_to_str opt_s = "s"
opt_level_to_str opt_z = "z"

unfoldable pub opt_level_from_str : String → OptLevel
opt_level_from_str str =
    if str_eq str "0"
    then opt_0
    else if str_eq str "1"
    then opt_1
    else if str_eq str "2"
    then opt_2
    else if str_eq str "3"
    then opt_3
    else if str_eq str "s"
    then opt_s
    else if str_eq str "z"
    then opt_z
    else opt_none

pub data WinSubsystem : Type 0 where
  subsystem_none subsystem_console subsystem_windows : WinSubsystem

unfoldable pub win_subsystem_to_str : WinSubsystem → String
win_subsystem_to_str subsystem_none = ""
win_subsystem_to_str subsystem_console = "console"
win_subsystem_to_str subsystem_windows = "windows"

unfoldable pub win_subsystem_from_str : String → WinSubsystem
win_subsystem_from_str str =
    if str_eq str "console"
    then subsystem_console
    else if str_eq str "windows"
    then subsystem_windows
    else subsystem_none

pub data Tree : Type 0 where
  tree_none tree_source tree_manifest : Tree

unfoldable pub tree_to_str : Tree → String
tree_to_str tree_none = ""
tree_to_str tree_source = "source"
tree_to_str tree_manifest = "manifest"

unfoldable pub tree_from_str : String → Tree
tree_from_str str =
    if str_eq str "source"
    then tree_source
    else if str_eq str "manifest"
    then tree_manifest
    else tree_none

pub data Sanitizer : Type 0 where
  sanitizer_none sanitizer_address sanitizer_thread sanitizer_undefined sanitizer_memory
        sanitizer_leak :
      Sanitizer

unfoldable pub sanitizer_to_str : Sanitizer → String
sanitizer_to_str sanitizer_none = ""
sanitizer_to_str sanitizer_address = "address"
sanitizer_to_str sanitizer_thread = "thread"
sanitizer_to_str sanitizer_undefined = "undefined"
sanitizer_to_str sanitizer_memory = "memory"
sanitizer_to_str sanitizer_leak = "leak"

unfoldable pub sanitizer_from_str : String → Sanitizer
sanitizer_from_str str =
    if str_eq str "address"
    then sanitizer_address
    else if str_eq str "thread"
    then sanitizer_thread
    else if str_eq str "undefined"
    then sanitizer_undefined
    else if str_eq str "memory"
    then sanitizer_memory
    else if str_eq str "leak"
    then sanitizer_leak
    else sanitizer_none
