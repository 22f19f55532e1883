-- ===== src/Triple/Parse.antt =====
-- Reading and writing a triple: `spn_triple_parse` and `spn_triple_to_str` of
-- source/core/triple/triple.c. A triple that cannot be read is `none`.
use Prim.Native.Char.{code}
use Prim.Native.String.{◌++◌ as append}
use spn.Base.{
  ℕ, zero, suc, String, Bool, true, false, List, [], ◌∷◌, Option, none, some, ◌==◌, if◌then◌else◌,
}
use spn.Enum.Platform.{
  Arch, arch_none, arch_to_str, arch_from_str, Os, os_none, os_to_str, os_from_str, abi_none,
  abi_to_str, abi_from_str,
}
use spn.Triple.{Triple, arch_eq, os_eq, abi_eq}

abbrev pub str_empty : String → Bool
str_empty String.[] = true
str_empty (String.◌∷◌ c s) = false

-- The text before the first `-`, and the text after it if there is one.
unfoldable pub cut : String → String × Option String
cut String.[] = ("", none)
cut (String.◌∷◌ c s) = if code c == b'-' then ("", some s) else (String.◌∷◌ c (cut s).0, (cut s).1)

-- The loop over the segments, with room for `room` more.
unfoldable pub segments : ℕ → String → Option (List String)
unfolding cut
segments zero remaining = none
segments (suc room) remaining =
    if str_empty (cut remaining).0 then none else elim (cut remaining).1 [
      | none ↦ some ((cut remaining).0 ∷ [])
      | some rest ↦ elim (segments room rest) [
        | none ↦ none
        | some others ↦ some ((cut remaining).0 ∷ others)
      ]
    ]

unfoldable pub parse_abi : Arch → Os → List String → Option Triple
parse_abi arch os [] = some (record { arch = arch; os = os; abi = abi_none })
parse_abi arch os (abi ∷ rest) =
    if abi_eq (abi_from_str abi) abi_none
    then none
    else some (record { arch = arch; os = os; abi = abi_from_str abi })

unfoldable pub parse_os : Arch → List String → Option Triple
unfolding parse_abi
parse_os arch [] = some (record { arch = arch; os = os_none; abi = abi_none })
parse_os arch (os ∷ rest) =
    if os_eq (os_from_str os) os_none then none else parse_abi arch (os_from_str os) rest

unfoldable pub parse_arch : List String → Option Triple
unfolding parse_os
parse_arch [] = none
parse_arch (arch ∷ rest) =
    if arch_eq (arch_from_str arch) arch_none then none else parse_os (arch_from_str arch) rest

unfoldable pub triple_parse : String → Option Triple
unfolding segments parse_arch
triple_parse str = elim (segments 3 str) [ none ↦ none | some found ↦ parse_arch found ]

-- `spn_triple_parse_host`: a host names its system.
unfoldable pub triple_parse_host : String → Option Triple
unfolding triple_parse
triple_parse_host str = elim (triple_parse str) [
  | none ↦ none
  | some triple ↦ if os_eq triple.os os_none then none else some triple
]

abbrev pub dash : String → String → String
dash a b = append a (append "-" b)

unfoldable pub triple_to_str : Triple → String
triple_to_str triple =
    if abi_eq triple.abi abi_none
    then (if os_eq triple.os os_none
        then arch_to_str triple.arch
        else dash (arch_to_str triple.arch) (os_to_str triple.os))
    else dash (arch_to_str triple.arch) (dash (os_to_str triple.os) (abi_to_str triple.abi))
