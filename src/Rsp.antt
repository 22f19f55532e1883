-- ===== src/Rsp.antt =====
-- source/core/compiler/rsp.c: the response files that hold a compiler's arguments. A text is a list
-- of bytes; `spn_arg_str`, which turns an argument into its text, comes before what is modelled.
pub mod Readers
pub mod Gnu
pub mod Windows
pub mod RoundTrip
mod Tests
use spn.Base.{
  ℕ, zero, suc, ◌+◌, ◌*◌, Bool, true, false, ◌&&◌, ◌||◌, List, [], ◌∷◌, ◌++◌, ◌==◌, if◌then◌else◌,
  u32,
}
use spn.Enum.Platform.{CcDriver, driver_none, driver_gcc, driver_clang, driver_msvc, driver_zig}

abbrev pub Text : Type 0
Text = List ℕ

pub data RspStyle : Type 0 where
  style_windows style_gnu : RspStyle

abbrev pub is_gnu : RspStyle → Bool
is_gnu style_gnu = true
is_gnu style_windows = false

-- A space, a tab, a line feed or a carriage return.
abbrev pub is_space : ℕ → Bool
is_space c = c == b' ' || (c == 9 || (c == 10 || c == 13))

-- The two tests in the loop of `needs_quotes`.
abbrev pub is_special : RspStyle → ℕ → Bool
is_special style c = (is_space c || (c == b'"' || c == b'\'')) || (c == b'\\' && is_gnu style)

unfoldable pub has_special : RspStyle → Text → Bool
has_special style [] = false
has_special style (c ∷ s) = if is_special style c then true else has_special style s

unfoldable pub needs_quotes : RspStyle → Text → Bool
unfolding has_special
needs_quotes style [] = true
needs_quotes style (c ∷ s) = if c == b'#' then true else has_special style (c ∷ s)

abbrev pub backslashes : ℕ → Text
backslashes zero = []
backslashes (suc n) = b'\\' ∷ backslashes n

-- The loop of `write_quoted_windows`, with the number of backslashes that are held back.
unfoldable pub quoted_windows : ℕ → Text → Text
quoted_windows held [] = backslashes (u32 (held * 2)) ++ (b'"' ∷ [])
quoted_windows held (c ∷ s) =
    if c == b'\\'
    then quoted_windows (u32 (held + 1)) s
    else if c == b'"'
    then backslashes (u32 (held * 2 + 1)) ++ (c ∷ quoted_windows 0 s)
    else backslashes held ++ (c ∷ quoted_windows 0 s)

unfoldable pub write_quoted_windows : Text → Text
unfolding quoted_windows
write_quoted_windows arg = b'"' ∷ quoted_windows 0 arg

-- The loop of `write_quoted_gnu`.
unfoldable pub quoted_gnu : Text → Text
quoted_gnu [] = b'"' ∷ []
quoted_gnu (c ∷ s) =
    if c == b'\\' || c == b'"' then b'\\' ∷ (c ∷ quoted_gnu s) else c ∷ quoted_gnu s

unfoldable pub write_quoted_gnu : Text → Text
unfolding quoted_gnu
write_quoted_gnu arg = b'"' ∷ quoted_gnu arg

abbrev pub write_quoted : RspStyle → Text → Text
unfolding write_quoted_windows write_quoted_gnu
write_quoted style_windows arg = write_quoted_windows arg
write_quoted style_gnu arg = write_quoted_gnu arg

unfoldable pub write_arg : RspStyle → Text → Text
unfolding needs_quotes write_quoted_windows write_quoted_gnu
write_arg style arg = if needs_quotes style arg then write_quoted style arg else arg

unfoldable pub rsp_style : CcDriver → RspStyle
rsp_style driver_gcc = style_gnu
rsp_style driver_clang = style_gnu
rsp_style driver_zig = style_windows
rsp_style driver_msvc = style_windows
rsp_style driver_none = style_windows

-- `spn_rsp_render`: a line for each argument.
unfoldable pub rsp_render : RspStyle → List Text → Text
unfolding write_arg
rsp_render style [] = []
rsp_render style (arg ∷ args) = write_arg style arg ++ (10 ∷ rsp_render style args)
