-- ===== src/Rsp/Readers.antt =====
-- How a compiler splits a response file into arguments again, in the two styles of
-- source/core/compiler/rsp.c. The compilers are not part of the repository; these are the documented
-- rules: those of the GNU tools and of the Microsoft C runtime.
use spn.Base.{ℕ, ◌+◌, ◌/◌, ◌%◌, List, [], ◌∷◌, ◌++◌, ◌==◌, if◌then◌else◌}
use spn.Rsp.{Text, backslashes, is_space}

-- Between two arguments, or in one, with what was read of it.
pub data GnuState : Type 0 where
  gnu_between : GnuState
  gnu_word gnu_escape gnu_quoted gnu_quoted_escape gnu_single : Text → GnuState

-- White space ends an argument; a quote begins or ends a quoted part; a backslash takes the next
-- character as it is, except between single quotes.
unfoldable pub read_gnu : GnuState → Text → List Text
read_gnu gnu_between [] = []
read_gnu (gnu_word arg) [] = arg ∷ []
read_gnu (gnu_escape arg) [] = arg ∷ []
read_gnu (gnu_quoted arg) [] = arg ∷ []
read_gnu (gnu_quoted_escape arg) [] = arg ∷ []
read_gnu (gnu_single arg) [] = arg ∷ []
read_gnu gnu_between (c ∷ s) =
    if is_space c
    then read_gnu gnu_between s
    else if c == b'"'
    then read_gnu (gnu_quoted []) s
    else if c == b'\''
    then read_gnu (gnu_single []) s
    else if c == b'\\'
    then read_gnu (gnu_escape []) s
    else read_gnu (gnu_word (c ∷ [])) s
read_gnu (gnu_word arg) (c ∷ s) =
    if is_space c
    then arg ∷ read_gnu gnu_between s
    else if c == b'"'
    then read_gnu (gnu_quoted arg) s
    else if c == b'\''
    then read_gnu (gnu_single arg) s
    else if c == b'\\'
    then read_gnu (gnu_escape arg) s
    else read_gnu (gnu_word (arg ++ c ∷ [])) s
read_gnu (gnu_escape arg) (c ∷ s) = read_gnu (gnu_word (arg ++ c ∷ [])) s
read_gnu (gnu_quoted arg) (c ∷ s) =
    if c == b'"'
    then read_gnu (gnu_word arg) s
    else if c == b'\\'
    then read_gnu (gnu_quoted_escape arg) s
    else read_gnu (gnu_quoted (arg ++ c ∷ [])) s
read_gnu (gnu_quoted_escape arg) (c ∷ s) = read_gnu (gnu_quoted (arg ++ c ∷ [])) s
read_gnu (gnu_single arg) (c ∷ s) =
    if c == b'\'' then read_gnu (gnu_word arg) s else read_gnu (gnu_single (arg ++ c ∷ [])) s

-- In an argument, with what was read of it and the number of backslashes read since.
pub data WindowsState : Type 0 where
  windows_between : WindowsState
  windows_word windows_quoted : Text → ℕ → WindowsState

-- Backslashes stand for themselves unless a quote follows: then two stand for one, and one that is
-- left makes the quote a character of the argument.
unfoldable pub read_windows : WindowsState → Text → List Text
read_windows windows_between [] = []
read_windows (windows_word arg n) [] = (arg ++ backslashes n) ∷ []
read_windows (windows_quoted arg n) [] = (arg ++ backslashes n) ∷ []
read_windows windows_between (c ∷ s) =
    if is_space c
    then read_windows windows_between s
    else if c == b'\\'
    then read_windows (windows_word [] 1) s
    else if c == b'"'
    then read_windows (windows_quoted [] 0) s
    else read_windows (windows_word (c ∷ []) 0) s
read_windows (windows_word arg n) (c ∷ s) =
    if is_space c
    then (arg ++ backslashes n) ∷ read_windows windows_between s
    else if c == b'\\'
    then read_windows (windows_word arg (n + 1)) s
    else if c == b'"'
    then if n % 2 == 0
      then read_windows (windows_quoted (arg ++ backslashes (n / 2)) 0) s
      else read_windows (windows_word (arg ++ backslashes (n / 2) ++ c ∷ []) 0) s
    else read_windows (windows_word (arg ++ backslashes n ++ c ∷ []) 0) s
read_windows (windows_quoted arg n) (c ∷ s) =
    if c == b'\\'
    then read_windows (windows_quoted arg (n + 1)) s
    else if c == b'"'
    then if n % 2 == 0
      then read_windows (windows_word (arg ++ backslashes (n / 2)) 0) s
      else read_windows (windows_quoted (arg ++ backslashes (n / 2) ++ c ∷ []) 0) s
    else read_windows (windows_quoted (arg ++ backslashes n ++ c ∷ []) 0) s
