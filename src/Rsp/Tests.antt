-- ===== src/Rsp/Tests.antt =====
-- Response files on concrete arguments.
use spn.Base.{◌≡◌, refl, List, [], ◌∷◌}
use spn.Rsp.{Text, style_windows, write_arg}

-- a "\
abbrev awkward : Text
awkward = b'a' ∷ b' ' ∷ b'"' ∷ b'\\' ∷ []

-- "a \"\\"
awkward_written :
    write_arg style_windows awkward ≡ b'"' ∷ b'a' ∷ b' ' ∷ b'\\' ∷ b'"' ∷ b'\\' ∷ b'\\' ∷ b'"' ∷ []
unfolding write_arg
awkward_written = refl

abbrev arguments : List Text
arguments = awkward ∷ [] ∷ (b'-' ∷ b'c' ∷ []) ∷ []
