-- ===== src/Rsp/RoundTrip.antt =====
-- The response file of source/core/compiler/rsp.c holds the arguments that it was written from.
use spn.Base.{List}
use spn.Rsp.{Text, RspStyle, style_windows, style_gnu}
use spn.Rsp.Readers.{gnu_between, read_gnu, windows_between, read_windows}

-- A compiler's reader in each style.
abbrev pub read_rsp : RspStyle → Text → List Text
unfolding read_gnu read_windows
read_rsp style_gnu s = read_gnu gnu_between s
read_rsp style_windows s = read_windows windows_between s
