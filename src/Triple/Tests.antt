-- ===== src/Triple/Tests.antt =====
-- Triples read, completed and matched at concrete values.
use spn.Base.{◌≡◌, ◌↔◌, refl, true, some}
use spn.Enum.Platform.{
  arch_none, arch_x64, arch_wasm32, os_none, os_linux, os_wasi, abi_none, abi_gnu, abi_musl,
}
use spn.Triple.{Triple, triple_match, triple_merge, triple_entry, entry_ok}
use spn.Triple.Entry.{entry_by_search, triple_entry_lem}
use spn.Triple.Merge.{triple_match-merge}
use spn.Triple.Parse.{triple_parse, triple_to_str}
use spn.Triple.RoundTrip.{IsWritten, triple_parse_iff}

abbrev linux_gnu : Triple
linux_gnu = record { arch = arch_x64; os = os_linux; abi = abi_gnu }

abbrev any_wasi : Triple
any_wasi = record { arch = arch_wasm32; os = os_wasi; abi = abi_none }

abbrev any_gnu : Triple
any_gnu = record { arch = arch_none; os = os_none; abi = abi_gnu }

wasi_completed :
    triple_entry any_wasi ≡ entry_ok (record { arch = arch_wasm32; os = os_wasi; abi = abi_musl })
unfolding triple_entry
wasi_completed = refl

triple_parse_iff_example :
    (triple_parse "x86_64-linux-gnu" ≡ some linux_gnu)
    ↔ (IsWritten linux_gnu × (triple_to_str linux_gnu ≡ "x86_64-linux-gnu"))
triple_parse_iff_example = triple_parse_iff "x86_64-linux-gnu" linux_gnu

triple_entry_lem_example : triple_entry any_wasi ≡ entry_by_search any_wasi
triple_entry_lem_example = triple_entry_lem any_wasi

triple_match-merge_example :
    (triple_match any_gnu linux_gnu ≡ true) ↔ (triple_merge linux_gnu any_gnu ≡ linux_gnu)
triple_match-merge_example = triple_match-merge any_gnu linux_gnu
