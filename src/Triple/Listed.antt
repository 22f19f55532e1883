-- ===== src/Triple/Listed.antt =====
-- The comparisons of source/core/triple/triple.c are equality, and a check of every triple.
use spn.Base.{Bool, true, ◌&&◌, ◌≡◌, ◌↔◌, arith, List, [], ◌∷◌, In}
use spn.Enum.Platform.{
  Arch, arch_none, arch_x64, arch_arm64, arch_wasm32, Os, os_none, os_windows, os_linux, os_macos,
  os_wasi, os_freestanding, Abi, abi_none, abi_gnu, abi_musl, abi_msvc, abi_apple, abi_bare,
  abi_elf,
}
use spn.Triple.{Triple, arch_eq, os_eq, abi_eq, triple_equal, triple_in}

pub arch_eq_iff : (a b : Arch) → (arch_eq a b ≡ true) ↔ (a ≡ b)
unfolding arch_eq
arch_eq_iff a b = ground arith

pub os_eq_iff : (a b : Os) → (os_eq a b ≡ true) ↔ (a ≡ b)
unfolding os_eq
os_eq_iff a b = ground arith

pub abi_eq_iff : (a b : Abi) → (abi_eq a b ≡ true) ↔ (a ≡ b)
unfolding abi_eq
abi_eq_iff a b = ground arith

pub triple_equal_iff : (a b : Triple) → (triple_equal a b ≡ true) ↔ (a ≡ b)
unfolding triple_equal
triple_equal_iff a b =
    ground (arith, arch_eq_iff a.arch b.arch, os_eq_iff a.os b.os, abi_eq_iff a.abi b.abi)

pub triple_in_iff :
    (triples : List Triple) (t : Triple) → (triple_in triples t ≡ true) ↔ In t triples
unfolding triple_in
triple_in_iff [] t = (λ h. cc, λ h. elim h [ ])
triple_in_iff (u ∷ triples) t = ground (arith, triple_equal_iff u t, triple_in_iff triples t)

-- What holds of every triple can be checked on all of them.
abbrev pub all_archs : (Arch → Bool) → Bool
all_archs p = p arch_none && (p arch_x64 && (p arch_arm64 && p arch_wasm32))

abbrev pub all_oses : (Os → Bool) → Bool
all_oses p =
    p os_none && (p os_windows && (p os_linux && (p os_macos && (p os_wasi && p os_freestanding))))

abbrev pub all_abis : (Abi → Bool) → Bool
all_abis p =
    p abi_none
    && (p abi_gnu && (p abi_musl && (p abi_msvc && (p abi_apple && (p abi_bare && p abi_elf)))))

pub all_archs_sound : (p : Arch → Bool) (a : Arch) → all_archs p ≡ true → p a ≡ true
all_archs_sound p arch_none h = ground arith
all_archs_sound p arch_x64 h = ground arith
all_archs_sound p arch_arm64 h = ground arith
all_archs_sound p arch_wasm32 h = ground arith

pub all_oses_sound : (p : Os → Bool) (o : Os) → all_oses p ≡ true → p o ≡ true
all_oses_sound p os_none h = ground arith
all_oses_sound p os_windows h = ground arith
all_oses_sound p os_linux h = ground arith
all_oses_sound p os_macos h = ground arith
all_oses_sound p os_wasi h = ground arith
all_oses_sound p os_freestanding h = ground arith

pub all_abis_sound : (p : Abi → Bool) (b : Abi) → all_abis p ≡ true → p b ≡ true
all_abis_sound p abi_none h = ground arith
all_abis_sound p abi_gnu h = ground arith
all_abis_sound p abi_musl h = ground arith
all_abis_sound p abi_msvc h = ground arith
all_abis_sound p abi_apple h = ground arith
all_abis_sound p abi_bare h = ground arith
all_abis_sound p abi_elf h = ground arith

abbrev pub all_triples : (Triple → Bool) → Bool
all_triples p = all_archs λ a. all_oses λ o. all_abis λ b. p (record { arch = a; os = o; abi = b })

pub all_triples_sound : (p : Triple → Bool) (t : Triple) → all_triples p ≡ true → p t ≡ true
all_triples_sound p t h =
    all_abis_sound (λ b. p (record { arch = t.arch; os = t.os; abi = b })) t.abi
      (all_oses_sound (λ o. all_abis λ b. p (record { arch = t.arch; os = o; abi = b })) t.os
        (all_archs_sound (λ a. all_oses λ o. all_abis λ b. p (record { arch = a; os = o; abi = b }))
          t.arch h))
