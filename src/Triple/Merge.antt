-- ===== src/Triple/Merge.antt =====
-- Partial triples of source/core/triple/triple.c as patterns: how `spn_triple_match` and
-- `spn_triple_merge` belong together.
use spn.Base.{Bool, true, false, not, ◌&&◌, ◌≡◌, ◌↔◌, refl, ap, arith, if◌then◌else◌}
use spn.Enum.Platform.{arch_none, os_none, abi_none}
use spn.Triple.{Triple, arch_eq, os_eq, abi_eq, triple_match, triple_merge}
use spn.Triple.Listed.{arch_eq_iff, os_eq_iff, abi_eq_iff}

-- One part: `absent` says that the pattern does not name it, `same` that it is the target's. It does
-- not rule the target out exactly if laying it over the target's part changes nothing.
part_law :
    {A : Type 0} (gap x y : A) (absent same : Bool)
    → (absent ≡ true) ↔ (x ≡ gap)
    → (same ≡ true) ↔ (x ≡ y)
    → ((not absent && not same) ≡ false) ↔ ((if absent then y else x) ≡ y)
part_law gap x y true same absent_iff same_iff = (λ h. refl, λ h. refl)
part_law gap x y false true absent_iff same_iff = (λ h. same_iff.0 refl, λ h. refl)
part_law gap x y false false absent_iff same_iff = (λ h. cc, λ h. cc (same_iff.1 h))

all_pass :
    (a b c : Bool)
    → ((if a then false else if b then false else if c then false else true) ≡ true)
      ↔ ((a ≡ false) × (b ≡ false) × (c ≡ false))
all_pass a b c = ground arith

-- A target fits a pattern exactly if laying the pattern over the target changes nothing.
pub triple_match-merge :
    (partial base : Triple)
    → (triple_match partial base ≡ true) ↔ (triple_merge base partial ≡ base)
unfolding triple_match triple_merge
triple_match-merge partial base =
    let pass =
      all_pass (not (arch_eq partial.arch arch_none) && not (arch_eq partial.arch base.arch))
        (not (os_eq partial.os os_none) && not (os_eq partial.os base.os))
        (not (abi_eq partial.abi abi_none) && not (abi_eq partial.abi base.abi)) in
    let arch =
      part_law arch_none partial.arch base.arch _ _ (arch_eq_iff partial.arch arch_none)
        (arch_eq_iff partial.arch base.arch) in
    let os =
      part_law os_none partial.os base.os _ _ (os_eq_iff partial.os os_none)
        (os_eq_iff partial.os base.os) in
    let abi =
      part_law abi_none partial.abi base.abi _ _ (abi_eq_iff partial.abi abi_none)
        (abi_eq_iff partial.abi base.abi) in
    (
      λ h.
          let (a, b, c) = pass.0 h in
          λ i. record { arch = arch.0 a i; os = os.0 b i; abi = abi.0 c i },
      λ h. pass.1 (
        arch.1 (ap (λ (t : Triple). t.arch) h),
        os.1 (ap (λ (t : Triple). t.os) h),
        abi.1 (ap (λ (t : Triple). t.abi) h),
      ),
    )
