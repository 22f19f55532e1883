-- ===== src/Triple/Entry.antt =====
-- `spn_triple_entry` of source/core/triple/triple.c against the list of the triples that exist.
use spn.Base.{Bool, true, false, ◌≡◌, refl, arith, List, [], ◌∷◌, if◌then◌else◌}
use spn.Enum.Platform.{arch_none, os_none, abi_none}
use spn.Triple.{
  Triple, TripleEntry, entry_ok, missing_arch, missing_os, missing_abi, foreign_arch, foreign_abi,
  arch_eq, os_eq, triple_equal, triple_match, triple_entry, arch_triples,
}
use spn.Triple.Listed.{all_triples, all_triples_sound, triple_equal_iff}

-- The triples of a list that fit a partial one.
unfoldable pub candidates : Triple → List Triple → List Triple
candidates partial [] = []
candidates partial (t ∷ triples) =
    if triple_match partial t then t ∷ candidates partial triples else candidates partial triples

-- The answer that the list of all triples of the machine gives: the one that fits. The ABI is
-- missing where more than one does. Where none does, the machine or the ABI is foreign to the system.
abbrev pub choose : List Triple → List Triple → TripleEntry
choose (full ∷ []) same_os = entry_ok full
choose (full ∷ _ ∷ _) same_os = missing_abi
choose [] [] = foreign_arch
choose [] (_ ∷ _) = foreign_abi

unfoldable pub entry_by_search : Triple → TripleEntry
unfolding arch_eq os_eq candidates
entry_by_search partial =
    if arch_eq partial.arch arch_none
    then missing_arch
    else if os_eq partial.os os_none
    then missing_os
    else choose (candidates partial (arch_triples partial.arch))
        (candidates (record partial { abi = abi_none }) (arch_triples partial.arch))

same_entry : TripleEntry → TripleEntry → Bool
same_entry (entry_ok a) (entry_ok b) = triple_equal a b
same_entry missing_arch missing_arch = true
same_entry missing_os missing_os = true
same_entry missing_abi missing_abi = true
same_entry foreign_arch foreign_arch = true
same_entry foreign_abi foreign_abi = true
same_entry _ _ = false

same_entry_sound : (a b : TripleEntry) → same_entry a b ≡ true → a ≡ b
unfolding same_entry
same_entry_sound (entry_ok a) (entry_ok b) h = ground (arith, triple_equal_iff a b)
same_entry_sound a b h = ground arith

every_entry :
    all_triples (λ partial. same_entry (triple_entry partial) (entry_by_search partial)) ≡ true
unfolding same_entry triple_entry entry_by_search arch_triples triple_match triple_equal
every_entry = refl

-- For every partial triple, the guards and tables of `spn_triple_entry` give the answer of a search
-- through all triples of its machine.
pub triple_entry_lem : (partial : Triple) → triple_entry partial ≡ entry_by_search partial
triple_entry_lem partial = same_entry_sound (triple_entry partial) (entry_by_search partial) (
    all_triples_sound (λ partial. same_entry (triple_entry partial) (entry_by_search partial))
      partial every_entry)
