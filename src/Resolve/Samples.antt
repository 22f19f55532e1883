-- ===== src/Resolve/Samples.antt =====
-- A small index, a resolver over it and requests, for the tests of the search and of the scopes.
use spn.Base.{true, arith, ℕ, true, false, List, [], ◌∷◌, none, ◌==◌, if◌then◌else◌}
use spn.Semver.{Semver}
use spn.Semver.Convert.{semver_lit, caret_to_range}
use spn.Semver.Parser.{parsed_of}
use spn.Semver.{SemverRange}
use spn.Enum.Package.{source_index, dep_package, index_dep_normal}
use spn.Resolve.Types.{
  Request, IndexDep, Release, Node, Run, Resolver, IndexAnswer, index_missing, index_found,
}
use spn.Resolve.Table.{find}
use spn.Resolve.Frame.{RegistryOk}
use spn.Resolve.Steps.{IndexOk}
use spn.Resolve.Depth.{LoaderIn, RegistryIn}

-- ^1.0.0 and ^2.0.0
abbrev pub caret_of : ℕ → SemverRange
caret_of major = caret_to_range (parsed_of major 0 0 true true true)

abbrev pub index_dep : ℕ → ℕ → IndexDep
index_dep id major = record {
  kind = index_dep_normal;
  private = false;
  id = id;
  range = caret_of major;
  gate = [];
  options = [];
}

abbrev pub release : ℕ → Semver → List IndexDep → Release
release id version deps = record { id = id; version = version; yanked = false; deps = deps }

-- The newer release of 1 needs 2, and another 2 than its own request allows; the older one does not.
abbrev pub newer : Release
newer = release 1 (semver_lit 1 5 0) (index_dep 2 1 ∷ index_dep 2 2 ∷ [])

abbrev pub older : Release
older = release 1 (semver_lit 1 4 0) (index_dep 2 2 ∷ [])

abbrev pub two : Release
two = release 2 (semver_lit 2 0 0) []

abbrev pub two_old : Release
two_old = release 2 (semver_lit 1 0 0) []

abbrev pub get_package : ℕ → IndexAnswer
get_package name =
    if name == 1
    then index_found (older ∷ newer ∷ [])
    else if name == 2
    then index_found (two_old ∷ two ∷ [])
    else index_missing

abbrev pub resolver : Resolver
resolver = record {
  pins = [];
  forced = none;
  get_package = get_package;
  load_pkg = λ _. none;
  options_env = λ _. [];
  is_shared = λ _. false;
  sort_requests = λ requests. requests;
}

abbrev pub start : Run
start = record {
  named = [];
  boundaries = [];
  visited = [];
  registry = [];
  picks = 0;
  budget = 20;
  fatal = false;
}

abbrev pub request : ℕ → ℕ → Request
request id major = record {
  qualified = id;
  source = source_index;
  kind = dep_package;
  private = false;
  gate = [];
  options = [];
  range = caret_of major;
  path = "";
}

abbrev pub picked : ℕ × Node → ℕ × Semver
picked (k, node) = (k, node.version)

pub index_ok : IndexOk resolver
index_ok name releases h = ground arith

pub start_ok : RegistryOk start
unfolding find
start_ok k pkg h = cc

pub loader_in : LoaderIn [] resolver
loader_in q pkg e same = cc

pub start_in : RegistryIn [] start
unfolding find
start_in k pkg h = cc
