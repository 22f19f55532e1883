-- ===== src/Lib.antt =====
-- spn: a package manager and build tool for C. This library models the parts of it that decide
-- which packages, versions, options and build steps are used, and proves what makes them correct.
--
-- The parts, and the files that model them:
-- - Base: the shared names, tests on numbers, lists, and tables keyed by texts.
-- - Semver: source/core/semver. Semver.Compare is compare.c, Semver.Convert and Semver.Print are
--   convert.c, Semver.Parser is parser.c. A `spn_semver_` function keeps its name without the
--   prefix, with `semver_` where it would be too short. The parser's text and cursor are the text
--   from the cursor on. Additions of u32 wrap as they do in the code.
-- - Enum: source/core/enum/enum.c. One data type for each enumeration, with its reader and writer.
-- - When: source/core/when. Gates, option values and defaults; the environment of a gate is an
--   association list. It reads the names of Enum.
-- - Resolve: source/core/resolve/resolve.c, the search within one scope and what becomes of the
--   scopes. Resolve.Types is the state, Resolve.Solver and Resolve.Search are the functions from
--   `find_pin` to `solve_reqs`, Resolve.Scope is `attempt_reqs` and `resolve_scope`,
--   Resolve.Boundaries is `process_boundaries` with `find_or_create_scope`, Resolve.Processes is
--   `compute_processes`. `Run` holds what the search changes: the nodes of the scope, the
--   boundaries put aside, the names in progress, the registry, the pick counter, the budget and the
--   fatal flag. `Resolver` holds what it reads: the forced pin, the pins of the scope, and what the
--   index, the manifests on disk and the option environments answer. It uses ranges of Semver and
--   gates of When.
-- - Filter: source/core/filter/filter.c, the targets that a build asks for.
-- - Rsp: source/core/compiler/rsp.c, the response files that hold arguments. Rsp.Readers says how
--   compilers split such a file; the compilers are not part of the repository.
-- - Triple: source/core/triple/triple.c, the machine, system and ABI of a build. Triple.Parse is
--   its reading and writing.
-- - Paths: source/core/paths/paths.c, paths under named roots, as far as they are texts.
-- - Dag: source/core/dag/dag.c, the build graph. Dag has the operations that build it, Dag.Links
--   the invariant of its links, Dag.Build the sequences of calls, Dag.Key the bytes of the cache
--   keys.
-- - Intern: source/core/intern/intern.c, the table that gives a text its id. Intern has the
--   operations, Intern.Probe and Intern.Filled the slots, Intern.Grow the growth of the table,
--   Intern.Valid the invariant and the list of texts that a table stands for.
--
-- Conventions. A hash table of the sp library is an association list in the order of insertion; its
-- iteration order is used only where the code builds a set from it. Names are compared as intern
-- ids. Allocation, scratch memory and the payloads of errors are left out. A function that can fail
-- returns the new state and the error, if there is one. Texts that the semver parser reads are
-- lists of bytes; texts that are only compared are strings.
--
-- Fuel: `resolve_dep` runs on fuel, which stands for the depth of the recursion; `out_of_fuel` is
-- an error of its own. Each level of the recursion either takes one from the budget, which the
-- search of a scope starts with the resolver's limit, or puts one more local package in progress;
-- so fuel above the budget and the number of local packages together is enough. The probes of the
-- intern table run on fuel, its capacity, which is enough as long as a slot is empty; at most three
-- in four are taken. The rounds of `compute_processes` run on fuel; each but the last adds a
-- process to a scope, so the square of the number of scopes is enough.
--
-- Parameters: the formatter of u32 (`sp_fmt`), the sort of requests (`sp_da_sort`), the last name
-- of a path (`sp_fs_get_name`), blake3, the hash of a text, and what the index, the manifest loader
-- and the options answer. The sp library and the wasm engine are submodules that are not in the
-- repository.
--
-- Not modelled: the other phases of the resolver, the scope's cursor, the validation and the run of
-- the build graph, compiler drivers, toolchains, the index, the session, manifests, the command
-- line, and everything that is input and output.
pub mod Base
pub mod Semver
pub mod Enum
pub mod When
pub mod Resolve
pub mod Rsp
pub mod Filter
pub mod Triple
pub mod Paths
pub mod Dag
pub mod Intern
