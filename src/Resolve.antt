-- ===== src/Resolve.antt =====
-- source/core/resolve: the version solver, up to the search of one scope.
pub mod Types
pub mod Table
pub mod Solver
pub mod Search
pub mod Pins
pub mod Frame
pub mod Steps
pub mod Atomic
pub mod Backtrack
pub mod Valid
pub mod Settle
pub mod Picked
pub mod Sound
pub mod Complete
pub mod Depth
pub mod Returns
pub mod Fuel
pub mod SameChoice
pub mod SameSearch
pub mod Enough
pub mod Scope
pub mod Kept
pub mod ScopeFuel
pub mod ScopeEnough
pub mod Boundaries
pub mod Processes
pub mod Spread
pub mod Passes
pub mod Shared
pub mod Filed
pub mod Filing
mod Samples
mod Tests
mod ScopeTests
