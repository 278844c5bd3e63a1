-- ===== src/ApiReconciler.antt =====
-- internal/virtual/filteredapiexport/controllers/apireconciler: the API definitions of each domain key.
pub mod Schemas
pub mod Claims
pub mod Shadowing
pub mod Definitions
pub mod Lives
pub mod TearDown
pub mod Rounds
pub mod Reconcile
pub mod Serves
pub mod Expected
pub mod Handles
pub mod Invariants
pub mod Real
pub mod Sound
pub mod Samples
pub mod RoundSample
mod Tests
mod WorkerTests
mod ServesTests
mod SelectorsTests
mod FiltersTests
mod SettledTests
pub mod Enqueue
pub mod Events
mod EventsTests
pub mod Queued
pub mod SchemaEvents
pub mod Worker
pub mod Unique
pub mod Reachable
pub mod Leaks
pub mod Selectors
pub mod Filters
pub mod System
pub mod Due
pub mod Kept
pub mod Settled
