-- ===== src/EndpointSlice.antt =====
-- internal/reconciler/endpointslice: the controller that keeps the condition `APIExportValid` of the
-- endpoint slices.
pub mod Reconcile
pub mod Worker
pub mod Handled
pub mod Enqueue
pub mod Events
pub mod Queued
mod Tests
mod QueueTests
