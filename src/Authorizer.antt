-- ===== src/Authorizer.antt =====
-- internal/virtual/filteredapiexport/authorizer and `newAuthorizer` of builder/build.go: the three
-- authorizers of the virtual workspace and the chain that they form.
pub mod Bound
pub mod Chain
pub mod MaximalPermission
pub mod Content
mod Tests
