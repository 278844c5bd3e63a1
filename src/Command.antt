-- ===== src/Command.antt =====
-- cmd/filtered-apiexport-vw: the validation of the options, and the order in which the command starts the
-- parts of the program.
pub mod Options
pub mod Valid
pub mod Startup
pub mod Order
pub mod Failures
mod Tests
