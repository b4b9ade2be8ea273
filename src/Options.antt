-- ===== src/Options.antt =====
-- planck-c/main.c: the command line. What `getopt_long` returns, and where it leaves `optind`, is
-- the argument: glibc is not modelled.
pub mod Parse
pub mod Script
pub mod ScriptIndex
pub mod Setup
pub mod Loop
pub mod Exclusive
pub mod Order
pub mod Scripts
mod Tests
