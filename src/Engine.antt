-- ===== src/Engine.antt =====
-- planck-c/engine.c: finding ClojureScript's functions in JavaScript, the loading of the base
-- scripts, where the engine prints, and its readiness. JavaScriptCore is an argument.
pub mod Value
pub mod Startup
pub mod Printing
pub mod Ready
mod Tests
