-- ===== src/System.antt =====
-- Functions of planck-c/functions.c for the environment, the terminal, the clock and sockets.
pub mod Environment
pub mod Sleeping
pub mod Connections
pub mod Terminal
mod Tests
