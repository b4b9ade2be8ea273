-- ===== src/Lib.antt =====
-- Planck, a stand-alone ClojureScript REPL: its C program, planck-c/.
--
-- `main` (main.c) reads the command line into a configuration (globals.h), starts the JavaScript
-- engine (engine.c), runs the init scripts and then a namespace's -main, a script or the REPL
-- (repl.c). The REPL reads lines from the terminal (linenoise.c) or from sockets (sockets.c), cuts
-- them into forms and has the engine evaluate them. The functions that ClojureScript calls are in
-- functions.c, shell.c and http.c; they rest on io.c, file.c and archive.c.
--
-- Text is a list of byte values without the terminating zero; a block of memory is a list of fixed
-- length in which a write beyond the end is caught. Where the source asks the environment (system
-- calls, libcurl, JavaScriptCore, linenoise, the EDN reader) the answers are arguments.
--   Memory: blocks of memory, `memcpy`, `realloc`, a block as a C string.
--   Text: planck-c/str.c and `strtok`.
--   Theme: planck-c/theme.c.
--   Keymap: planck-c/keymap.c.
--   Config: the structures of planck-c/globals.h.
--   Classpath: the class path and the dependencies, in planck-c/main.c.
--   Archive: planck-c/archive.c.
--   Load: the loading of resources, in planck-c/functions.c.
--   Options: the command line and the run of `main`, in planck-c/main.c.
--   Io: planck-c/io.c.
--   Repl: planck-c/repl.c; the hop to a matching bracket is in Repl.Highlight.
--   Tasks: planck-c/tasks.c, as steps of interleaved threads.
--   Timers: planck-c/timers.c, and the timers of planck-c/functions.c; Timers.Callbacks is the
--     JavaScript in planck-c/engine.c that keeps their callbacks.
--   Sockets: planck-c/sockets.c.
--   Shell: planck-c/shell.c; Shell.Search is its search for a program.
--   Imports: the script imports of planck-c/functions.c.
--   Munge: `munge` of planck-c/engine.c.
--   Http: the callbacks of planck-c/http.c; Http.Request is the request and its result.
--   Javascript: the values of planck-c/jsc_utils.c.
--   Files: planck-c/file.c and, in its modules, the functions of planck-c/functions.c for streams,
--     readers and writers, directories, temporary files, cache files and the description of files.
--   Engine: planck-c/engine.c: `get_value`, `bootstrap`, the readiness of the engine, and where
--     prints go, which is also in planck-c/functions.c.
--   System: the environment, the standard streams, the sleep and the sockets of ClojureScript, in
--     planck-c/functions.c.
-- Loops over what the environment delivers recur on that list. `eval_loop` (repl.c) has one round
-- of fuel for each byte of the input and one more, `write_loop` and `write_block` (io.c) take their
-- fuel as an argument; the theorems say how much is enough. Threads are modelled where their order
-- matters: the tasks and the engine's readiness as steps under one mutex, the timers of the
-- highlighting as events between keys.
--
-- Not modelled: linenoise.c and edn.c, copies of other projects' libraries; calls that only pass
-- values on to JavaScriptCore, ICU or libcurl; the evaluation of source text; the reading of a
-- password; printed help and legal texts; the build's bundle of files. Reads and writes of stdio
-- that fail are left out, and other programs change files only under the readers; a form of the
-- REPL may end the process, but the init scripts and the main part that `main` runs do not. A
-- length of 2^31 in `read_all` or `write_string_callback`, which overflows, is a fault of the
-- model. Whether a block is freed twice is not modelled, nor, but for archive.c and the output
-- streams, are failures of `malloc`.
pub mod Prelude
pub mod Memory
pub mod Text
pub mod Theme
pub mod Keymap
pub mod Imports
pub mod Munge
pub mod Engine
pub mod System
pub mod Http
pub mod Config
pub mod Archive
pub mod Classpath
pub mod Load
pub mod Files
pub mod Javascript
pub mod Options
pub mod Tasks
pub mod Timers
pub mod Sockets
pub mod Io
pub mod Repl
pub mod Shell
