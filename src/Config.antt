-- ===== src/Config.antt =====
-- planck-c/globals.h: the configuration that main.c fills in and the other parts read.
use planck.Prelude.{Bool, Option, List, Bytes}
use planck.Prelude.Int.{ℤ}

-- The strings "src" and "jar".
pub data PathType : Type 0 where
  src jar : PathType

-- `archive` tells whether the pointer is set.
pub record SrcPath : Type 0 where
  pub type : PathType
  pub path : Bytes
  pub archive : Bool
  pub blacklisted : Bool

-- The strings "text" and "path".
pub data ScriptType : Type 0 where
  text path : ScriptType

pub record Script : Type 0 where
  pub type : ScriptType
  pub expression : Bool
  pub source : Bytes

-- A count and an array are a list. `is_tty` and `clojurescript_version`, which only inform, are
-- left out.
pub record Config : Type 0 where
  pub verbose : Bool
  pub quiet : Bool
  pub repl : Bool
  pub javascript : Bool
  pub checked_arrays : Option Bytes
  pub static_fns : Bool
  pub fn_invoke_direct : Bool
  pub elide_asserts : Bool
  pub optimizations : Bytes
  pub theme : Option Bytes
  pub dumb_terminal : Bool
  pub main_ns_name : Option Bytes
  pub rest_args : List Bytes
  pub out_path : Option Bytes
  pub cache_path : Option Bytes
  pub src_paths : List SrcPath
  pub scripts : List Script
  pub socket_repl_host : Option Bytes
  pub socket_repl_port : ℤ
  pub compile_opts : List Bytes
