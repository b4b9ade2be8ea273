-- ===== src/Files/Cache.antt =====
-- functions.c: the compiled code of a namespace in its three cache files.
pub mod Paths
use planck.Memory.{memcpy, c_string}
use planck.Prelude.{
  ℕ, ◌+◌, ◌-◌, Bool, true, false, Option, none, some, List, [], ◌∷◌, ◌++◌, Bytes, codes, ltb,
  if◌then◌else◌, length, replicate,
}

-- `max_suffix_len`.
abbrev pub max_suffix_len : ℕ
max_suffix_len = 20

-- The block for a path; every byte is 0.
abbrev pub path_block : Bytes → Bytes
path_block cache_prefix = replicate (length cache_prefix + max_suffix_len) 0

-- `strcpy(path, cache_prefix); strcat(path, suffix)`, each with its zero; `none` is a write behind
-- the block.
abbrev then_cat : Bytes → Bytes → Option Bytes → Option Bytes
then_cat cache_prefix suffix none = none
then_cat cache_prefix suffix (some path) = memcpy path (length (c_string path)) (suffix ++ 0 ∷ [])

unfoldable pub path_with : Bytes → Bytes → Bytes → Option Bytes
unfolding memcpy c_string
path_with cache_prefix suffix path =
    then_cat cache_prefix suffix (memcpy path 0 (cache_prefix ++ 0 ∷ []))

-- What happens: a file is written with a text, or `write_contents` is called with a null pointer,
-- whose length it takes; or a path does not fit into its block.
pub data Event : Type 0 where
  writes : Bytes → Bytes → Event
  null_contents overrun : Event

abbrev write_to : Bytes → Option Bytes → Event
write_to path none = null_contents
write_to path (some text) = writes (c_string path) text

abbrev pub third : Option Bytes → Option Bytes → List Event
third sourcemap none = overrun ∷ []
third none (some path) = []
third (some text) (some path) = writes (c_string path) text ∷ []

abbrev second : Bytes → Option Bytes → Option Bytes → Option Bytes → List Event
second cache_prefix cache sourcemap none = overrun ∷ []
second cache_prefix cache sourcemap (some path) =
    write_to path cache ∷ third sourcemap (path_with cache_prefix (codes ".js.map.json") path)

abbrev first : Bytes → Bytes → Option Bytes → Option Bytes → Option Bytes → List Event
first cache_prefix source cache sourcemap none = overrun ∷ []
first cache_prefix source cache sourcemap (some path) =
    write_to path (some source)
    ∷ second cache_prefix cache sourcemap (path_with cache_prefix (codes ".cache.json") path)

-- The texts are those of the arguments, `none` for null. (What follows an event that the program
-- does not survive is listed too.)
unfoldable pub function_cache : Bytes → Bytes → Option Bytes → Option Bytes → List Event
unfolding path_with
function_cache cache_prefix source cache sourcemap =
    first cache_prefix source cache sourcemap
      (path_with cache_prefix (codes ".js") (path_block cache_prefix))
