-- ===== src/Load.antt =====
-- planck-c/functions.c: `function_load` and `function_load_all_files`, which look for a resource in
-- the bundle, along the class path and in the output directory, each once its arguments are
-- checked. Both keep what they learn of a JAR in the class path: that it is open, or gone.
pub mod Place
pub mod First
pub mod Again
pub mod Jar
mod Tests
use planck.Archive.{Zip, Zipped, open_archive, get_contents_zip}
use planck.Config.{PathType, src, jar, SrcPath}
use planck.Memory.{c_string}
use planck.Text.{str_has_suffix, str_concat}
use planck.Prelude.{
  ℕ, ◌+◌, Bool, true, false, not, ◌&&◌, ◌||◌, Option, none, some, List, [], ◌∷◌, ◌++◌, Bytes, codes,
  ◌==◌, if◌then◌else◌, length, take,
}

-- What the surroundings answer during a call: `bundle_get_contents`, which the build generates,
-- `get_contents` with the time of the last change, whether `stat` finds a file, and the archive
-- that libzip finds under a path.
pub record Places : Type 0 where
  pub bundle : Bytes → Option Bytes
  pub file : Bytes → Option (Bytes × ℕ)
  pub stat : Bytes → Bool
  pub zip : Bytes → Zip

-- The strings "bundled", "src" and "jar".
pub data Origin : Type 0 where
  bundled : Origin
  found_in : PathType → Origin

-- The local variables of `function_load`; `printed` is what it prints, of `engine_perror` only the
-- argument.
pub record Search : Type 0 where
  pub contents : Option Bytes
  pub last_modified : ℕ
  pub loaded_path : Bytes
  pub loaded_type : Option Origin
  pub loaded_location : Option Bytes
  pub printed : List Bytes

abbrev pub says : Option Bytes → List Bytes
says none = []
says (some message) = message ∷ codes "\n" ∷ []

abbrev pub or_else {ℓ} : {A : Type ℓ} → A → Option A → A
or_else a none = a
or_else a (some b) = b

abbrev pub present {ℓ} : {A : Type ℓ} → Option A → Bool
present none = false
present (some a) = true

-- `loaded_type` and `loaded_location` are `none` for a null pointer.
pub record Loaded : Type 0 where
  pub contents_str : Bytes
  pub last_modified : ℕ
  pub loaded_path : Bytes
  pub loaded_type : Option Origin
  pub loaded_location : Option Bytes

abbrev result_of : Option Bytes → Search → Option Loaded
result_of none v = none
result_of (some contents) v = some (record {
  contents_str = c_string contents;
  last_modified = v.last_modified;
  loaded_path = v.loaded_path;
  loaded_type = v.loaded_type;
  loaded_location = v.loaded_location;
})

-- The array of five that is returned, or null.
unfoldable pub result : Search → Option Loaded
result v = result_of v.contents v

abbrev pub in_src : SrcPath → Bytes → Option (Bytes × ℕ) → Search → Search
in_src s full_path none v = v
in_src s full_path (some (c, t)) v = record v {
  contents = some c;
  last_modified = t;
  loaded_path = full_path;
  loaded_type = some (found_in src);
  loaded_location = some s.path;
}

abbrev in_front : SrcPath → List SrcPath × Search → List SrcPath × Search
in_front s (ss, v) = (s ∷ ss, v)

abbrev only_source : List SrcPath → Bool
only_source (s ∷ []) = elim (s.type) [
  | src ↦ str_has_suffix s.path (codes "/planck-cljs/src/")
  | jar ↦ false
]
only_source _ = false

unfoldable pub developing : List SrcPath → Bool
developing src_paths = only_source src_paths

abbrev from_file : Option (Bytes × ℕ) → Search → Search
from_file none v = v
from_file (some (c, t)) v = record v { contents = some c; last_modified = t }

-- One file of `function_load_all_files`, with its URL, which is cut at 1023 bytes.
abbrev pub url_of : PathType → SrcPath → Bytes → Bytes
url_of src s filename = take 1023 (codes "file://" ++ (s.path ++ filename))
url_of jar s filename = take 1023 (codes "jar:file://" ++ (s.path ++ (codes "!/" ++ filename)))

abbrev pub with_url : Bytes → Option Bytes → List (Bytes × Bytes)
with_url url none = []
with_url url (some source) = (url, c_string source) ∷ []

abbrev pub source_of : Option (Bytes × ℕ) → Option Bytes
source_of none = none
source_of (some (source, t)) = some source

abbrev with_front :
    SrcPath × List (Bytes × Bytes)
    → List SrcPath × List (Bytes × Bytes)
    → List SrcPath × List (Bytes × Bytes)
with_front (s, files) (ss, more) = (s ∷ ss, files ++ more)

module _ (places : Places) where
  open places use {bundle, file, stat, zip}

  -- Whether there is an archive once it was tried to open a JAR that was not open yet, and what is
  -- printed where that fails.
  abbrev pub is_open : SrcPath → Bool
  is_open s = s.archive || (open_archive (zip s.path) s.path).0

  abbrev pub open_message : SrcPath → List Bytes
  open_message s = if s.archive then [] else says (open_archive (zip s.path) s.path).1

  abbrev pub zipped : SrcPath → Bytes → Zipped
  zipped s path = get_contents_zip (zip s.path) path

  -- What is printed where a JAR has no such entry.
  abbrev pub entry_message : SrcPath → Bytes → List Bytes
  entry_message s path =
      if present (zipped s path).payload then [] else says (zipped s path).error_msg

  -- A JAR with what is learned of it.
  abbrev pub examined_jar : SrcPath → SrcPath
  examined_jar s =
      if stat s.path then record s { archive = is_open s } else record s { blacklisted = true }

  abbrev pub from_zip : SrcPath → Bytes → Search → Search
  from_zip s path v =
      if is_open s
      then record v {
        contents = (zipped s path).payload;
        last_modified = or_else v.last_modified (zipped s path).last_modified;
        printed = v.printed ++ entry_message s path;
      }
      else v

  -- The type and the location are set whether or not the JAR has the entry.
  abbrev pub in_jar : SrcPath → Bytes → Search → Search
  in_jar s path v =
      if stat s.path
      then (let v' = from_zip s path (record v { printed = v.printed ++ open_message s }) in
          record v' { loaded_type = some (found_in jar); loaded_location = some s.path })
      else record v { printed = v.printed ++ s.path ∷ [] }

  abbrev pub in_type : PathType → SrcPath → Bytes → Search → SrcPath × Search
  in_type src s path v = (s, in_src s (str_concat s.path path) (file (str_concat s.path path)) v)
  in_type jar s path v = (examined_jar s, in_jar s path v)

  -- The body of the loop.
  unfoldable pub look_in : SrcPath → Bytes → Search → SrcPath × Search
  look_in s path v = if s.blacklisted then (s, v) else in_type s.type s path v

  unfoldable pub look_along : List SrcPath → Bytes → Search → List SrcPath × Search
  look_along [] path v = ([], v)
  look_along (s ∷ ss) path v =
      let (s', v') = look_in s path v in
      let rest = look_along ss path v' in
      if present v'.contents then (s' ∷ ss, v') else in_front s' rest

  unfoldable pub start_search : List SrcPath → Bytes → Search
  start_search src_paths path =
      let v : Search = record {
        contents = none;
        last_modified = 0;
        loaded_path = path;
        loaded_type = none;
        loaded_location = none;
        printed = [];
      } in
      if not (developing src_paths)
      then record v { contents = bundle path; loaded_type = some bundled }
      else v

  abbrev load_along : List SrcPath → Bytes → Search → List SrcPath × Search
  load_along src_paths path v =
      let along = look_along src_paths path v in
      if present v.contents then (src_paths, v) else along

  -- The output directory.
  abbrev load_out : Option Bytes → Bytes → Search → Search
  load_out none path v = v
  load_out (some out_path) path v =
      if present v.contents then v else from_file (file (str_concat out_path path)) v

  abbrev load_bundled : Bool → Bytes → Search → Search
  load_bundled dev path v =
      if dev && not (present v.contents)
      then record v { contents = bundle path; last_modified = 0 }
      else v

  -- The class path afterwards and the variables at the end.
  unfoldable pub function_load : Option Bytes → List SrcPath → Bytes → List SrcPath × Search
  unfolding start_search developing
  function_load out_path src_paths path =
      let (ss, v) = load_along src_paths path (start_search src_paths path) in
      (ss, load_bundled (developing src_paths) path (load_out out_path path v))

  abbrev pub collect_in : PathType → SrcPath → Bytes → SrcPath × List (Bytes × Bytes)
  collect_in src s filename =
      (s, with_url (url_of src s filename) (source_of (file (str_concat s.path filename))))
  collect_in jar s filename = (
    examined_jar s,
    if stat s.path && is_open s
        then with_url (url_of jar s filename) (zipped s filename).payload
        else [],
  )

  unfoldable pub collect : SrcPath → Bytes → SrcPath × List (Bytes × Bytes)
  collect s filename = if s.blacklisted then (s, []) else collect_in s.type s filename

  -- The paths and sources that are found, in order. (What is printed is as for `function_load`.)
  unfoldable pub function_load_all_files :
      List SrcPath → Bytes → List SrcPath × List (Bytes × Bytes)
  function_load_all_files [] filename = ([], [])
  function_load_all_files (s ∷ ss) filename =
      with_front (collect s filename) (function_load_all_files ss filename)
