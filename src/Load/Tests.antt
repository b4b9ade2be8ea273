-- ===== src/Load/Tests.antt =====
-- Runs of `function_load`, `function_load_all_files` and `function_load_from_jar`.
use planck.Archive.{Zip, open_archive, get_contents_zip}
use planck.Config.{src, jar, SrcPath}
use planck.Load.{
  Places, Loaded, found_in, result, look_in, look_along, developing, start_search, function_load,
  function_load_all_files, collect,
}
use planck.Load.Place.{loaded_from, map_some}
use planck.Load.First.{first, on_path, brief, in_out, last_resort, function_load-first}
use planck.Load.Again.{function_load-twice}
use planck.Load.Jar.{
  text, entry_in, function_load_from_jar, LoadedFrom, function_load_from_jar-LoadedFrom,
  AllContribute, function_load_all_files-AllContribute,
}
use planck.Memory.{c_string}
use planck.Text.{str_has_suffix}
use planck.Prelude.{
  ◌≡◌, refl, true, false, Option, none, some, List, [], ◌∷◌, Bytes, codes, str_eq, if◌then◌else◌,
}

abbrev a_jar : Zip
a_jar = record {
  opens = true;
  stat = λ name. if str_eq name (codes "b.cljs") then some (3, 70) else none;
  fopen = λ name. true;
  malloc = λ n. true;
  fread = λ name n. some (codes "(b)");
  strerror = codes "No error";
}

-- A directory s/ with a.cljs, out/ with c.cljs, a JAR j.jar with b.cljs, and no other JAR.
abbrev here : Places
here = record {
  bundle = λ path. if str_eq path (codes "cljs/core.cljs") then some (codes "(core)") else none;
  file = λ path.
      if str_eq path (codes "/s/a.cljs")
      then some (codes "(a)", 50)
      else if str_eq path (codes "out/c.cljs")
      then some (codes "(c)", 60)
      else none;
  stat = λ path. str_eq path (codes "/j.jar");
  zip = λ path. a_jar;
}

abbrev dir_s : SrcPath
dir_s = record { type = src; path = codes "/s/"; archive = false; blacklisted = false }

abbrev jar_at : Bytes → SrcPath
jar_at path = record { type = jar; path = path; archive = false; blacklisted = false }

abbrev a_class_path : List SrcPath
a_class_path = jar_at (codes "/gone.jar") ∷ dir_s ∷ jar_at (codes "/j.jar") ∷ []

abbrev out : Option Bytes
out = some (codes "out/")

abbrev b_found : Loaded
b_found =
    loaded_from (codes "b.cljs") (some (found_in jar)) (some (codes "/j.jar")) (codes "(b)", 70)

b_offered : on_path here a_class_path (codes "b.cljs") ≡ some b_found
unfolding get_contents_zip developing open_archive str_has_suffix str_eq
b_offered = refl

-- A resource that only the output directory has is reported with the type and the location of the
-- last JAR that was looked at.
stale_location :
    result (function_load here out a_class_path (codes "c.cljs")).1
    ≡ some (
        loaded_from
          (codes "c.cljs")
          (some (found_in jar))
          (some (codes "/j.jar"))
          (codes "(c)", 60))
unfolding function_load look_along look_in result open_archive get_contents_zip start_search
    str_has_suffix str_eq developing
stale_location = refl

function_load-first_example :
    map_some brief (result (function_load here out a_class_path (codes "c.cljs")).1)
    ≡ first (
        map_some brief (on_path here a_class_path (codes "c.cljs"))
        ∷ in_out here out (codes "c.cljs")
        ∷ last_resort here (developing a_class_path) (codes "c.cljs")
        ∷ [])
function_load-first_example = function_load-first here out a_class_path (codes "c.cljs")

function_load-twice_example :
    let once = function_load here out a_class_path (codes "b.cljs") in
    let again = function_load here out once.0 (codes "b.cljs") in
    (again.0 ≡ once.0) × (result again.1 ≡ result once.1)
function_load-twice_example = function_load-twice here out a_class_path (codes "b.cljs")

function_load_all_files-AllContribute_example :
    AllContribute here (codes "a.cljs") a_class_path ((codes "file:///s/a.cljs", codes "(a)") ∷ [])
unfolding function_load_all_files collect open_archive get_contents_zip str_eq c_string
function_load_all_files-AllContribute_example =
    function_load_all_files-AllContribute here a_class_path (codes "a.cljs")

all_files_runs :
    (function_load_all_files here a_class_path (codes "a.cljs")).1
    ≡ (codes "file:///s/a.cljs", codes "(a)") ∷ []
unfolding function_load_all_files collect open_archive get_contents_zip str_eq c_string
all_files_runs = refl

function_load_from_jar-LoadedFrom_example :
    LoadedFrom true
      (entry_in a_jar (codes "b.cljs"))
      (function_load_from_jar a_jar (codes "/j.jar") (codes "b.cljs") true)
function_load_from_jar-LoadedFrom_example =
    function_load_from_jar-LoadedFrom a_jar (codes "/j.jar") (codes "b.cljs") true

from_jar_runs :
    function_load_from_jar a_jar (codes "/j.jar") (codes "b.cljs") true
    ≡ (some (text (codes "(b)")), none)
unfolding function_load_from_jar open_archive get_contents_zip str_eq c_string
from_jar_runs = refl
