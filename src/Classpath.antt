-- ===== src/Classpath.antt =====
-- planck-c/main.c: the class path, from the option or the environment, and from dependencies.
pub mod Paths
pub mod Maven
mod Tests
use planck.Prelude.{
  ℕ, zero, suc, Bool, true, false, not, ◌&&◌, Option, none, some, List, [], ◌∷◌, ◌++◌, Bytes, codes,
  ◌==◌, if◌then◌else◌, map,
}
use planck.Config.{PathType, src, jar, SrcPath}
use planck.Text.{str_has_suffix, str_has_prefix, str_concat, tokens}

unfoldable pub ensure_trailing_slash : Bytes → Bytes
ensure_trailing_slash s = if str_has_suffix s (codes "/") then s else str_concat s (codes "/")

-- `cwd` is `none` where `getcwd` fails.
unfoldable pub fully_qualify : Option Bytes → Bytes → Bytes
fully_qualify none path = path
fully_qualify (some cwd) path =
    if not (str_has_prefix path (codes "/")) then str_concat cwd path else path

-- The argument is the result of `getcwd`.
unfoldable pub get_current_working_dir : Option Bytes → Option Bytes
get_current_working_dir none = none
get_current_working_dir (some cwd) = some (ensure_trailing_slash cwd)

-- The body of the loop of `init_classpath` on one token.
unfoldable pub source_path : Option Bytes → Bytes → SrcPath
source_path cwd source =
    if str_has_suffix source (codes ".jar")
    then record {
      type = jar;
      path = fully_qualify cwd source;
      archive = false;
      blacklisted = false;
    }
    else record {
      type = src;
      path = fully_qualify cwd (ensure_trailing_slash source);
      archive = false;
      blacklisted = false;
    }

-- `working` is the result of `getcwd`.
unfoldable pub init_classpath : Option Bytes → Bytes → List SrcPath → List SrcPath
init_classpath working classpath src_paths =
    src_paths ++ map (source_path (get_current_working_dir working)) (tokens b':' classpath)

-- The loop that replaces dots, up to the terminating zero.
unfoldable pub slashes : Bytes → Bytes
slashes [] = []
slashes (c ∷ cs) = (if c == b'.' then b'/' else c) ∷ slashes cs

abbrev second : List Bytes → Option Bytes
second (a ∷ b ∷ rest) = some b
second _ = none

-- `artifact` points to the text of `group` where the symbol has no slash, after its dots are gone.
abbrev artifact_or : Bytes → Option Bytes → Bytes
artifact_or group none = group
artifact_or group (some artifact) = artifact

unfoldable pub jar_path : Bytes → Bytes → Bytes → Bytes → Bytes
jar_path local_repo group artifact version =
    local_repo
    ++ (codes "/"
        ++ (group
            ++ (codes "/"
                ++ (artifact
                    ++ (codes "/"
                        ++ (version
                            ++ (codes "/"
                                ++ (artifact ++ (codes "-" ++ (version ++ codes ".jar"))))))))))

-- `none` where the source passes a null pointer on: to `strtok_r` or the loop for the symbol, to
-- `sprintf` for the version.
unfoldable pub dependency_of : Bytes → List Bytes → Option Bytes → Option Bytes
unfolding slashes
dependency_of local_repo [] version = none
dependency_of local_repo (group ∷ more) none = none
dependency_of local_repo (group ∷ more) (some version) =
    let group' = slashes group in
    some (jar_path local_repo group' (artifact_or group' (second (group ∷ more))) version)

abbrev with_symbol : Bytes → List Bytes → Option Bytes
with_symbol local_repo [] = none
with_symbol local_repo (sym ∷ more) =
    dependency_of local_repo (tokens b'/' sym) (second (sym ∷ more))

unfoldable pub dependency_path : Bytes → Bytes → Option Bytes
unfolding dependency_of
dependency_path local_repo dependency = with_symbol local_repo (tokens b':' dependency)

abbrev put_front : Option Bytes → Option (List Bytes) → Option (List Bytes)
put_front (some p) (some ps) = some (p ∷ ps)
put_front _ _ = none

pub dependency_paths : Bytes → List Bytes → Option (List Bytes)
dependency_paths local_repo [] = some []
dependency_paths local_repo (d ∷ ds) =
    let rest = dependency_paths local_repo ds in put_front (dependency_path local_repo d) rest

-- The last loop, which reads the first path before it compares with the count.
pub join_paths : List Bytes → Option Bytes
join_paths [] = none
join_paths (p ∷ []) = some p
join_paths (p ∷ q ∷ ps) =
    let rest = join_paths (q ∷ ps) in
    elim rest [ none ↦ none | some r ↦ some (p ++ (codes ":" ++ r)) ]

abbrev join_or : Option (List Bytes) → Option Bytes
join_or none = none
join_or (some ps) = join_paths ps

-- At most 1024 dependencies, and paths within PATH_MAX, are assumed. `none` is a null pointer read.
unfoldable pub calculate_dependencies_classpath : Bytes → Bytes → Option Bytes
unfolding dependency_paths join_paths
calculate_dependencies_classpath dependencies local_repo =
    join_or (dependency_paths local_repo (tokens b',' dependencies))
