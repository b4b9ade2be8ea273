-- ===== src/Classpath/Tests.antt =====
-- Runs of the class path.
use planck.Prelude.{◌∷◌, ◌≡◌, refl, some, none, codes, str_eq, [], true}
use planck.Text.{tokens, str_has_prefix}
use planck.Classpath.{
  ensure_trailing_slash, calculate_dependencies_classpath, dependency_path, slashes, jar_path,
  init_classpath,
}
use planck.Classpath.Paths.{AllSearchable, init_classpath-AllSearchable}

two_dependencies :
    calculate_dependencies_classpath (codes "foo.bar/baz:1.2,quux:3") (codes "/m2")
    ≡ some (codes "/m2/foo/bar/baz/1.2/baz-1.2.jar:/m2/quux/quux/3/quux-3.jar")
unfolding calculate_dependencies_classpath dependency_path tokens slashes jar_path
two_dependencies = refl

dotted_name :
    dependency_path (codes "/m2") (codes "org.json:2")
    ≡ some (codes "/m2/org/json/org/json/2/org/json-2.jar")
unfolding dependency_path tokens slashes jar_path
dotted_name = refl

no_dependency : calculate_dependencies_classpath (codes ",") (codes "/m2") ≡ none
unfolding calculate_dependencies_classpath tokens
no_dependency = refl

rooted : str_has_prefix (codes "/home/u") (codes "/") ≡ true
unfolding str_has_prefix str_eq
rooted = refl

init_classpath-AllSearchable_example :
    AllSearchable
      (codes "/home/u/")
      (codes "src" ∷ codes "lib/a.jar" ∷ codes "/opt/x/" ∷ [])
      (init_classpath (some (codes "/home/u")) (codes "src:lib/a.jar:/opt/x/") [])
unfolding tokens ensure_trailing_slash planck.Text.str_has_suffix str_eq
init_classpath-AllSearchable_example =
    init_classpath-AllSearchable (codes "/home/u") (codes "src:lib/a.jar:/opt/x/") rooted
