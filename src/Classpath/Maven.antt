-- ===== src/Classpath/Maven.antt =====
-- main.c: where a dependency is looked for in the local Maven repository.
use planck.Prelude.{
  ℕ, ◌≡◌, refl, sym, append_assoc, ap, ◌∙◌, none, some, [], ◌∷◌, ◌++◌, Bytes, Free, arith,
}
use planck.Text.Tokens.{tokens-cons, tokens-one}
use planck.Classpath.{dependency_path, jar_path, slashes}

-- A nonempty text without the bytes `:` and `/`, which separate the parts of a dependency.
abbrev pub IsPart : Bytes → Type 0
IsPart [] = ⊥
IsPart (c ∷ cs) = Free b':' (c ∷ cs) × Free b'/' (c ∷ cs)

Free-append : (c : ℕ) (xs ys : Bytes) → Free c xs → Free c ys → Free c (xs ++ ys)
Free-append c [] ys f g = g
Free-append c (x ∷ xs) ys f g = (f.0, Free-append c xs ys f.1 g)

-- `group/artifact:version` is found below the group, with slashes for its dots.
dependency_path-qualified :
    (repo group artifact version : Bytes)
    → IsPart group
    → IsPart artifact
    → IsPart version
    → dependency_path repo (group ++ b'/' ∷ (artifact ++ b':' ∷ version))
      ≡ some (jar_path repo (slashes group) artifact version)
unfolding dependency_path
dependency_path-qualified repo [] artifact version g a v = absurd g
dependency_path-qualified repo (x ∷ xs) [] version g a v = absurd a
dependency_path-qualified repo (x ∷ xs) (y ∷ ys) [] g a v = absurd v
dependency_path-qualified repo (x ∷ xs) (y ∷ ys) (z ∷ zs) g a v =
    let symbol : Bytes = xs ++ b'/' ∷ y ∷ ys in
    ap (dependency_path repo) (ap (◌∷◌ x) (sym (append_assoc xs (b'/' ∷ y ∷ ys) (b':' ∷ z ∷ zs))))
    ∙ rw
        (tokens-cons b':' x symbol (z ∷ zs)
          (g.0.0, Free-append b':' xs (b'/' ∷ y ∷ ys) g.0.1 (omega arith, a.0)))
        (rw (tokens-one b':' z zs v.0, tokens-cons b'/' x xs (y ∷ ys) g.1)
          (rw (tokens-one b'/' y ys a.1) refl))

-- `name:version` with no slash is found below the name with slashes for its dots, and the artifact
-- is that changed name too, since it shares the text of the group. So for a name with a dot the
-- JAR's own name has a slash in the place of the dot.
dependency_path-unqualified :
    (repo name version : Bytes)
    → IsPart name
    → IsPart version
    → dependency_path repo (name ++ b':' ∷ version)
      ≡ some (jar_path repo (slashes name) (slashes name) version)
unfolding dependency_path
dependency_path-unqualified repo [] version g v = absurd g
dependency_path-unqualified repo (x ∷ xs) [] g v = absurd v
dependency_path-unqualified repo (x ∷ xs) (z ∷ zs) g v =
    rw (tokens-cons b':' x xs (z ∷ zs) g.0)
      (rw (tokens-one b':' z zs v.0, tokens-one b'/' x xs g.1) refl)

-- A dependency without a version makes the source format a null pointer.
pub dependency_path_unversioned :
    (repo name : Bytes) → IsPart name → dependency_path repo name ≡ none
unfolding dependency_path
dependency_path_unversioned repo [] g = absurd g
dependency_path_unversioned repo (x ∷ xs) g =
    rw (tokens-one b':' x xs g.0) (rw (tokens-one b'/' x xs g.1) refl)
