-- ===== src/Files/Temporary/Named.antt =====
-- functions.c: the name of a temporary file.
use planck.Text.{str_has_suffix}
use planck.Files.Temporary.{path_max, or_tmp, below, if_closed, template, Temp, function_mktemp}
use planck.Prelude.{
  ◌+◌, ◌-◌, ◌<◌, ◌≡◌, refl, sym, ap, ◌∙◌, Bool, true, false, Option, some, [], ◌++◌, Bytes, codes,
  arith, append_assoc, length, length-append, take, take-all,
}

-- The directory with one slash behind it, if it has none.
abbrev slashed : Bool → Bytes → Bytes
slashed true dir = dir
slashed false dir = dir ++ codes "/"

abbrev pub directory : Option Bytes → Bytes
directory tmpdir = slashed (str_has_suffix (or_tmp tmpdir) (codes "/")) (or_tmp tmpdir)

below_lem : (b : Bool) (dir name : Bytes) → below b dir name ≡ slashed b dir ++ name
below_lem true dir name = refl
below_lem false dir name = sym (append_assoc dir (codes "/") name)

-- What the C library documents: the six X in front of the suffix are replaced; `mkdtemp` wants
-- none behind them.
pub record Replaces (temp : Temp) : Type 0 where
  pub mkstemps_x :
      (front suffix name : Bytes)
      → temp.mkstemps (front ++ (codes "XXXXXX" ++ suffix)) (length suffix) ≡ some name
      → (x : Bytes) × (length x ≡ 6) × (name ≡ front ++ (x ++ suffix))
  pub mkdtemp_x :
      (front name : Bytes)
      → temp.mkdtemp (front ++ codes "XXXXXX") ≡ some name
      → (x : Bytes) × (length x ≡ 6) × (name ≡ front ++ x)

if_closed-some :
    (b : Bool) (o : Option Bytes) {name : Bytes} → if_closed b o ≡ some name → o ≡ some name
if_closed-some true o e = e
if_closed-some false o e = cc

module _ (tmpdir : Option Bytes) (prefix suffix : Bytes)
    (few : length (directory tmpdir) + length prefix + length suffix + 6 < path_max) where
  template_lem :
      template tmpdir prefix suffix ≡ (directory tmpdir ++ prefix) ++ (codes "XXXXXX" ++ suffix)
  unfolding template
  template_lem =
      let name = prefix ++ (codes "XXXXXX" ++ suffix) in
      ap (take (path_max - 1))
        (below_lem (str_has_suffix (or_tmp tmpdir) (codes "/")) (or_tmp tmpdir) name)
      ∙ take-all (path_max - 1) (directory tmpdir ++ name) (
          omega (
            arith,
            length-append (directory tmpdir) name,
            length-append prefix (codes "XXXXXX" ++ suffix),
          ))
      ∙ sym (append_assoc (directory tmpdir) prefix (codes "XXXXXX" ++ suffix))

  -- A temporary file is in TMPDIR, or in /tmp if that is not set, and its name is the prefix, six
  -- more bytes and the suffix, if all this fits into a path.
  pub function_mktemp-file :
      (temp : Temp) {name : Bytes}
      → Replaces temp
      → function_mktemp temp tmpdir prefix suffix false ≡ some name
      → (x : Bytes) × (length x ≡ 6) × (name ≡ (directory tmpdir ++ prefix) ++ (x ++ suffix))
  unfolding function_mktemp
  function_mktemp-file temp {name} r e =
      r.mkstemps_x (directory tmpdir ++ prefix) suffix name (
        ap (λ t. temp.mkstemps t (length suffix)) (sym template_lem)
        ∙ if_closed-some temp.close _ e)

  -- The same holds for a temporary directory, which has no suffix.
  pub function_mktemp-directory :
      (temp : Temp) {name : Bytes}
      → Replaces temp
      → suffix ≡ []
      → function_mktemp temp tmpdir prefix suffix true ≡ some name
      → (x : Bytes) × (length x ≡ 6) × (name ≡ (directory tmpdir ++ prefix) ++ x)
  unfolding function_mktemp
  function_mktemp-directory temp {name} r none_behind e =
      r.mkdtemp_x (directory tmpdir ++ prefix) name (
        ap temp.mkdtemp (
          sym (
            template_lem
            ∙ ap (λ t. (directory tmpdir ++ prefix) ++ (codes "XXXXXX" ++ t)) none_behind))
        ∙ e)
