-- ===== src/Shell/Search/Found.antt =====
-- shell.c: which program is run, and the error if there is none.
use planck.Shell.{Errno, e_acces, e_noent, e_notdir, e_nametoolong}
use planck.Shell.Search.{
  dir_of, Exec, runs_program, returns, path_max, contains, get_path, switch, at_end, search_loop,
  planck_execvpe,
}
use planck.Shell.Search.Path.{split_path_lem}
use planck.Text.{runs}
use planck.Prelude.{
  ◌+◌, ◌≤◌, ◌<◌, ◌≡◌, refl, ap, ◌∙◌, Bool, true, false, Bool-cases, ◌||◌, Option, List, [], ◌∷◌,
  ◌++◌, Bytes, leb, inl, inr, length, map, arith,
}

module _ (execve : Bytes → Exec) (file : Bytes) where
  -- The program is not found in a directory: the path is too long, or there is no such file.
  pub data Passed : Bytes → Type 0 where
    too_long : {dir : Bytes} → path_max ≤ length file + length dir + 1 → Passed dir
    no_file : {dir : Bytes} → execve (dir ++ file) ≡ returns e_noent → Passed dir
    no_directory : {dir : Bytes} → execve (dir ++ file) ≡ returns e_notdir → Passed dir

  -- Or it may not be executed there.
  pub data Denied : Bytes → Type 0 where
    denied :
        {dir : Bytes}
        → length file + length dir + 1 < path_max
        → execve (dir ++ file) ≡ returns e_acces
        → Denied dir

  -- None of the directories has the program; the flag tells whether one has a file that may not
  -- be executed.
  pub data AllPassed : Bool → List Bytes → Type 0 where
    none_left : AllPassed false []
    pass :
        {b : Bool} {dir : Bytes} {dirs : List Bytes}
        → Passed dir
        → AllPassed b dirs
        → AllPassed b (dir ∷ dirs)
    deny :
        {b : Bool} {dir : Bytes} {dirs : List Bytes}
        → Denied dir
        → AllPassed b dirs
        → AllPassed true (dir ∷ dirs)

  search-tried :
      (dir : Bytes) (dirs : List Bytes) (sticky : Bool) (errno e : Errno)
      → switch (execve (dir ++ file)) sticky (search_loop execve file dirs)
        ≡ search_loop execve file dirs sticky e
      → (errno' : Errno) × (search_loop execve file (dir ∷ dirs) sticky errno
          ≡ search_loop execve file dirs sticky errno')
  unfolding search_loop
  search-tried dir dirs sticky errno e found =
      elim (Bool-cases (leb path_max (length file + length dir + 1))) [
        | inl long ↦ (e_nametoolong, rw long refl)
        | inr short ↦ (e, rw short found)
      ]

  search-passed :
      (dir : Bytes) (dirs : List Bytes) (sticky : Bool) (errno : Errno)
      → Passed dir
      → (errno' : Errno) × (search_loop execve file (dir ∷ dirs) sticky errno
          ≡ search_loop execve file dirs sticky errno')
  unfolding search_loop
  search-passed dir dirs sticky errno (too_long h) =
      let e : leb path_max (length file + length dir + 1) ≡ true = ground arith in
      (e_nametoolong, rw e refl)
  search-passed dir dirs sticky errno (no_file h) =
      search-tried dir dirs sticky errno e_noent (rw h refl)
  search-passed dir dirs sticky errno (no_directory h) =
      search-tried dir dirs sticky errno e_notdir (rw h refl)

  search-Denied :
      (dir : Bytes) (dirs : List Bytes) (sticky : Bool) (errno : Errno)
      → Denied dir
      → search_loop execve file (dir ∷ dirs) sticky errno
        ≡ search_loop execve file dirs true e_acces
  unfolding search_loop
  search-Denied dir dirs sticky errno (denied h e) =
      let short : leb path_max (length file + length dir + 1) ≡ false = ground arith in
      rw short (rw e refl)

  search-found :
      {b : Bool} {front : List Bytes} (dir : Bytes) (back : List Bytes) (sticky : Bool)
      (errno : Errno) {p : Bytes}
      → AllPassed b front
      → length file + length dir + 1 < path_max
      → execve (dir ++ file) ≡ runs_program p
      → search_loop execve file (front ++ dir ∷ back) sticky errno ≡ runs_program p
  unfolding search_loop
  search-found dir back sticky errno none_left fits found =
      let short : leb path_max (length file + length dir + 1) ≡ false = ground arith in
      rw short (rw found refl)
  search-found dir back sticky errno (pass {dir = d} {dirs = ds} p rest) fits found =
      let (errno', e) = search-passed d (ds ++ dir ∷ back) sticky errno p in
      e ∙ search-found dir back sticky errno' rest fits found
  search-found dir back sticky errno (deny {dir = d} {dirs = ds} p rest) fits found =
      search-Denied d (ds ++ dir ∷ back) sticky errno p
      ∙ search-found dir back true e_acces rest fits found

  search-missing :
      {b : Bool} {dirs : List Bytes} (sticky : Bool) (errno : Errno)
      → AllPassed b dirs
      → (sticky || b) ≡ true
      → search_loop execve file dirs sticky errno ≡ returns e_acces
  unfolding search_loop
  search-missing sticky errno none_left h = at_last sticky h
    where
      at_last : (s : Bool) → (s || false) ≡ true → at_end s errno ≡ returns e_acces
      at_last true h' = refl
      at_last false h' = cc
  search-missing sticky errno (pass {dir = d} {dirs = ds} p rest) h =
      let (errno', e) = search-passed d ds sticky errno p in e ∙ search-missing sticky errno' rest h
  search-missing sticky errno (deny {dir = d} {dirs = ds} p rest) h =
      search-Denied d ds sticky errno p ∙ search-missing true e_acces rest refl

-- A name without a slash runs the program of the first directory of PATH that has one, where it is
-- not found, or may not be executed, in those in front of it; the path of the program is shorter
-- than PATH_MAX, which is 1024 on macOS. The directories are the pieces of PATH between its colons.
pub planck_execvpe_lem :
    (execve : Bytes → Exec) (file : Bytes) (path : Option Bytes) (errno : Errno) {b : Bool}
    {front : List Bytes} (dir : Bytes) (back : List Bytes) {p : Bytes}
    → contains b'/' file ≡ false
    → map dir_of (runs b':' (get_path path)) ≡ front ++ dir ∷ back
    → AllPassed execve file b front
    → length file + length dir + 1 < path_max
    → execve (dir ++ file) ≡ runs_program p
    → planck_execvpe execve file path errno ≡ runs_program p
unfolding planck_execvpe
planck_execvpe_lem execve file path errno dir back no_slash pieces passed fits found = rw no_slash (
    ap (λ dirs. search_loop execve file dirs false errno) (split_path_lem (get_path path) ∙ pieces)
    ∙ search-found execve file dir back false errno passed fits found)

-- Where no directory has the program but one has a file that may not be executed, the error is that
-- of the permission.
pub planck_execvpe-Denied :
    (execve : Bytes → Exec) (file : Bytes) (path : Option Bytes) (errno : Errno)
    → contains b'/' file ≡ false
    → AllPassed execve file true (map dir_of (runs b':' (get_path path)))
    → planck_execvpe execve file path errno ≡ returns e_acces
unfolding planck_execvpe
planck_execvpe-Denied execve file path errno no_slash passed = rw no_slash (
    ap (λ dirs. search_loop execve file dirs false errno) (split_path_lem (get_path path))
    ∙ search-missing execve file false errno passed refl)
