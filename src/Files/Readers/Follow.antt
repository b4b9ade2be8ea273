-- ===== src/Files/Readers/Follow.antt =====
-- file.c: a reader follows a file that grows.
use planck.Memory.{c_string}
use planck.Javascript.{string}
use planck.Files.{descriptor_str_to_int}
use planck.Files.Readers.{
  Units, Ustdio, Result, text, as_result, ufile_read, function_file_reader_read,
}
use planck.Prelude.{
  ℕ, ◌≤◌, ◌≡◌, refl, sym, ap, ◌∙◌, inl, inr, false, Option, none, some, List, [], ◌∷◌, ◌++◌,
  append-nil, append_assoc, Bool-cases, Bytes, arith, length, length-append, length-drop, replicate,
  zero, suc, ◌*◌, take, drop, take-append-drop,
}

-- What ustdio promises for one stream: the text ahead of it and its end-of-file mark, by
-- `u_feof`. Without the mark a read delivers what is ahead, up to the number of units; it
-- leaves the other streams' files alone. `grow` is some other program that writes to the file.
pub record IsUstdio {S : Type 0} (u : Ustdio S) (d : ℕ) (ahead : S → Units) (grow : Units → S → S)
    : Type 0 where
  pub read-ahead :
      (n : ℕ) (s : S) → u.u_feof d s ≡ false → (u.u_file_read d n s).0 ≡ take n (ahead s)
  pub ahead-read :
      (n : ℕ) (s : S) → u.u_feof d s ≡ false → ahead (u.u_file_read d n s).1 ≡ drop n (ahead s)
  pub ahead-clearerr : (s : S) → ahead (u.clearerr d s) ≡ ahead s
  pub feof-clearerr : (s : S) → u.u_feof d (u.clearerr d s) ≡ false
  pub ahead-grow : (t : Units) (s : S) → ahead (grow t s) ≡ ahead s ++ t
  pub feof-grow : (t : Units) (s : S) → u.u_feof d (grow t s) ≡ u.u_feof d s

-- What happens: the file grows, or the client reads.
pub data Event : Type 0 where
  grows : Units → Event
  reads : Event

abbrev pub growth : List Event → Units
growth [] = []
growth (grows t ∷ es) = t ++ growth es
growth (reads ∷ es) = growth es

abbrev pub text_in : Result → Units
text_in (text t) = t
text_in _ = []

text_in-as_result : (us : Units) → text_in (as_result us) ≡ us
text_in-as_result [] = refl
text_in-as_result (u ∷ us) = refl

nil_of_empty : (us : Units) → length us ≤ 0 → us ≡ []
nil_of_empty [] h = refl
nil_of_empty (u ∷ us) h = elim h [ ]

module _ {S : Type 0} (u : Ustdio S) (grow : Units → S → S) where
  abbrev add : Result → Option (Units × S) → Option (Units × S)
  add r none = none
  add r (some (t, s)) = some (text_in r ++ t, s)

  abbrev after : Option (Result × S) → (S → Option (Units × S)) → Option (Units × S)
  after none next = none
  after (some (r, s)) next = add r (next s)

  -- The texts that the reads return, joined.
  unfoldable pub follow : Bytes → List Event → S → Option (Units × S)
  follow name [] s = some ([], s)
  follow name (grows t ∷ es) s = follow name es (grow t s)
  follow name (reads ∷ es) s =
      after (function_file_reader_read u (string name ∷ []) s) (follow name es)

  module _ (d : ℕ) (ahead : S → Units) (laws : IsUstdio u d ahead grow) where
    -- One read.
    ufile_read_lem :
        (s : S)
        → u.u_feof d s ≡ false
        → ((ufile_read u d s).0 ≡ take 1024 (ahead s))
          × (ahead (ufile_read u d s).1 ≡ drop 1024 (ahead s))
          × (u.u_feof d (ufile_read u d s).1 ≡ false)
    unfolding ufile_read
    ufile_read_lem s clear =
        let s' = (u.u_file_read d 1024 s).1 in
        elim (Bool-cases (u.u_feof d s')) [
          | inl marked ↦ (
            laws.read-ahead 1024 s clear,
            rw marked (laws.ahead-clearerr s' ∙ laws.ahead-read 1024 s clear),
            rw marked (laws.feof-clearerr s'),
          )
          | inr unmarked ↦ (
            laws.read-ahead 1024 s clear,
            rw unmarked (laws.ahead-read 1024 s clear),
            rw unmarked unmarked,
          )
        ]

    module _ (name : Bytes) (names : descriptor_str_to_int (c_string name) ≡ some d) where
      -- A read in front of more events.
      read-follow :
          (es : List Event) (s s' : S) (t : Units)
          → follow name es (ufile_read u d s).1 ≡ some (t, s')
          → follow name (reads ∷ es) s ≡ some ((ufile_read u d s).0 ++ t, s')
      unfolding follow function_file_reader_read
      read-follow es s s' t e = rw names (
          ap (add (as_result (ufile_read u d s).0)) e
          ∙ ap (λ (v : Units). some (v ++ t, s')) (text_in-as_result (ufile_read u d s).0))

      follow-reads :
          (n : ℕ) (s : S)
          → u.u_feof d s ≡ false
          → length (ahead s) ≤ 1024 * n
          → (s' : S) × (follow name (replicate n reads) s ≡ some (ahead s, s'))
      unfolding follow
      follow-reads zero s clear few =
          (s, ap (λ v. some (v, s)) (sym (nil_of_empty (ahead s) (omega arith))))
      follow-reads (suc n) s clear few =
          let (r, a, clear') = ufile_read_lem s clear in
          let (s', e) =
            follow-reads n (ufile_read u d s).1 clear'
              (rw a (omega (arith, length-drop 1024 (ahead s)))) in
          (
            s',
            read-follow (replicate n reads) s s' _ e
                ∙ ap (λ v. some (v, s')) (rw (r, a) (take-append-drop 1024 (ahead s))),
          )

      -- However the growth of the file and the reads follow on one another, the reads deliver in
      -- order all that was ahead and all that was added, once there are enough of them at the end:
      -- one for each 1024 units. The stream's mark is clear at first.
      pub follow_lem :
          (es : List Event) (n : ℕ) (s : S)
          → u.u_feof d s ≡ false
          → length (ahead s ++ growth es) ≤ 1024 * n
          → (s' : S) × (follow name (es ++ replicate n reads) s ≡ some (ahead s ++ growth es, s'))
      unfolding follow
      follow_lem [] n s clear few =
          let (s', e) =
            follow-reads n s clear (omega (arith, few, length-append (ahead s) (growth []))) in
          (s', e ∙ ap (λ v. some (v, s')) (sym (append-nil (ahead s))))
      follow_lem (grows t ∷ es) n s clear few =
          let joined' : ahead (grow t s) ++ growth es ≡ ahead s ++ (t ++ growth es) =
            ap (λ v. v ++ growth es) (laws.ahead-grow t s) ∙ append_assoc (ahead s) t (growth es) in
          let (s', e) = follow_lem es n (grow t s) (laws.feof-grow t s ∙ clear) (rw joined' few) in
          (s', e ∙ ap (λ v. some (v, s')) joined')
      follow_lem (reads ∷ es) n s clear few =
          let (r, a, clear') = ufile_read_lem s clear in
          let joined' : (ufile_read u d s).0 ++ (ahead (ufile_read u d s).1 ++ growth es)
              ≡ ahead s ++ growth es =
            rw (r, a)
              (sym (append_assoc (take 1024 (ahead s)) (drop 1024 (ahead s)) (growth es))
                ∙ ap (λ v. v ++ growth es) (take-append-drop 1024 (ahead s))) in
          let (s', e) = follow_lem es n (ufile_read u d s).1 clear' (
            omega (
              arith,
              few,
              ap length joined',
              length-append (ufile_read u d s).0 (ahead (ufile_read u d s).1 ++ growth es),
            )) in
          (s', read-follow (es ++ replicate n reads) s s' _ e ∙ ap (λ v. some (v, s')) joined')
