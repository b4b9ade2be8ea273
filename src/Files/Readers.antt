-- ===== src/Files/Readers.antt =====
-- The readers and writers of planck-c/file.c and planck-c/functions.c: text in some encoding,
-- through the ustdio of ICU.
pub mod Follow
use planck.Memory.{c_string}
use planck.Javascript.{Value, string, boolean, value_to_c_string}
use planck.Files.{descriptor_int_to_str, descriptor_str_to_int}
use planck.Prelude.{
  ℕ, suc, Bool, true, false, Option, none, some, List, [], ◌∷◌, Bytes, codes, if◌then◌else◌,
}

-- Code units of UTF-16.
abbrev pub Units : Type 0
Units = List ℕ

-- What ICU and stdio do. A stream is known by its address; `u_fopen` takes the path, the mode and
-- the encoding, `none` for the default. `clearerr` is called for the FILE of the stream.
pub record Ustdio (S : Type 0) : Type 0 where
  pub u_fopen : Bytes → Bytes → Option Bytes → S → ℕ × S
  pub u_file_read : ℕ → ℕ → S → Units × S
  pub u_feof : ℕ → S → Bool
  pub clearerr : ℕ → S → S
  pub u_file_write : ℕ → Units → S → S
  pub u_fflush : ℕ → S → S
  pub u_fclose : ℕ → S → S

-- The values that these functions return: null, a text, the pair of a text and null, or that of
-- null and null.
pub data Result : Type 0 where
  null_result no_text : Result
  descriptor_text : Bytes → Result
  text : Units → Result

abbrev mode_of : Bool → Bytes
mode_of true = codes "a"
mode_of false = codes "w"

-- A text that is no descriptor for `atoll` has no defined effect.
abbrev on_descriptor : {S : Type 0} → Option ℕ → (ℕ → S → Result × S) → S → Option (Result × S)
on_descriptor none f s = none
on_descriptor (some d) f s = some (f d s)

abbrev pub as_result : Units → Result
as_result [] = no_text
as_result (u ∷ us) = text (u ∷ us)

abbrev as_descriptor : {S : Type 0} → Option Bytes → S → Option (Result × S)
as_descriptor none s = none
as_descriptor (some t) s = some (descriptor_text t, s)

module _ {S : Type 0} (u : Ustdio S) where
  unfoldable pub ufile_open_read : Bytes → Option Bytes → S → ℕ × S
  ufile_open_read path encoding s = u.u_fopen path (codes "r") encoding s

  unfoldable pub ufile_open_write : Bytes → Bool → Option Bytes → S → ℕ × S
  ufile_open_write path append encoding s = u.u_fopen path (mode_of append) encoding s

  -- At the end of the file the mark is cleared, so that later reads try again.
  unfoldable pub ufile_read : ℕ → S → Units × S
  ufile_read d s =
      let (units, s') = u.u_file_read d 1024 s in
      (units, if u.u_feof d s' then u.clearerr d s' else s')

  unfoldable pub function_file_reader_open : List Value → S → Option (Result × S)
  unfolding ufile_open_read
  function_file_reader_open (string path ∷ encoding ∷ []) s =
      let (d, s') = ufile_open_read (c_string path) (value_to_c_string encoding) s in
      as_descriptor (descriptor_int_to_str d) s'
  function_file_reader_open _ s = some (null_result, s)

  unfoldable pub function_file_reader_read : List Value → S → Option (Result × S)
  unfolding ufile_read
  function_file_reader_read (string t ∷ []) s =
      on_descriptor (descriptor_str_to_int (c_string t))
        (λ d s0. let (units, s') = ufile_read d s0 in (as_result units, s')) s
  function_file_reader_read _ s = some (null_result, s)

  unfoldable pub function_file_reader_close : List Value → S → Option (Result × S)
  function_file_reader_close (string t ∷ []) s =
      on_descriptor (descriptor_str_to_int (c_string t)) (λ d s0. (null_result, u.u_fclose d s0)) s
  function_file_reader_close _ s = some (null_result, s)

  unfoldable pub function_file_writer_open : List Value → S → Option (Result × S)
  unfolding ufile_open_write
  function_file_writer_open (string path ∷ boolean append ∷ encoding ∷ []) s =
      let (d, s') = ufile_open_write (c_string path) append (value_to_c_string encoding) s in
      as_descriptor (descriptor_int_to_str d) s'
  function_file_writer_open _ s = some (null_result, s)

  -- The text is given by its code units.
  unfoldable pub function_file_writer_write : Bytes → Units → S → Option (Result × S)
  function_file_writer_write t units s =
      on_descriptor (descriptor_str_to_int (c_string t))
        (λ d s0. (null_result, u.u_file_write d units s0)) s

  unfoldable pub function_file_writer_flush : List Value → S → Option (Result × S)
  function_file_writer_flush (string t ∷ []) s =
      on_descriptor (descriptor_str_to_int (c_string t)) (λ d s0. (null_result, u.u_fflush d s0)) s
  function_file_writer_flush _ s = some (null_result, s)

  unfoldable pub function_file_writer_close : List Value → S → Option (Result × S)
  function_file_writer_close (string t ∷ []) s =
      on_descriptor (descriptor_str_to_int (c_string t)) (λ d s0. (null_result, u.u_fclose d s0)) s
  function_file_writer_close _ s = some (null_result, s)
