-- ===== src/Files/Streams.antt =====
-- functions.c: the input and output streams of ClojureScript.
pub mod Writing
pub mod Reading
pub mod Written
pub mod Delivered
pub mod RoundTrip
pub mod Elements
use planck.Memory.{c_string}
use planck.Javascript.{
  Value, Element, Number, null, object, boolean, string, array, num, str, other, in_byte_range,
  to_uint8, of_byte,
}
use planck.Files.{
  Stdio, M, ◌>>=◌, return, file_open_read, file_open_write, file_read, file_write, file_flush,
  file_close, descriptor_int_to_str, descriptor_str_to_int,
}
use planck.Prelude.{
  ℕ, zero, suc, Bool, true, false, Option, none, some, List, [], ◌∷◌, ◌++◌, Bytes, if◌then◌else◌,
  length, map,
}

abbrev pub defined : {A : Type 0} → Option A → M A
defined none s = none
defined (some a) s = some (a, s)

-- The text of a descriptor as a JavaScript string, and back.
abbrev pub text_of : ℕ → M Value
text_of d = do text ← defined (descriptor_int_to_str d); return (string text)

abbrev pub descriptor_of : Bytes → M ℕ
descriptor_of text = defined (descriptor_str_to_int (c_string text))

-- The array of what `fread` delivered, or null.
abbrev pub array_of : Bytes → Value
array_of [] = null
array_of (b ∷ bs) = array (map of_byte (b ∷ bs))

-- What `write` prints for an element that it passes over.
pub data Complaint : Type 0 where
  out_of_range : Number → Complaint
  not_a_number : Complaint

-- The result of `write`: null, with what was printed, or the exception for a lack of memory.
pub data Returned : Type 0 where
  returned_null : List Complaint → Returned
  raised : Returned

-- One round of the loop: the byte at its index, which held `old`, and what is printed.
abbrev pub byte_for : Element → ℕ → ℕ
byte_for (num n) old = if in_byte_range n then to_uint8 n else old
byte_for _ old = old

abbrev complaint : Element → List Complaint
complaint (num n) = if in_byte_range n then [] else out_of_range n ∷ []
complaint _ = not_a_number ∷ []

-- The loop over the elements and the block, which has as many bytes.
unfoldable pub fill : List Element → Bytes → Bytes
unfolding in_byte_range
fill [] block = block
fill (e ∷ es) [] = []
fill (e ∷ es) (old ∷ block) = byte_for e old ∷ fill es block

unfoldable pub complaints : List Element → List Complaint
unfolding in_byte_range
complaints [] = []
complaints (e ∷ es) = complaint e ++ complaints es

unfoldable pub buf_size : ℕ
buf_size = 4096

unfoldable pub function_file_input_stream_read : List Value → M Value
function_file_input_stream_read (string text ∷ []) = do
  d ← descriptor_of text
  bytes ← file_read d buf_size
  return (array_of bytes)
function_file_input_stream_read _ = return null

unfoldable pub function_file_input_stream_close : List Value → M Value
function_file_input_stream_close (string text ∷ []) = do
  d ← descriptor_of text
  _ ← file_close d
  return null
function_file_input_stream_close _ = return null

unfoldable pub function_file_output_stream_flush : List Value → M Value
function_file_output_stream_flush (string text ∷ []) = do
  d ← descriptor_of text
  _ ← file_flush d
  return null
function_file_output_stream_flush _ = return null

unfoldable pub function_file_output_stream_close : List Value → M Value
function_file_output_stream_close (string text ∷ []) = do
  d ← descriptor_of text
  _ ← file_close d
  return null
function_file_output_stream_close _ = return null

module _ (c : Stdio) where
  unfoldable pub function_file_input_stream_open : List Value → M Value
  function_file_input_stream_open (string path ∷ []) = do
    d ← file_open_read c (c_string path)
    text_of d
  function_file_input_stream_open _ = return null

  unfoldable pub function_file_output_stream_open : List Value → M Value
  function_file_output_stream_open (string path ∷ boolean append ∷ []) = do
    d ← file_open_write c (c_string path) append
    text_of d
  function_file_output_stream_open _ = return null

  abbrev write_block : Option Bytes → Bytes → List Element → M Returned
  write_block none text elements = return raised
  write_block (some block) text elements = do
    d ← descriptor_of text
    _ ← file_write c d (fill elements block)
    return (returned_null (complaints elements))

  -- `malloc` gives a block with bytes of no known value, or a null pointer. The `length` of an
  -- object that is no array is no defined number here.
  unfoldable pub function_file_output_stream_write : (ℕ → Option Bytes) → List Value → M Returned
  function_file_output_stream_write malloc (string text ∷ array elements ∷ []) =
      write_block (malloc (length elements)) text elements
  function_file_output_stream_write malloc (string text ∷ object ∷ []) = λ s. none
  function_file_output_stream_write malloc _ = return (returned_null [])
