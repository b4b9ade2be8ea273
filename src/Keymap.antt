-- ===== src/Keymap.antt =====
-- planck-c/keymap.c: the reader of ~/.planck_keymap. The EDN reader (edn.c, a copy of libclj) is
-- not modelled: what it emits and returns is the argument.
pub mod Entries
mod Tests
use planck.Prelude.{
  ℕ, ◌+◌, ◌-◌, ◌≡◌, Bool, true, false, ◌&&◌, Option, none, some, List, [], ◌∷◌, ◌++◌, Bytes, codes,
  ◌==◌, leb, str_eq, if◌then◌else◌, length, get_elem?,
}
use planck.Text.{str_has_prefix}

-- The KM_ numbers of linenoise.h; `none` is the result -1.
unfoldable pub id_for_key_map_action : Bytes → Option ℕ
id_for_key_map_action action =
    if str_eq action (codes ":go-to-beginning-of-line")
    then some 0
    else if str_eq action (codes ":go-back-one-space")
    then some 1
    else if str_eq action (codes ":go-forward-one-space")
    then some 5
    else if str_eq action (codes ":delete-right")
    then some 3
    else if str_eq action (codes ":delete-backwards")
    then some 6
    else if str_eq action (codes ":delete-to-end-of-line")
    then some 8
    else if str_eq action (codes ":go-to-end-of-line")
    then some 4
    else if str_eq action (codes ":clear-screen")
    then some 9
    else if str_eq action (codes ":next-line")
    then some 11
    else if str_eq action (codes ":previous-line")
    then some 12
    else if str_eq action (codes ":transpose-characters")
    then some 13
    else if str_eq action (codes ":undo-typing-on-line")
    then some 14
    else if str_eq action (codes ":delete-previous-word")
    then some 15
    else if str_eq action (codes ":reverse-i-search")
    then some 18
    else if str_eq action (codes ":cancel-search")
    then some 19
    else if str_eq action (codes ":finish-search")
    then some 20
    else none

abbrev control_of : Option ℕ → Option ℕ
control_of none = none
control_of (some c) = if leb b'a' c && leb c b'z' then some (c - b'a' + 1) else none

-- `none` is the result -1.
unfoldable pub key_code_for : Bytes → Option ℕ
key_code_for key_name =
    if str_has_prefix key_name (codes ":ctrl-") && length key_name == 7
    then control_of (get_elem? key_name 6)
    else none

-- The node types that `emit` tells apart. `CLJ_END` alone is a type that the reader never emits:
-- it closes a map by `CLJ_MAP | CLJ_END`, which is `other` here.
pub data NodeType : Type 0 where
  map_begin end_flag keyword other : NodeType

-- `value` is what `wcstombs` leaves in `buffer`.
pub record Node : Type 0 where
  pub type : NodeType
  pub value : Bytes

-- What is printed on stderr, after the path of the file.
pub data Complaint : Type 0 where
  unrecognized_key unrecognized_value : Bytes → Complaint
  read_error : Bytes → Complaint

-- `last_id` is `none` for -2 and `some none` for -1. `entries` are the calls of
-- `linenoiseSetKeymapEntry`, in order.
pub record Keymap : Type 0 where
  pub last_id : Option (Option ℕ)
  pub in_map : Bool
  pub entries : List (ℕ × ℕ)
  pub stderr : List Complaint

abbrev pub initial : Keymap
initial = record { last_id = none; in_map = false; entries = []; stderr = [] }

pub set_entry : Option ℕ → Option ℕ → List (ℕ × ℕ)
set_entry (some id) (some code) = (id, code) ∷ []
set_entry _ _ = []

abbrev complain_if_none : Option ℕ → Complaint → List Complaint
complain_if_none none c = c ∷ []
complain_if_none (some _) c = []

pub emit_keyword : Option (Option ℕ) → Bytes → Keymap → Keymap
unfolding set_entry
emit_keyword none buffer k =
    let id = id_for_key_map_action buffer in
    record k {
      last_id = some id;
      stderr = k.stderr ++ complain_if_none id (unrecognized_key buffer);
    }
emit_keyword (some id) buffer k =
    let key_code = key_code_for buffer in
    record k {
      last_id = none;
      entries = k.entries ++ set_entry id key_code;
      stderr = k.stderr ++ complain_if_none key_code (unrecognized_value buffer);
    }

abbrev emit_as : NodeType → Bytes → Keymap → Keymap
emit_as map_begin buffer k = record k { in_map = true }
emit_as end_flag buffer k = record k { in_map = false }
emit_as keyword buffer k = emit_keyword k.last_id buffer k
emit_as other buffer k = k

unfoldable pub emit : Node → Keymap → Keymap
unfolding emit_keyword
emit n k = emit_as n.type n.value k

unfoldable pub emit_all : List Node → Keymap → Keymap
unfolding emit
emit_all [] k = k
emit_all (n ∷ ns) k = emit_all ns (emit n k)

-- What the calls of `clj_read` do until the loop ends: the nodes that each emits, and a result
-- CLJ_MORE, CLJ_EOF or an error with its message.
pub data Reads : Type 0 where
  more : List Node → Reads → Reads
  eof : List Node → Reads
  failed : List Node → Bytes → Reads

pub read_loop : Reads → Keymap → Keymap × Bool
unfolding emit_all
read_loop (more nodes rest) k = read_loop rest (emit_all nodes k)
read_loop (eof nodes) k = (emit_all nodes k, true)
read_loop (failed nodes message) k =
    let k' = emit_all nodes k in
    (record k' { stderr = k'.stderr ++ read_error message ∷ [] }, false)

-- The argument is `none` if the file cannot be opened; `true` is EXIT_SUCCESS.
unfoldable pub load_keymap : Option Reads → Keymap → Keymap × Bool
unfolding read_loop
load_keymap none k = (k, true)
load_keymap (some reads) k = read_loop reads k
