-- ===== src/Keymap/Entries.antt =====
-- keymap.c: which entries reach linenoise.
use planck.Prelude.{
  ℕ, ◌≤◌, ◌≡◌, refl, sym, ap, ◌∙◌, true, Option, none, some, List, [], ◌∷◌, ◌++◌, arith, Bytes,
  codes, ◌+◌, if◌then◌else◌, str_eq, Option-cases, Bool-cases, inl, inr, subst, append-nil,
  append_assoc,
}
use planck.Text.{str_has_prefix}
use planck.Text.Affix.{str_has_prefix_iff}
use planck.Keymap.{
  id_for_key_map_action, key_code_for, Node, NodeType, map_begin, end_flag, keyword, other, Keymap,
  initial, set_entry, emit_keyword, emit, emit_all, Reads, more, eof, failed, read_loop,
  load_keymap,
}

-- An entry that linenoise can hold: one of its 21 actions, bound to Ctrl-A to Ctrl-Z.
abbrev pub IsBinding : ℕ × ℕ → Type 0
IsBinding e = (e.0 ≤ 20) × (1 ≤ e.1) × (e.1 ≤ 26)

abbrev pub All : List (ℕ × ℕ) → Type 0
All [] = Unit
All (e ∷ es) = IsBinding e × All es

All-append : (xs ys : List (ℕ × ℕ)) → All xs → All ys → All (xs ++ ys)
All-append [] ys hx hy = hy
All-append (x ∷ xs) ys hx hy = (hx.0, All-append xs ys hx.1 hy)

id_bound : (action : Bytes) {id : ℕ} → id_for_key_map_action action ≡ some id → id ≤ 20
unfolding id_for_key_map_action
id_bound action h = ground arith

code_bound : (name : Bytes) {code : ℕ} → key_code_for name ≡ some code → (1 ≤ code) × (code ≤ 26)
unfolding key_code_for
code_bound name h = ground arith

abbrev IdBound : Option (Option ℕ) → Type 0
IdBound (some (some id)) = id ≤ 20
IdBound _ = Unit

record Inv (k : Keymap) : Type 0 where
  id : IdBound k.last_id
  entries : All k.entries

set_entry-All :
    (id code : Option ℕ)
    → IdBound (some id)
    → ((c : ℕ) → code ≡ some c → (1 ≤ c) × (c ≤ 26))
    → All (set_entry id code)
unfolding set_entry
set_entry-All (some id) (some code) h g = ((h, (g code refl).0, (g code refl).1), tt)
set_entry-All none code h g = tt
set_entry-All (some id) none h g = tt

id-IdBound : (o : Option ℕ) → ((id : ℕ) → o ≡ some id → id ≤ 20) → IdBound (some o)
id-IdBound none h = tt
id-IdBound (some id) h = h id refl

emit_keyword-Inv :
    (last : Option (Option ℕ)) (buffer : Bytes) (k : Keymap)
    → IdBound last
    → All k.entries
    → Inv (emit_keyword last buffer k)
unfolding emit_keyword
emit_keyword-Inv none buffer k h es = record {
  id = id-IdBound (id_for_key_map_action buffer) (λ id e. id_bound buffer e);
  entries = es;
}
emit_keyword-Inv (some id) buffer k h es = record {
  id = tt;
  entries =
      All-append k.entries _ es
        (set_entry-All id (key_code_for buffer) h (λ c e. code_bound buffer e));
}

emit-Inv : (n : Node) (k : Keymap) → Inv k → Inv (emit n k)
unfolding emit
emit-Inv n k v = by_type n.type
  where
    by_type : (t : NodeType) → Inv (emit (record { type = t; value = n.value }) k)
    by_type map_begin = record { id = v.id; entries = v.entries }
    by_type end_flag = record { id = v.id; entries = v.entries }
    by_type keyword = emit_keyword-Inv k.last_id n.value k v.id v.entries
    by_type other = v

emit_all-Inv : (ns : List Node) (k : Keymap) → Inv k → Inv (emit_all ns k)
unfolding emit_all
emit_all-Inv [] k v = v
emit_all-Inv (n ∷ ns) k v = emit_all-Inv ns (emit n k) (emit-Inv n k v)

read_loop-All : (r : Reads) (k : Keymap) → Inv k → All (read_loop r k).0.entries
unfolding read_loop
read_loop-All (more ns r) k v = read_loop-All r (emit_all ns k) (emit_all-Inv ns k v)
read_loop-All (eof ns) k v = (emit_all-Inv ns k v).entries
read_loop-All (failed ns message) k v = (emit_all-Inv ns k v).entries

-- Whatever the keymap file holds, also when it is malformed, every entry that is set binds one of
-- linenoise's actions to a control character between 1 and 26.
pub load_keymap-All : (file : Option Reads) → All (load_keymap file initial).0.entries
unfolding load_keymap
load_keymap-All none = tt
load_keymap-All (some r) = read_loop-All r initial (record { id = tt; entries = tt })

-- The nodes of a map whose keys and values are keywords.
abbrev pub pair_nodes : List (Bytes × Bytes) → List Node
pair_nodes [] = []
pair_nodes ((key, value) ∷ rest) =
    record { type = keyword; value = key }
    ∷ record { type = keyword; value = value }
    ∷ pair_nodes rest

-- The actions by their names, with their numbers in linenoise.h.
abbrev pub known_actions : List (Bytes × ℕ)
known_actions =
    (codes ":go-to-beginning-of-line", 0)
    ∷ (codes ":go-back-one-space", 1)
    ∷ (codes ":go-forward-one-space", 5)
    ∷ (codes ":delete-right", 3)
    ∷ (codes ":delete-backwards", 6)
    ∷ (codes ":delete-to-end-of-line", 8)
    ∷ (codes ":go-to-end-of-line", 4)
    ∷ (codes ":clear-screen", 9)
    ∷ (codes ":next-line", 11)
    ∷ (codes ":previous-line", 12)
    ∷ (codes ":transpose-characters", 13)
    ∷ (codes ":undo-typing-on-line", 14)
    ∷ (codes ":delete-previous-word", 15)
    ∷ (codes ":reverse-i-search", 18)
    ∷ (codes ":cancel-search", 19)
    ∷ (codes ":finish-search", 20)
    ∷ []

abbrev pub action_in : List (Bytes × ℕ) → Bytes → Option ℕ
action_in [] key = none
action_in ((name, id) ∷ rest) key = if str_eq key name then some id else action_in rest key

id_for_key_map_action_lem : (key : Bytes) → id_for_key_map_action key ≡ action_in known_actions key
unfolding id_for_key_map_action
id_for_key_map_action_lem key = refl

-- `:ctrl-` and one letter from a to z.
abbrev pub IsControl : Bytes → ℕ → Type 0
IsControl name code =
    (c : ℕ) × (name ≡ codes ":ctrl-" ++ c ∷ []) × (b'a' ≤ c) × (c ≤ b'z') × (code + 96 ≡ c)

-- What a pair sets: an entry where its key is the name of an action and its value a control
-- character, and else nothing.
pub data Sets (key value : Bytes) : List (ℕ × ℕ) → Type 0 where
  entry :
      {id code : ℕ}
      → action_in known_actions key ≡ some id
      → IsControl value code
      → Sets key value ((id, code) ∷ [])
  unknown_action : action_in known_actions key ≡ none → Sets key value []
  no_control : ((code : ℕ) → ¬ IsControl value code) → Sets key value []

-- The entries that pairs set, in order.
pub data AllSet : List (Bytes × Bytes) → List (ℕ × ℕ) → Type 0 where
  no_pairs : AllSet [] []
  pair :
      {key value : Bytes} {es rest : List (ℕ × ℕ)} {ps : List (Bytes × Bytes)}
      → Sets key value es
      → AllSet ps rest
      → AllSet ((key, value) ∷ ps) (es ++ rest)

letter_behind :
    (rest : Bytes) {code : ℕ}
    → key_code_for (codes ":ctrl-" ++ rest) ≡ some code
    → IsControl (codes ":ctrl-" ++ rest) code
unfolding key_code_for
letter_behind [] e = absurd (ground arith)
letter_behind (c ∷ []) {code} e =
    let (low, high, at) : (b'a' ≤ c) × (c ≤ b'z') × (code + 96 ≡ c) = ground arith in
    (c, refl, low, high, at)
letter_behind (c ∷ d ∷ rest) e = absurd (ground arith)

key_code_for_sound : (name : Bytes) {code : ℕ} → key_code_for name ≡ some code → IsControl name code
unfolding key_code_for
key_code_for_sound name {code} e = elim (Bool-cases (str_has_prefix name (codes ":ctrl-"))) [
  | inl control ↦
      let (rest, f) = (str_has_prefix_iff name (codes ":ctrl-")).0 control in
      subst (λ n. IsControl n code) (sym f) (letter_behind rest (ap key_code_for (sym f) ∙ e))
  | inr other_key ↦ let no = rw other_key at e in absurd cc
]

key_code_for_complete :
    (name : Bytes) {code : ℕ} → IsControl name code → key_code_for name ≡ some code
unfolding key_code_for str_has_prefix str_eq
key_code_for_complete name (c, e, low, high, at) = rw e (ground arith)

abbrev bindings : List (Bytes × Bytes) → List (ℕ × ℕ)
bindings [] = []
bindings ((key, value) ∷ rest) =
    set_entry (id_for_key_map_action key) (key_code_for value) ++ bindings rest

set_entry-Sets :
    (key value : Bytes)
    → Sets key value (set_entry (id_for_key_map_action key) (key_code_for value))
unfolding set_entry
set_entry-Sets key value = elim (Option-cases (id_for_key_map_action key)) [
  | inl unknown ↦ rw unknown (unknown_action (sym (id_for_key_map_action_lem key) ∙ unknown))
  | inr (id, known) ↦ elim (Option-cases (key_code_for value)) [
    | inl no_code ↦
        rw (known, no_code)
          (no_control (λ code w. let no = sym no_code ∙ key_code_for_complete value w in absurd cc))
    | inr (code, is_code) ↦
        rw (known, is_code)
          (entry (sym (id_for_key_map_action_lem key) ∙ known) (key_code_for_sound value is_code))
  ]
]

bindings-AllSet : (ps : List (Bytes × Bytes)) → AllSet ps (bindings ps)
bindings-AllSet [] = no_pairs
bindings-AllSet ((key, value) ∷ ps) = pair (set_entry-Sets key value) (bindings-AllSet ps)

emit_pairs :
    (ps : List (Bytes × Bytes)) (k : Keymap)
    → k.last_id ≡ none
    → (emit_all (pair_nodes ps) k).entries ≡ k.entries ++ bindings ps
unfolding emit_all
emit_pairs [] k h = sym (append-nil k.entries)
emit_pairs ((key, value) ∷ rest) k h = rw h (emit_pairs rest _ refl ∙ append_assoc k.entries _ _)

emit_all-append :
    (xs ys : List Node) (k : Keymap) → emit_all (xs ++ ys) k ≡ emit_all ys (emit_all xs k)
unfolding emit_all
emit_all-append [] ys k = refl
emit_all-append (x ∷ xs) ys k = emit_all-append xs ys (emit x k)

-- The nodes that the reader emits for `{key value ...}`.
abbrev pub map_nodes : List (Bytes × Bytes) → List Node
map_nodes ps =
    record { type = map_begin; value = codes "{" }
    ∷ (pair_nodes ps ++ record { type = other; value = codes "}" } ∷ [])

emit_close :
    (k : Keymap)
    → (emit_all (record { type = other; value = codes "}" } ∷ []) k).entries ≡ k.entries
unfolding emit_all
emit_close k = refl

emit_open :
    (ns : List Node) (k : Keymap)
    → emit_all (record { type = map_begin; value = codes "{" } ∷ ns) k
      ≡ emit_all ns (record k { in_map = true })
unfolding emit_all
emit_open ns k = refl

load_one :
    (ns : List Node)
    → (load_keymap (some (more ns (eof []))) initial).0.entries ≡ (emit_all ns initial).entries
unfolding load_keymap
load_one ns = refl

load_keymap_lem :
    (ps : List (Bytes × Bytes))
    → (load_keymap (some (more (map_nodes ps) (eof []))) initial).0.entries ≡ bindings ps
load_keymap_lem ps =
    load_one (map_nodes ps)
    ∙ ap (λ k. k.entries) (emit_open _ initial ∙ emit_all-append (pair_nodes ps) _ _)
    ∙ emit_close _
    ∙ emit_pairs ps (record initial { in_map = true }) refl

-- A file that holds one map of keywords sets, in the order of the file, an entry for each pair of the
-- name of an action and a control character, with the action's number in linenoise.h and the
-- character's code, and no other: a key or a value that is not recognized does not disturb the pairs
-- behind it.
pub load_keymap-AllSet :
    (ps : List (Bytes × Bytes))
    → AllSet ps (load_keymap (some (more (map_nodes ps) (eof []))) initial).0.entries
load_keymap-AllSet ps = subst (AllSet ps) (sym (load_keymap_lem ps)) (bindings-AllSet ps)
