-- ===== src/Load/Jar.antt =====
-- functions.c: `function_load_from_jar`, once its arguments are checked, and `function_load_all_files`
-- against what each entry of the class path offers.
use planck.Archive.{Zip, Zipped, open_archive, get_contents_zip}
use planck.Config.{src, jar, PathType, SrcPath}
use planck.Memory.{c_string}
use planck.Load.{
  Places, collect, function_load_all_files, url_of, with_url, source_of, is_open, zipped,
  collect_in, in_type, look_in, Search, start_search,
}
use planck.Load.Place.{entry_of, offer_of, Reads, get_contents_zip-Reads}
use planck.Prelude.{
  ℕ, ◌≡◌, refl, sym, ap, ◌∙◌, Bool, true, false, ◌&&◌, Option, none, some, List, [], ◌∷◌, ◌++◌, map,
  Bytes, ◌⊎◌, take, subst, codes, if◌then◌else◌, arith, inl, inr, Bool-cases,
}

-- A JavaScript string, or an array of the bytes.
pub data Contents : Type 0 where
  text : Bytes → Contents
  array : Bytes → Contents

abbrev pub contents_from : Bool → Bytes → Contents
contents_from convert_to_string payload =
    if convert_to_string then text (c_string payload) else array payload

abbrev or_message : Option Bytes → Bytes → Option Bytes
or_message none message = some message
or_message (some m) message = some m

abbrev from_entry : Option Bytes → Option Bytes → Bool → Option Contents × Option Bytes
from_entry none error_msg convert_to_string =
    (none, or_message error_msg (codes "Resource not found in JAR"))
from_entry (some payload) error_msg convert_to_string =
    (some (contents_from convert_to_string payload), error_msg)

-- The array of two that is returned, `none` for null.
unfoldable pub function_load_from_jar : Zip → Bytes → Bytes → Bool → Option Contents × Option Bytes
function_load_from_jar zip jar_path resource_path convert_to_string =
    let (archive, error_msg) = open_archive zip jar_path in
    let contents = get_contents_zip zip resource_path in
    if archive
    then from_entry contents.payload contents.error_msg convert_to_string
    else (none, or_message error_msg (codes "Failed to open JAR"))

abbrev entry_if : Zip → Bytes → Bool → Option (Bytes × ℕ)
entry_if zip name opened = if opened then entry_of zip name else none

abbrev pub entry_in : Zip → Bytes → Option (Bytes × ℕ)
entry_in zip name = entry_if zip name zip.opens

or_message-some : (o : Option Bytes) (m : Bytes) → (x : Bytes) × (or_message o m ≡ some x)
or_message-some none m = (m, refl)
or_message-some (some x) m = (x, refl)

no_payload :
    (archive : Bool) (error_msg : Option Bytes) (contents : Zipped) (convert : Bool)
    → (archive ≡ true → contents.payload ≡ none)
    → (message : Bytes) × ((if archive
          then from_entry contents.payload contents.error_msg convert
          else (none, or_message error_msg (codes "Failed to open JAR")))
        ≡ (none, some message))
no_payload true error_msg contents convert h =
    let (m, e) = or_message-some contents.error_msg (codes "Resource not found in JAR") in
    (m, rw (h refl) (rw e refl))
no_payload false error_msg contents convert h =
    let (m, e) = or_message-some error_msg (codes "Failed to open JAR") in (m, rw e refl)

no_entry :
    (zip : Zip) (jar_path name : Bytes)
    → entry_in zip name ≡ none
    → (open_archive zip jar_path).0 ≡ true
    → (get_contents_zip zip name).payload ≡ none
unfolding open_archive
no_entry zip jar_path name h is_op = elim (Bool-cases zip.opens) [
  | inl opens ↦ (get_contents_zip-Reads zip name).missing (sym (ap (entry_if zip name) opens) ∙ h)
  | inr shut ↦ let e = rw shut at is_op in cc
]

-- The array of two for an entry that can be read, or for none.
abbrev pub LoadedFrom : Bool → Option (Bytes × ℕ) → Option Contents × Option Bytes → Type 0
LoadedFrom convert (some (bytes, time)) r = r ≡ (some (contents_from convert bytes), none)
LoadedFrom convert none r = (message : Bytes) × (r ≡ (none, some message))

-- The contents are returned with no message where the JAR opens and its entry can be read, as a
-- string up to its first zero or as all its bytes; else a message is returned and no contents.
pub function_load_from_jar-LoadedFrom :
    (zip : Zip) (jar_path name : Bytes) (convert : Bool)
    → LoadedFrom convert (entry_in zip name) (function_load_from_jar zip jar_path name convert)
function_load_from_jar-LoadedFrom zip jar_path name convert = by_entry (entry_in zip name) refl
  where
    by_entry :
        (o : Option (Bytes × ℕ))
        → entry_in zip name ≡ o
        → LoadedFrom convert o (function_load_from_jar zip jar_path name convert)
    by_entry (some (bytes, time)) h =
        unfold function_load_from_jar open_archive get_contents_zip in ground arith
    by_entry none h =
        unfold function_load_from_jar in
        no_payload (open_archive zip jar_path).0 (open_archive zip jar_path).1
          (get_contents_zip zip name) convert (no_entry zip jar_path name h)

module _ (places : Places) where
  -- What one entry of the class path adds: the resource it offers, under its URL.
  abbrev pub offered : SrcPath → Bytes → List (Bytes × Bytes)
  offered s filename =
      if s.blacklisted
      then []
      else with_url (url_of s.type s filename) (source_of (offer_of places s.type s filename))

  abbrev pub all_offered : List SrcPath → Bytes → List (Bytes × Bytes)
  all_offered [] filename = []
  all_offered (s ∷ ss) filename = offered s filename ++ all_offered ss filename

  zipped-source_of :
      (zip : Zip) (name : Bytes)
      → (get_contents_zip zip name).payload ≡ source_of (entry_of zip name)
  zipped-source_of zip name = by_entry (entry_of zip name) (get_contents_zip-Reads zip name)
    where
      by_entry :
          (o : Option (Bytes × ℕ))
          → Reads zip name o
          → (get_contents_zip zip name).payload ≡ source_of o
      by_entry none r = r.missing refl
      by_entry (some (bytes, time)) r = (r.read bytes time refl).0

  collect-offered :
      (s : SrcPath) (filename : Bytes) → (collect places s filename).1 ≡ offered s filename
  unfolding collect
  collect-offered s filename = by_mark s.blacklisted
    where
      from_jar :
          (there opened : Bool)
          → (if there && opened
              then with_url (url_of jar s filename) (zipped places s filename).payload
              else [])
            ≡ with_url (url_of jar s filename) (
                source_of (if there && opened then entry_of (places.zip s.path) filename else none))
      from_jar false opened = refl
      from_jar true false = refl
      from_jar true true =
          ap (with_url (url_of jar s filename)) (zipped-source_of (places.zip s.path) filename)

      by_type :
          (t : PathType)
          → (collect_in places t s filename).1
            ≡ with_url (url_of t s filename) (source_of (offer_of places t s filename))
      by_type src = refl
      by_type jar = from_jar (places.stat s.path) (is_open places s)

      by_mark :
          (blacklisted : Bool)
          → (if blacklisted then (s, []) else collect_in places s.type s filename).1 ≡ (
              if blacklisted
              then []
              else with_url
                  (url_of s.type s filename)
                  (source_of (offer_of places s.type s filename)))
      by_mark true = refl
      by_mark false = by_type s.type

  collect-look_in :
      (s : SrcPath) (filename : Bytes) (v : Search)
      → (collect places s filename).0 ≡ (look_in places s filename v).0
  unfolding collect look_in
  collect-look_in s filename v = by_mark s.blacklisted
    where
      by_type :
          (t : PathType) → (collect_in places t s filename).0 ≡ (in_type places t s filename v).0
      by_type src = refl
      by_type jar = refl

      by_mark :
          (blacklisted : Bool)
          → (if blacklisted then (s, []) else collect_in places s.type s filename).0
            ≡ (if blacklisted then (s, v) else in_type places s.type s filename v).0
      by_mark true = refl
      by_mark false = by_type s.type

  -- What is found, and how the entries are left, each as a search in it alone leaves it.
  function_load_all_files_lem :
      (ss : List SrcPath) (filename : Bytes) (v : Search)
      → function_load_all_files places ss filename
        ≡ (map (λ s. (look_in places s filename v).0) ss, all_offered ss filename)
  unfolding function_load_all_files
  function_load_all_files_lem [] filename v = refl
  function_load_all_files_lem (s ∷ ss) filename v =
      rw (function_load_all_files_lem ss filename v)
        (rw (collect-offered s filename) (rw (collect-look_in s filename v) refl))

  -- What one entry of the class path contributes, with a URL cut at 1023 bytes and the text up to its
  -- first zero.
  pub data Contributes (s : SrcPath) (filename : Bytes) : List (Bytes × Bytes) → Type 0 where
    nothing :
        (s.blacklisted ≡ true) ⊎ (offer_of places s.type s filename ≡ none)
        → Contributes s filename []
    from_dir :
        {source : Bytes} {time : ℕ}
        → s.blacklisted ≡ false
        → s.type ≡ src
        → places.file (s.path ++ filename) ≡ some (source, time)
        → Contributes s filename
            ((take 1023 (codes "file://" ++ (s.path ++ filename)), c_string source) ∷ [])
    from_jar :
        {source : Bytes} {time : ℕ}
        → s.blacklisted ≡ false
        → s.type ≡ jar
        → offer_of places jar s filename ≡ some (source, time)
        → Contributes s filename (
            (
              take 1023 (codes "jar:file://" ++ (s.path ++ (codes "!/" ++ filename))),
              c_string source,
            )
            ∷ [])

  -- All entries, in order.
  pub data AllContribute (filename : Bytes) : List SrcPath → List (Bytes × Bytes) → Type 0 where
    no_entries : AllContribute filename [] []
    entry :
        {s : SrcPath} {ss : List SrcPath} {es rest : List (Bytes × Bytes)}
        → Contributes s filename es
        → AllContribute filename ss rest
        → AllContribute filename (s ∷ ss) (es ++ rest)

  offered-Contributes :
      (s : SrcPath) (filename : Bytes) → Contributes s filename (offered s filename)
  offered-Contributes s filename = by_mark s.blacklisted refl
    where
      by_src :
          (o : Option (Bytes × ℕ))
          → s.blacklisted ≡ false
          → s.type ≡ src
          → places.file (s.path ++ filename) ≡ o
          → offer_of places s.type s filename ≡ o
          → Contributes s filename (with_url (url_of src s filename) (source_of o))
      by_src none m t e e' = nothing (inr e')
      by_src (some (source, time)) m t e e' = from_dir m t e

      by_jar :
          (o : Option (Bytes × ℕ))
          → s.blacklisted ≡ false
          → s.type ≡ jar
          → offer_of places jar s filename ≡ o
          → offer_of places s.type s filename ≡ o
          → Contributes s filename (with_url (url_of jar s filename) (source_of o))
      by_jar none m t e e' = nothing (inr e')
      by_jar (some (source, time)) m t e e' = from_jar m t e

      by_type :
          (t : PathType)
          → s.blacklisted ≡ false
          → s.type ≡ t
          → Contributes s filename
              (with_url (url_of t s filename) (source_of (offer_of places t s filename)))
      by_type src m t = by_src _ m t refl (ap (λ t'. offer_of places t' s filename) t)
      by_type jar m t = by_jar _ m t refl (ap (λ t'. offer_of places t' s filename) t)

      by_mark :
          (blacklisted : Bool)
          → s.blacklisted ≡ blacklisted
          → Contributes s filename (
              if blacklisted
              then []
              else with_url
                  (url_of s.type s filename)
                  (source_of (offer_of places s.type s filename)))
      by_mark true m = nothing (inl m)
      by_mark false m = by_type s.type m refl

  all_offered-AllContribute :
      (ss : List SrcPath) (filename : Bytes) → AllContribute filename ss (all_offered ss filename)
  all_offered-AllContribute [] filename = no_entries
  all_offered-AllContribute (s ∷ ss) filename =
      entry (offered-Contributes s filename) (all_offered-AllContribute ss filename)

  -- Each entry of the class path contributes, in order, one pair if it offers the resource, and else
  -- nothing: a file of a directory under a URL `file://`, or an entry of a JAR that is there, opens and
  -- is not blacklisted under a URL `jar:file://`, each URL cut at 1023 bytes.
  pub function_load_all_files-AllContribute :
      (ss : List SrcPath) (filename : Bytes)
      → AllContribute filename ss (function_load_all_files places ss filename).1
  function_load_all_files-AllContribute ss filename =
      subst (AllContribute filename ss)
        (sym (
          ap (λ r. r.1)
            (function_load_all_files_lem ss filename (start_search places ss filename))))
        (all_offered-AllContribute ss filename)
