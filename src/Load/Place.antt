-- ===== src/Load/Place.antt =====
-- functions.c: what one entry of the class path offers `function_load`.
use planck.Archive.{Zip, get_contents_zip}
use planck.Config.{PathType, src, jar, SrcPath}
use planck.Memory.{c_string}
use planck.Text.{str_concat}
use planck.Load.{
  Places, Origin, found_in, Search, Loaded, result, is_open, look_in, in_src, in_jar, from_zip,
  in_type, open_message, zipped, or_else, entry_message,
}
use planck.Prelude.{
  ℕ, ◌+◌, ◌≡◌, refl, Bool, true, false, ◌&&◌, Option, none, some, [], ◌∷◌, ◌++◌, Bytes, arith,
  if◌then◌else◌,
}

abbrev pub loaded_from : Bytes → Option Origin → Option Bytes → Bytes × ℕ → Loaded
loaded_from path type location (contents, time) = record {
  contents_str = c_string contents;
  last_modified = time;
  loaded_path = path;
  loaded_type = type;
  loaded_location = location;
}

abbrev pub map_some {ℓ} : {A B : Type ℓ} → (A → B) → Option A → Option B
map_some f none = none
map_some f (some a) = some (f a)

-- An entry that can be read, with its time.
abbrev pub read_entry : Zip → Bytes → ℕ × ℕ → Option (Bytes × ℕ)
read_entry zip name (size, mtime) =
    if zip.fopen name && zip.malloc (size + 1)
    then map_some (λ bytes. (bytes, mtime)) (zip.fread name size)
    else none

abbrev pub and_then {ℓ} : {A B : Type ℓ} → Option A → (A → Option B) → Option B
and_then none f = none
and_then (some a) f = f a

abbrev pub entry_of : Zip → Bytes → Option (Bytes × ℕ)
entry_of zip name = and_then (zip.stat name) (read_entry zip name)

-- `get_contents_zip` sets the payload and the time of an entry that can be read.
pub record Reads (zip : Zip) (name : Bytes) (o : Option (Bytes × ℕ)) : Type 0 where
  pub missing : o ≡ none → (get_contents_zip zip name).payload ≡ none
  pub read :
      (bytes : Bytes) (time : ℕ)
      → o ≡ some (bytes, time)
      → ((get_contents_zip zip name).payload ≡ some bytes)
        × ((get_contents_zip zip name).last_modified ≡ some time)

pub get_contents_zip-Reads : (zip : Zip) (name : Bytes) → Reads zip name (entry_of zip name)
unfolding get_contents_zip
get_contents_zip-Reads zip name = record {
  missing = ground arith;
  read = λ bytes time. ground arith;
}

abbrev where_in : PathType → SrcPath → Bytes → Bytes
where_in src s path = str_concat s.path path
where_in jar s path = path

-- What the search leaves: the result `o`, and where that is null, the path as it was.
pub record Left (path : Bytes) (o : Option Loaded) (v : Search) : Type 0 where
  pub result_is : result v ≡ o
  pub same_path : v.contents ≡ none → v.loaded_path ≡ path

pub record Searching (path : Bytes) (v : Search) : Type 0 where
  pub nothing : v.contents ≡ none
  pub path_is : v.loaded_path ≡ path

in_src-Left :
    (s : SrcPath) (path : Bytes) (v : Search) (o : Option (Bytes × ℕ))
    → Searching path v
    → Left path
        (map_some (loaded_from (str_concat s.path path) (some (found_in src)) (some s.path)) o)
        (in_src s (str_concat s.path path) o v)
unfolding result
in_src-Left s path v none h = record { result_is = rw h.nothing; same_path = λ e. h.path_is }
in_src-Left s path v (some (c, t)) h = record { result_is = refl; same_path = λ e. cc }

abbrev jar_offer : SrcPath → Bytes → Option (Bytes × ℕ) → Option Loaded
jar_offer s path o = map_some (loaded_from path (some (found_in jar)) (some s.path)) o

module _ (places : Places) where
  -- What an entry of the class path offers: a file in a directory, or an entry of a JAR that is
  -- there and opens.
  abbrev pub offer_of : PathType → SrcPath → Bytes → Option (Bytes × ℕ)
  offer_of src s path = places.file (str_concat s.path path)
  offer_of jar s path =
      if places.stat s.path && is_open places s then entry_of (places.zip s.path) path else none

  abbrev pub offer : Bytes → SrcPath → Option Loaded
  offer path s =
      if s.blacklisted
      then none
      else map_some (loaded_from (where_in s.type s path) (some (found_in s.type)) (some s.path))
          (offer_of s.type s path)

  from_zip-Left :
      (s : SrcPath) (path : Bytes) (v : Search) (opened : Bool)
      → is_open places s ≡ opened
      → Searching path v
      → Left path
          (jar_offer s path (if opened then entry_of (places.zip s.path) path else none))
          (record (from_zip places s path v) {
            loaded_type = some (found_in jar);
            loaded_location = some s.path;
          })
  unfolding result
  from_zip-Left s path v false e h =
      rw e (record { result_is = rw h.nothing; same_path = λ e'. h.path_is })
  from_zip-Left s path v true e h = rw e (
      from_entry (entry_of (places.zip s.path) path)
        (get_contents_zip-Reads (places.zip s.path) path))
    where
      from_entry :
          (o : Option (Bytes × ℕ))
          → Reads (places.zip s.path) path o
          → Left path (jar_offer s path o) (record v {
            contents = (zipped places s path).payload;
            last_modified = or_else v.last_modified (zipped places s path).last_modified;
            printed = v.printed ++ entry_message places s path;
            loaded_type = some (found_in jar);
            loaded_location = some s.path;
          })
      from_entry none r = record { result_is = rw (r.missing refl); same_path = λ e'. h.path_is }
      from_entry (some (bytes, time)) r =
          let (payload, modified) = r.read bytes time refl in
          record {
            result_is = rw payload (rw modified (rw h.path_is));
            same_path = λ e'. h.path_is;
          }

  in_jar-Left :
      (s : SrcPath) (path : Bytes) (v : Search)
      → Searching path v
      → Left path (jar_offer s path (offer_of jar s path)) (in_jar places s path v)
  unfolding result
  in_jar-Left s path v h = by_stat (places.stat s.path)
    where
      by_stat :
          (there : Bool)
          → Left path
              (jar_offer s path
                (if there && is_open places s then entry_of (places.zip s.path) path else none))
              (if there
                then (let v' =
                      from_zip places s path
                        (record v { printed = v.printed ++ open_message places s }) in
                    record v' { loaded_type = some (found_in jar); loaded_location = some s.path })
                else record v { printed = v.printed ++ s.path ∷ [] })
      by_stat false = record { result_is = rw h.nothing; same_path = λ e. h.path_is }
      by_stat true =
          from_zip-Left s path (record v { printed = v.printed ++ open_message places s })
            (is_open places s) refl (record { nothing = h.nothing; path_is = h.path_is })

  pub look_in-Left :
      (s : SrcPath) (path : Bytes) (v : Search)
      → Searching path v
      → Left path (offer path s) (look_in places s path v).1
  unfolding look_in
  look_in-Left s path v h = by_mark s.blacklisted
    where
      by_type :
          (t : PathType)
          → Left path
              (map_some
                (loaded_from (where_in t s path) (some (found_in t)) (some s.path))
                (offer_of t s path))
              (in_type places t s path v).1
      by_type src = in_src-Left s path v (places.file (str_concat s.path path)) h
      by_type jar = in_jar-Left s path v h

      by_mark :
          (blacklisted : Bool)
          → Left path
              (if blacklisted
                then none
                else map_some
                    (loaded_from (where_in s.type s path) (some (found_in s.type)) (some s.path))
                    (offer_of s.type s path))
              (if blacklisted then (s, v) else in_type places s.type s path v).1
      by_mark true = record {
        result_is = unfold result in rw h.nothing;
        same_path = λ e. h.path_is;
      }
      by_mark false = by_type s.type
