-- ===== src/Settings/Files.antt =====
-- `GetSectionStringMap` of type_settings.go: the files of one section.
use radondb_clickhouse_opera.Base.{
  String, ◌≡◌, refl, sym, ap, ◌∙◌, ◌↔◌, ◌⊎◌, inl, inr, Bool, true, false, ◌||◌, Option, none, some,
  List, [], ◌∷◌, arith, ◌==◌, eq_iff, eq_refl,
}
use radondb_clickhouse_opera.Base.Tests.{if◌then◌else◌, is_some, Bool-cases}
use radondb_clickhouse_opera.Base.Lists.{contains}
use radondb_clickhouse_opera.Base.Dict.{Dict, lookup, insert, keys, lookup-nil, lookup-insert}
use radondb_clickhouse_opera.Util.Maps
use radondb_clickhouse_opera.Settings.Path.{
  Section, Answer, ok, failed, no_section_specified, unknown_section, no_filename_specified,
  get_section_from_path, get_filename_from_path,
}
use radondb_clickhouse_opera.Settings.{Setting, Settings, same_section, get_value_as_scalar}
use radondb_clickhouse_opera.Settings.Sections.{same_section-eq, section_equal, is_section_refl}

-- the tests of `GetSectionStringMap` on the section of a path
wanted : Section → Bool → Answer Section → Bool
wanted section include_unspecified (ok s) = same_section s section
wanted section include_unspecified (failed no_section_specified) = include_unspecified
wanted section include_unspecified (failed e) = false

named_value : Answer String → Option String → Option (String × String)
named_value (ok filename) (some scalar) = some (filename, scalar)
named_value (ok filename) none = none
named_value (failed e) value = none

-- the file that the walk writes for a path, if any
unfoldable pub file_entry : Settings → Section → Bool → String → Option (String × String)
unfolding wanted named_value
file_entry settings section include_unspecified path =
    if wanted section include_unspecified (get_section_from_path path)
    then named_value (get_filename_from_path path) (get_value_as_scalar settings path)
    else none

add_entry : Option (String × String) → Dict String → Dict String
add_entry none m = m
add_entry (some (filename, scalar)) m = insert m filename scalar

section_loop : List String → (String → Option (String × String)) → Dict String → Dict String
unfolding add_entry
section_loop [] entry m = m
section_loop (path ∷ paths) entry m = section_loop paths entry (add_entry (entry path) m)

unfoldable pub get_section_string_map : Settings → Section → Bool → Option (Dict String)
unfolding section_loop
get_section_string_map none section include_unspecified = none
get_section_string_map (some m) section include_unspecified =
    some (section_loop (keys m) (file_entry (some m) section include_unspecified) [])

-- does the entry write this file?
abbrev writes : Option (String × String) → String → Bool
writes none f = false
writes (some (g, w)) f = g == f

abbrev any_writes : List String → (String → Option (String × String)) → String → Bool
any_writes [] entry f = false
any_writes (path ∷ paths) entry f = writes (entry path) f || any_writes paths entry f

add_entry-source :
    (o : Option (String × String)) (m : Dict String) (f v : String)
    → lookup (add_entry o m) f ≡ some v
    → (lookup m f ≡ some v) ⊎ (o ≡ some (f, v))
unfolding add_entry
add_entry-source none m f v h = inl h
add_entry-source (some (g, w)) m f v h = elim (Bool-cases (g == f)) [
  | inl e ↦ inr (ground (arith, lookup-insert m g f w, eq_iff g f))
  | inr e ↦ inl (ground (arith, lookup-insert m g f w))
]

has-add_entry :
    (o : Option (String × String)) (m : Dict String) (f : String)
    → is_some (lookup (add_entry o m) f) ≡ (is_some (lookup m f) || writes o f)
unfolding add_entry
has-add_entry none m f = ground arith
has-add_entry (some (g, w)) m f = ground (arith, lookup-insert m g f w)

module _ (entry : String → Option (String × String)) where
  section_loop-source :
      (paths : List String) (m : Dict String) (f v : String)
      → lookup (section_loop paths entry m) f ≡ some v
      → (lookup m f ≡ some v)
        ⊎ ((path : String) × (contains paths path ≡ true) × (entry path ≡ some (f, v)))
  unfolding section_loop
  section_loop-source [] m f v h = inl h
  section_loop-source (path ∷ paths) m f v h =
      elim (section_loop-source paths (add_entry (entry path) m) f v h) [
        | inl q ↦ elim (add_entry-source (entry path) m f v q) [
          | inl a ↦ inl a
          | inr b ↦ inr (path, ground (arith, eq_iff path path), b)
        ]
        | inr (p, c, e) ↦ inr (p, ground arith, e)
      ]

  has-section_loop :
      (paths : List String) (m : Dict String) (f : String)
      → is_some (lookup (section_loop paths entry m) f)
        ≡ (is_some (lookup m f) || any_writes paths entry f)
  unfolding section_loop
  has-section_loop [] m f = ground arith
  has-section_loop (path ∷ paths) m f =
      has-section_loop paths (add_entry (entry path) m) f
      ∙ ground (arith, has-add_entry (entry path) m f)

-- The path is that of a setting of the section, or of none if those are included, with this file
-- name and this scalar value.
abbrev pub IsFile : Settings → Section → Bool → String → String → String → Type 0
IsFile settings section u path f v =
    ((get_section_from_path path ≡ ok section)
      ⊎ ((get_section_from_path path ≡ failed no_section_specified) × (u ≡ true)))
    × (get_filename_from_path path ≡ ok f)
    × (get_value_as_scalar settings path ≡ some v)

wanted-section :
    (section : Section) (u : Bool) (a : Answer Section)
    → wanted section u a ≡ true
    → (a ≡ ok section) ⊎ ((a ≡ failed no_section_specified) × (u ≡ true))
unfolding wanted
wanted-section section u (ok s) h =
    inl (ap ok (section_equal s section (sym (same_section-eq s section) ∙ h)))
wanted-section section u (failed no_section_specified) h = inr (refl, h)
wanted-section section u (failed unknown_section) h = cc
wanted-section section u (failed no_filename_specified) h = cc

section-wanted :
    (section : Section) (u : Bool) (a : Answer Section)
    → (a ≡ ok section) ⊎ ((a ≡ failed no_section_specified) × (u ≡ true))
    → wanted section u a ≡ true
unfolding wanted
section-wanted section u a (inl e) =
    rw e (same_section-eq section section ∙ is_section_refl section)
section-wanted section u a (inr (e, h)) = rw e h

entry_parts :
    (b : Bool) (a : Answer String) (o : Option String) (f v : String)
    → (if b then named_value a o else none) ≡ some (f, v)
    → (b ≡ true) × (a ≡ ok f) × (o ≡ some v)
unfolding named_value
entry_parts true (ok g) (some w) f v h = (refl, cc, cc)
entry_parts true (ok g) none f v h = cc
entry_parts true (failed e) o f v h = cc
entry_parts false a o f v h = cc

entry-IsFile :
    (settings : Settings) (section : Section) (u : Bool) (path f v : String)
    → file_entry settings section u path ≡ some (f, v)
    → IsFile settings section u path f v
unfolding file_entry
entry-IsFile settings section u path f v h =
    let (b, a, o) =
      entry_parts (wanted section u (get_section_from_path path)) (get_filename_from_path path)
        (get_value_as_scalar settings path) f v h in
    (wanted-section section u (get_section_from_path path) b, a, o)

file-entry :
    (settings : Settings) (section : Section) (u : Bool) (path f v : String)
    → IsFile settings section u path f v
    → file_entry settings section u path ≡ some (f, v)
unfolding file_entry named_value
file-entry settings section u path f v (w, a, o) =
    rw (section-wanted section u (get_section_from_path path) w, a, o) refl

writes-found :
    (o : Option (String × String)) (f : String)
    → writes o f ≡ true
    → (v : String) × (o ≡ some (f, v))
writes-found none f h = cc
writes-found (some (g, w)) f h = (w, ap (λ (x : String). some (x, w)) ((eq_iff g f).0 h))

any_writes-found :
    (paths : List String) (entry : String → Option (String × String)) (f : String)
    → any_writes paths entry f ≡ true
    → (path : String) × (contains paths path ≡ true) × (v : String) × (entry path ≡ some (f, v))
any_writes-found [] entry f h = cc
any_writes-found (p ∷ paths) entry f h = elim (Bool-cases (writes (entry p) f)) [
  | inl e ↦ let (v, w) = writes-found (entry p) f e in (p, ground (arith, eq_refl p), v, w)
  | inr e ↦
      let (q, c, v, w) = any_writes-found paths entry f (ground arith) in (q, ground arith, v, w)
]

found-any_writes :
    (paths : List String) (entry : String → Option (String × String)) (path f v : String)
    → contains paths path ≡ true
    → entry path ≡ some (f, v)
    → any_writes paths entry f ≡ true
found-any_writes [] entry path f v h k = cc
found-any_writes (p ∷ paths) entry path f v h k = elim (Bool-cases (path == p)) [
  | inl e ↦
      ground (arith, ap (λ o. writes o f) (ap entry (sym ((eq_iff path p).0 e)) ∙ k), eq_refl f)
  | inr e ↦ ground (arith, found-any_writes paths entry path f v (ground arith) k)
]

-- The string map of a section has a file exactly when a path of the settings, of that section or
-- of none if those are included, has that file name and a scalar value, and each value is that of
-- such a path.
pub get_section_string_map_lem :
    (m : Dict Setting) (section : Section) (u : Bool) (f : String)
    → let result = get_section_string_map (some m) section u in
      ((is_some (Maps.get result f) ≡ true) ↔ (
        (path : String) × (contains (keys m) path ≡ true)
        × (v : String) × IsFile (some m) section u path f v))
      × ((v : String)
          → Maps.get result f ≡ some v
          → (path : String) × (contains (keys m) path ≡ true) × IsFile (some m) section u path f v)
unfolding get_section_string_map
get_section_string_map_lem m section u f =
    let entry = file_entry (some m) section u in
    let has : is_some (lookup (section_loop (keys m) entry []) f) ≡ any_writes (keys m) entry f =
      has-section_loop entry (keys m) [] f ∙ rw lookup-nil in
    (
      (
        λ h.
            let (path, c, v, e) = any_writes-found (keys m) entry f (sym has ∙ h) in
            (path, c, v, entry-IsFile (some m) section u path f v e),
        λ (path, c, v, i).
            has
            ∙ found-any_writes (keys m) entry path f v c (file-entry (some m) section u path f v i),
      ),
      λ v h. elim (section_loop-source entry (keys m) [] f v h) [
        | inl q ↦ cc (lookup-nil {V = String} f)
        | inr (path, c, e) ↦ (path, c, entry-IsFile (some m) section u path f v e)
      ],
    )
