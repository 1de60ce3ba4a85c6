-- ===== src/Settings/Select.antt =====
-- `Filter` of type_settings.go: the settings of some sections.
use radondb_clickhouse_opera.Base.{
  String, ◌≡◌, refl, ap, ◌∙◌, not, ◌&&◌, Bool, true, false, ◌||◌, Option, none, some, List, [], ◌∷◌,
  arith,
}
use radondb_clickhouse_opera.Base.Tests.{if◌then◌else◌}
use radondb_clickhouse_opera.Base.Dict.{Dict, lookup-nil}
use radondb_clickhouse_opera.Settings.Path.{
  Section, Answer, ok, failed, no_section_specified, unknown_section, no_filename_specified,
  get_section_from_path,
}
use radondb_clickhouse_opera.Settings.{
  Setting, Settings, get, in_array, merge_cb_loop, keeps, filter_loop, filter,
}
use radondb_clickhouse_opera.Settings.Sections.{is_section, same_section-eq}
use radondb_clickhouse_opera.Settings.Merge.{IsMap, get-merge_cb_loop}

filter_loop-eq :
    (m : Dict Setting) (keep : String → Bool) (res : Settings)
    → filter_loop m keep res ≡ merge_cb_loop m (λ k v. keep k) res
unfolding filter_loop merge_cb_loop
filter_loop-eq [] keep res = refl
filter_loop-eq ((k, v) ∷ m) keep res = filter_loop-eq m keep _

filtered :
    (settings : Settings) (include exclude : Option (List Section)) (u : Bool) (k : String)
    → IsMap settings
    → get (filter settings include exclude u) k
      ≡ (if keeps include exclude u (get_section_from_path k) then get settings k else none)
unfolding filter
filtered none include exclude u k h = unfold get in ground (arith, lookup-nil {V = Setting} k)
filtered (some m) include exclude u k h = rw filter_loop-eq (
    get-merge_cb_loop (λ path v. keeps include exclude u (get_section_from_path path)) m [] k h
    ∙ unfold get in ground (arith, lookup-nil {V = Setting} k))

-- a section in a slice
abbrev pub lists : List Section → Section → Bool
lists [] s = false
lists (t ∷ ts) s = is_section t s || lists ts s

-- Is a section asked for? A nil slice of included sections asks for all, and one of excluded
-- sections for none to be left out.
abbrev pub asks_for : Option (List Section) → Option (List Section) → Section → Bool
asks_for none none s = true
asks_for none (some out) s = not (lists out s)
asks_for (some ins) none s = lists ins s
asks_for (some ins) (some out) s = lists ins s && not (lists out s)

-- A path without a section is selected by the flag, and one whose section is not known never.
abbrev pub selects_answer :
    Option (List Section) → Option (List Section) → Bool → Answer Section → Bool
selects_answer include exclude u (ok s) = asks_for include exclude s
selects_answer include exclude u (failed no_section_specified) = u
selects_answer include exclude u (failed e) = false

abbrev pub selects : Option (List Section) → Option (List Section) → Bool → String → Bool
selects include exclude u path = selects_answer include exclude u (get_section_from_path path)

in_array-lists : (s : Section) (ts : List Section) → in_array s ts ≡ lists ts s
unfolding in_array
in_array-lists s [] = refl
in_array-lists s (t ∷ ts) = ground (arith, same_section-eq t s, in_array-lists s ts)

keeps-asks_for :
    (include exclude : Option (List Section)) (u : Bool) (s : Section)
    → keeps include exclude u (ok s) ≡ asks_for include exclude s
unfolding keeps
keeps-asks_for none none u s = refl
keeps-asks_for none (some out) u s = ap not (in_array-lists s out)
keeps-asks_for (some ins) none u s = ground (arith, in_array-lists s ins)
keeps-asks_for (some ins) (some out) u s =
    ground (arith, in_array-lists s ins, in_array-lists s out)

keeps-answer :
    (include exclude : Option (List Section)) (u : Bool) (a : Answer Section)
    → keeps include exclude u a ≡ selects_answer include exclude u a
unfolding keeps
keeps-answer include exclude u (ok s) = keeps-asks_for include exclude u s
keeps-answer include exclude u (failed no_section_specified) = refl
keeps-answer include exclude u (failed unknown_section) = refl
keeps-answer include exclude u (failed no_filename_specified) = refl

-- A filter on settings that have every name once keeps those whose path has a section that is
-- included and not excluded, where a nil slice includes all and excludes none, those without a
-- section if it is told to, and no others, with their values.
pub get-filter :
    (settings : Settings) (include exclude : Option (List Section)) (u : Bool) (k : String)
    → IsMap settings
    → get (filter settings include exclude u) k
      ≡ (if selects include exclude u k then get settings k else none)
get-filter settings include exclude u k h =
    filtered settings include exclude u k h
    ∙ ap (λ b. if b then get settings k else none)
        (keeps-answer include exclude u (get_section_from_path k))
