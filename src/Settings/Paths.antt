-- ===== src/Settings/Paths.antt =====
-- `normalizePaths` of type_settings.go: every setting moves to the normal form of its name.
use Prim.Native.String.{len}
use radondb_clickhouse_opera.Base.{
  String, ◌≡◌, refl, ◌∙◌, inl, inr, Bool, true, false, not, ◌&&◌, Option, none, some, List, [], ◌∷◌,
  arith, ◌==◌, eq_iff,
}
use radondb_clickhouse_opera.Base.Tests.{eqb, if◌then◌else◌, is_some, Bool-cases}
use radondb_clickhouse_opera.Base.Lists.{contains}
use radondb_clickhouse_opera.Base.Dict.{Dict, lookup-erase, contains-keys}
use radondb_clickhouse_opera.Util.Maps.Laws.{or_else}
use radondb_clickhouse_opera.Settings.Path.{normalize_settings_key_as_path}
use radondb_clickhouse_opera.Settings.Path.Laws.{normalize_idem}
use radondb_clickhouse_opera.Settings.Path.Normal.{normalize-eq_of_len}
use radondb_clickhouse_opera.Settings.{Setting, Settings, names, has, get, set, delete}
use radondb_clickhouse_opera.Settings.Merge.{get-set}

-- "normalization changed something", judged by the lengths in bytes
changed : String → Bool
changed path = not (eqb (len (normalize_settings_key_as_path path)) (len path))

paths_to_normalize : List String → List String
unfolding changed
paths_to_normalize [] = []
paths_to_normalize (path ∷ paths) =
    let rest = paths_to_normalize paths in if changed path then path ∷ rest else rest

-- `settings.Set(normalizedPath, settings.Get(unNormalizedPath))`; the setting is there
move_found : Option Setting → Settings → String → Settings
move_found none settings path = settings
move_found (some setting) settings path = set settings (normalize_settings_key_as_path path) setting

move_one : Settings → String → Settings
unfolding move_found
move_one settings path = move_found (get settings path) settings path

move_loop : List String → Settings → Settings
unfolding move_one
move_loop [] settings = settings
move_loop (path ∷ paths) settings = move_loop paths (move_one settings path)

delete_loop : List String → Settings → Settings
delete_loop [] settings = settings
delete_loop (path ∷ paths) settings = delete_loop paths (delete settings path)

unfoldable pub normalize_paths : Settings → Settings
unfolding paths_to_normalize move_loop delete_loop
normalize_paths settings =
    let paths = paths_to_normalize (names settings) in delete_loop paths (move_loop paths settings)

-- a name that is its own normal form
abbrev pub is_normal : String → Bool
is_normal k = normalize_settings_key_as_path k == k

changed-eq : (k : String) → changed k ≡ not (is_normal k)
unfolding changed
changed-eq k = ground (arith, eq_iff (normalize_settings_key_as_path k) k, normalize-eq_of_len k)

contains-paths_to_normalize :
    (ns : List String) (k : String)
    → contains (paths_to_normalize ns) k ≡ (contains ns k && not (is_normal k))
unfolding paths_to_normalize
contains-paths_to_normalize [] k = refl
contains-paths_to_normalize (p ∷ ns) k =
    ground (arith, contains-paths_to_normalize ns k, changed-eq p, eq_iff k p)

get-delete : (s : Settings) (p k : String) → get (delete s p) k ≡ (if p == k then none else get s k)
unfolding delete get has
get-delete none p k = ground arith
get-delete (some m) p k = ground (arith, lookup-erase m p k, eq_iff p k)

get-delete_loop :
    (ps : List String) (s : Settings) (k : String)
    → get (delete_loop ps s) k ≡ (if contains ps k then none else get s k)
unfolding delete_loop
get-delete_loop [] s k = refl
get-delete_loop (p ∷ ps) s k =
    get-delete_loop ps (delete s p) k ∙ ground (arith, get-delete s p k, eq_iff p k, eq_iff k p)

get-move_found :
    (o : Option Setting) (m : Dict Setting) (p k : String)
    → get (move_found o (some m) p) k
      ≡ or_else (if normalize_settings_key_as_path p == k then o else none) (get (some m) k)
unfolding move_found
get-move_found none m p k = ground arith
get-move_found (some v) m p k = ground (arith, get-set m (normalize_settings_key_as_path p) k v)

get-move_one :
    (s : Settings) (p k : String)
    → get (move_one s p) k
      ≡ or_else (if normalize_settings_key_as_path p == k then get s p else none) (get s k)
get-move_one none p k = unfold move_one get in ground arith
get-move_one (some m) p k = unfold move_one in get-move_found (get (some m) p) m p k

contains-names : (s : Settings) (k : String) → contains (names s) k ≡ is_some (get s k)
unfolding get
contains-names none k = refl
contains-names (some m) k = contains-keys m k

-- the value that the moves write under `k`: that of the last name whose normal form is `k`
abbrev pub moved : (String → Option Setting) → List String → String → Option Setting
moved value [] k = none
moved value (p ∷ ps) k =
    or_else (moved value ps k)
      (if not (is_normal p) && normalize_settings_key_as_path p == k then value p else none)

moved-cong :
    (f g : String → Option Setting) (ps : List String) (k : String)
    → ((q : String) → is_normal q ≡ false → f q ≡ g q)
    → moved f ps k ≡ moved g ps k
moved-cong f g [] k h = refl
moved-cong f g (p ∷ ps) k h = ground (arith, moved-cong f g ps k h, h p)

moved-paths_to_normalize :
    (value : String → Option Setting) (ns : List String) (k : String)
    → moved value (paths_to_normalize ns) k ≡ moved value ns k
unfolding paths_to_normalize
moved-paths_to_normalize value [] k = refl
moved-paths_to_normalize value (p ∷ ns) k =
    ground (arith, moved-paths_to_normalize value ns k, changed-eq p)

is_normal-normalize : (p : String) → is_normal (normalize_settings_key_as_path p) ≡ true
is_normal-normalize p = (eq_iff _ _).1 (normalize_idem p).0

moved-not_normal :
    (value : String → Option Setting) (ns : List String) (k : String)
    → is_normal k ≡ false
    → moved value ns k ≡ none
moved-not_normal value [] k h = refl
moved-not_normal value (p ∷ ns) k h = ground (
  arith,
  moved-not_normal value ns k h,
  is_normal-normalize p,
  eq_iff (normalize_settings_key_as_path p) k,
)

abbrev AllChanged : List String → Type 0
AllChanged [] = Unit
AllChanged (p ∷ ps) = (is_normal p ≡ false) × AllChanged ps

AllChanged-paths_to_normalize : (ns : List String) → AllChanged (paths_to_normalize ns)
unfolding paths_to_normalize
AllChanged-paths_to_normalize [] = tt
AllChanged-paths_to_normalize (p ∷ ns) = elim (Bool-cases (changed p)) [
  | inl e ↦ rw e (ground (arith, changed-eq p), AllChanged-paths_to_normalize ns)
  | inr e ↦ rw e (AllChanged-paths_to_normalize ns)
]

-- a move writes a normal name, so it changes the value of no other kind of name
move_one-other :
    (s : Settings) (p q : String) → is_normal q ≡ false → get (move_one s p) q ≡ get s q
move_one-other s p q h =
    ground (
      arith,
      get-move_one s p q,
      is_normal-normalize p,
      eq_iff (normalize_settings_key_as_path p) q,
    )

get-move_loop :
    (ps : List String) (s : Settings) (k : String)
    → AllChanged ps
    → get (move_loop ps s) k ≡ or_else (moved (get s) ps k) (get s k)
unfolding move_loop
get-move_loop [] s k h = refl
get-move_loop (p ∷ ps) s k h =
    get-move_loop ps (move_one s p) k h.1
    ∙ ground (
      arith,
      moved-cong (get (move_one s p)) (get s) ps k (move_one-other s p),
      get-move_one s p k,
      h.0,
    )

-- After normalisation of paths a name that is not in normal form has no value, and a normal name
-- has the value of the last walked name that was not normal and has it as its normal form, or else
-- its own.
pub get-normalize_paths :
    (s : Settings) (k : String)
    → get (normalize_paths s) k
      ≡ (if is_normal k then or_else (moved (get s) (names s) k) (get s k) else none)
unfolding normalize_paths
get-normalize_paths s k =
    let ps = paths_to_normalize (names s) in
    get-delete_loop ps (move_loop ps s) k
    ∙ ground (
      arith,
      contains-paths_to_normalize (names s) k,
      get-move_loop ps s k (AllChanged-paths_to_normalize (names s)),
      moved-paths_to_normalize (get s) (names s) k,
      moved-not_normal (get s) (names s) k,
      contains-names s k,
    )

eq_nil_of_contains : (xs : List String) → ((k : String) → contains xs k ≡ false) → xs ≡ []
eq_nil_of_contains [] h = refl
eq_nil_of_contains (x ∷ xs) h = absurd (ground (arith, h x, eq_iff x x))

nothing_to_do :
    (s : Settings) → ((k : String) → is_normal k ≡ false → get s k ≡ none) → normalize_paths s ≡ s
unfolding normalize_paths
nothing_to_do s h = rw (eq_nil_of_contains (paths_to_normalize (names s)) none_listed)
  where
    none_listed : (k : String) → contains (paths_to_normalize (names s)) k ≡ false
    none_listed k = ground (arith, contains-paths_to_normalize (names s) k, contains-names s k, h k)

-- Normalising the paths of settings again changes nothing.
pub normalize_paths_idem : (s : Settings) → normalize_paths (normalize_paths s) ≡ normalize_paths s
normalize_paths_idem s =
    nothing_to_do (normalize_paths s) (λ k h. ground (arith, get-normalize_paths s k))
