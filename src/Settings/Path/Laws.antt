-- ===== src/Settings/Path/Laws.antt =====
-- The normal form of a path and the parts of the path.
use Prim.Native.Char.{Char}
use Prim.Native.String.{[] as empty, ◌∷◌ as ◌::◌}
use text.Mathlib.TextEquality.{Char-path}
use text.Mathlib.TextLemmas.{nil-append, cons-append}
use text.Mathlib.TextLemmas
use radondb_clickhouse_opera.Base.{
  String, ◌<>◌, ◌≡◌, refl, sym, ap, ◌∙◌, inl, inr, Bool, true, false, not, List, [], ◌∷◌, arith,
  ◌==◌, eq_iff,
}
use radondb_clickhouse_opera.Base.Tests.{if◌then◌else◌, Bool-cases}
use radondb_clickhouse_opera.Base.Lists.{filter, AllOf}
use radondb_clickhouse_opera.Settings.Path.{
  is_slash, attach, split, collapse, trim_left, trim_right, normalize_settings_key_as_path,
}

abbrev slash : Char
slash = "/"

is_slash-eq : (c : Char) → is_slash c ≡ true → c ≡ slash
unfolding is_slash
is_slash-eq c h = Char-path c slash (ground arith)

abbrev filled : String → Bool
filled s = not (s == "")

-- the non-empty parts of a path
abbrev pub segments : String → List String
segments p = filter filled (split p)

-- `strings.Join(parts, "/")`
pub join : List String → String
join [] = ""
join (s ∷ []) = s
join (s ∷ t ∷ ss) = s <> ("/" <> join (t ∷ ss))

-- what follows the first part
tail_text : List String → String
unfolding join
tail_text [] = ""
tail_text (s ∷ ss) = "/" <> join (s ∷ ss)

first_part : List String → String
first_part [] = ""
first_part (s ∷ ss) = s

rest_parts : List String → List String
rest_parts [] = []
rest_parts (s ∷ ss) = ss

join-cons : (s : String) (ss : List String) → join (s ∷ ss) ≡ s <> tail_text ss
unfolding tail_text
join-cons s [] = sym (TextLemmas.append-nil s)
join-cons s (t ∷ ss) = refl

-- the slashes before a path do not count
trim_left-collapse : (b : Bool) (p : String) → trim_left (collapse b p) ≡ collapse true p
unfolding trim_left collapse
trim_left-collapse b empty = refl
trim_left-collapse true (c :: p) = ground (arith, trim_left-collapse true p)
trim_left-collapse false (c :: p) = ground (arith, trim_left-collapse true p)

filled-cons : (c : Char) (s : String) → filled (c :: s) ≡ true
filled-cons c s =
    ground (arith, eq_iff (c :: s) "", λ (h : c :: s ≡ ""). TextLemmas.cons-ne-nil c s h)

split-slash : (c : Char) (p : String) → is_slash c ≡ true → split (c :: p) ≡ "" ∷ split p
unfolding split
split-slash c p h = rw h

split-other : (c : Char) (p : String) → is_slash c ≡ false → split (c :: p) ≡ attach c (split p)
unfolding split
split-other c p h = rw h

filter-attach :
    (c : Char) (ps : List String)
    → filter filled (attach c ps) ≡ (c :: first_part ps) ∷ filter filled (rest_parts ps)
unfolding attach first_part rest_parts
filter-attach c [] = ground (arith, filled-cons c "")
filter-attach c (s ∷ ps) = ground (arith, filled-cons c s)

parts-attach :
    (c : Char) (ps : List String)
    → (first_part (attach c ps) ≡ c :: first_part ps) × (rest_parts (attach c ps) ≡ rest_parts ps)
unfolding attach first_part rest_parts
parts-attach c [] = (refl, refl)
parts-attach c (s ∷ ps) = (refl, refl)

collapse-other :
    (b : Bool) (c : Char) (p : String)
    → is_slash c ≡ false
    → trim_right (collapse b (c :: p)) ≡ c :: trim_right (collapse false p)
unfolding collapse trim_right
collapse-other b c p h = ground arith

-- the trimmed text behind a slash is dropped with it if it is empty
trim_slash : String → String
trim_slash rest = if rest == "" then "" else slash :: rest

collapse-slash :
    (c : Char) (p : String)
    → is_slash c ≡ true
    → (trim_right (collapse true (c :: p)) ≡ trim_right (collapse true p))
      × (trim_right (collapse false (c :: p)) ≡ trim_slash (trim_right (collapse true p)))
unfolding collapse trim_right trim_slash
collapse-slash c p h = (ground arith, ground (arith, is_slash-eq c h))

join-filled : (s : String) (ss : List String) → filled s ≡ true → (join (s ∷ ss) == "") ≡ false
join-filled empty ss h = cc
join-filled (c :: s) ss h =
    rw (join-cons, cons-append) (ground (arith, filled-cons c (s <> tail_text ss)))

slash-append : (t : String) → slash :: t ≡ "/" <> t
slash-append t = sym (cons-append slash "" t ∙ ap (λ (u : String). slash :: u) (nil-append t))

trim_slash-join :
    (ps : List String) → trim_slash (join (filter filled ps)) ≡ tail_text (filter filled ps)
trim_slash-join [] = unfold trim_slash tail_text join in refl
trim_slash-join (s ∷ ps) = elim (Bool-cases (filled s)) [
  | inl h ↦
      rw h (unfold trim_slash tail_text in rw (join-filled s (filter filled ps) h) (slash-append _))
  | inr h ↦ rw h (trim_slash-join ps)
]

-- with the flag set the parts are joined, and without it the first part stays, empty or not
trim-collapse :
    (p : String)
    → (trim_right (collapse true p) ≡ join (segments p))
      × (trim_right (collapse false p)
          ≡ first_part (split p) <> tail_text (filter filled (rest_parts (split p))))
trim-collapse empty =
    unfold collapse trim_right join split first_part rest_parts tail_text in (refl, refl)
trim-collapse (c :: p) = elim (Bool-cases (is_slash c)) [
  | inl h ↦ (
    rw (split-slash c p h) ((collapse-slash c p h).0 ∙ (trim-collapse p).0),
    rw (split-slash c p h) (
        (collapse-slash c p h).1
        ∙ ap trim_slash (trim-collapse p).0
        ∙ unfold first_part rest_parts in (trim_slash-join (split p) ∙ sym (nil-append _))),
  )
  | inr h ↦ (
    rw (split-other c p h, filter-attach)
        (collapse-other true c p h
          ∙ ap (λ (t : String). c :: t) (trim-collapse p).1
          ∙ sym (join-cons _ _ ∙ cons-append c _ _)),
    rw (split-other c p h, (parts-attach c (split p)).0, (parts-attach c (split p)).1)
        (collapse-other false c p h
          ∙ ap (λ (t : String). c :: t) (trim-collapse p).1
          ∙ sym (cons-append c _ _)),
  )
]

-- The normal form of a setting's name joins the non-empty parts of the name by single slashes.
pub normalize-eq-join : (p : String) → normalize_settings_key_as_path p ≡ join (segments p)
unfolding normalize_settings_key_as_path
normalize-eq-join p = ap trim_right (trim_left-collapse false p) ∙ (trim-collapse p).0

-- a slash cannot appear in a part
abbrev NoSlash : String → Type 0
NoSlash empty = Unit
NoSlash (c :: s) = (is_slash c ≡ false) × NoSlash s

NoSlash-attach :
    (c : Char) (ps : List String)
    → is_slash c ≡ false
    → AllOf NoSlash ps
    → AllOf NoSlash (attach c ps)
unfolding attach
NoSlash-attach c [] h k = ((h, tt), tt)
NoSlash-attach c (s ∷ ps) h k = ((h, k.0), k.1)

NoSlash-split : (p : String) → AllOf NoSlash (split p)
NoSlash-split empty = unfold split in (tt, tt)
NoSlash-split (c :: p) = elim (Bool-cases (is_slash c)) [
  | inl h ↦ rw (split-slash c p h) (tt, NoSlash-split p)
  | inr h ↦ rw (split-other c p h) (NoSlash-attach c (split p) h (NoSlash-split p))
]

-- a name is normal if it is empty or all its parts are non-empty
abbrev IsPart : String → Type 0
IsPart s = (filled s ≡ true) × NoSlash s

IsPart-filter : (ps : List String) → AllOf NoSlash ps → AllOf IsPart (filter filled ps)
IsPart-filter [] h = tt
IsPart-filter (s ∷ ps) h = elim (Bool-cases (filled s)) [
  | inl e ↦ rw e ((e, h.0), IsPart-filter ps h.1)
  | inr e ↦ rw e (IsPart-filter ps h.1)
]

-- splitting at the end of a part that has no slash
split-append_slash : (s t : String) → NoSlash s → split (s <> (slash :: t)) ≡ s ∷ split t
split-append_slash empty t h = rw nil-append (split-slash slash t (unfold is_slash in refl))
split-append_slash (c :: s) t h =
    rw cons-append (split-other c _ h.0 ∙ rw (split-append_slash s t h.1) (unfold attach in refl))

split-NoSlash : (s : String) → NoSlash s → split s ≡ s ∷ []
split-NoSlash empty h = unfold split in refl
split-NoSlash (c :: s) h = split-other c s h.0 ∙ rw (split-NoSlash s h.1) (unfold attach in refl)

segments-step :
    (s t : String) (ss : List String)
    → IsPart s
    → segments (join (s ∷ t ∷ ss)) ≡ s ∷ segments (join (t ∷ ss))
unfolding join
segments-step s t ss h = rw (← slash-append, split-append_slash s (join (t ∷ ss)) h.1) (rw h.0)

segments-join : (ss : List String) → AllOf IsPart ss → segments (join ss) ≡ ss
segments-join [] h = unfold join split in refl
segments-join (s ∷ []) h = unfold join in rw (split-NoSlash s h.0.1) (rw h.0.0)
segments-join (s ∷ t ∷ ss) h =
    segments-step s t ss h.0 ∙ ap (λ (r : List String). s ∷ r) (segments-join (t ∷ ss) h.1)

-- Normalising twice is normalising once, and keeps the list of the non-empty parts.
pub normalize_idem :
    (p : String)
    → (normalize_settings_key_as_path (normalize_settings_key_as_path p)
        ≡ normalize_settings_key_as_path p)
      × (segments (normalize_settings_key_as_path p) ≡ segments p)
normalize_idem p =
    let parts = segments-join (segments p) (IsPart-filter (split p) (NoSlash-split p)) in
    let kept : segments (normalize_settings_key_as_path p) ≡ segments p =
      ap segments (normalize-eq-join p) ∙ parts in
    (normalize-eq-join _ ∙ ap join kept ∙ sym (normalize-eq-join p), kept)
