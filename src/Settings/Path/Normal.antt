-- ===== src/Settings/Path/Normal.antt =====
-- The length of a name and of its normal form, which `normalizePaths` compares.
use Prim.Native.Char.{Char, len_utf8}
use Prim.Native.String.{[] as empty, ◌∷◌ as ◌::◌, len}
use Prim.Native.String.len
use text.Mathlib.TextPositions.{len_utf8-pos}
use radondb_clickhouse_opera.Base.{
  ℕ, suc, ◌+◌, ◌<◌, String, ◌≡◌, refl, ap, ◌∙◌, ◌⊎◌, inl, inr, Bool, false, ◌&&◌, arith, ◌==◌,
}
use radondb_clickhouse_opera.Base.Tests.{Bool-cases}
use radondb_clickhouse_opera.Settings.Path.{
  is_slash, collapse, trim_left, trim_right, normalize_settings_key_as_path,
}

len-cons : (c : Char) (s : String) → len (c :: s) ≡ len_utf8 c + len s
len-cons c s = λ i. len.cons c s i

len-nil : len "" ≡ 0
len-nil = λ i. len.nil i

-- the first text is the second one, or shorter
abbrev Shrinks : String → String → Type 0
Shrinks s t = (s ≡ t) ⊎ (len s < len t)

Shrinks-cons : (c : Char) {s t : String} → Shrinks s t → Shrinks (c :: s) (c :: t)
Shrinks-cons c (inl e) = inl (ap (λ (u : String). c :: u) e)
Shrinks-cons c {s} {t} (inr h) = inr (omega (arith, len-cons c s, len-cons c t))

Shrinks-drop : (c : Char) {s t : String} → Shrinks s t → Shrinks s (c :: t)
Shrinks-drop c {s} {t} h = let (k, e) = len_utf8-pos c in inr (shorter k e h)
  where
    shorter : (k : ℕ) → len_utf8 c ≡ suc k → Shrinks s t → len s < len (c :: t)
    shorter k e (inl p) = omega (arith, len-cons c t, ap len p)
    shorter k e (inr p) = omega (arith, len-cons c t)

Shrinks-trans : {s t u : String} → Shrinks s t → Shrinks t u → Shrinks s u
Shrinks-trans (inl p) (inl q) = inl (p ∙ q)
Shrinks-trans (inl p) (inr q) = inr (omega (arith, ap len p))
Shrinks-trans (inr p) (inl q) = inr (omega (arith, ap len q))
Shrinks-trans (inr p) (inr q) = inr (omega arith)

Shrinks-collapse : (b : Bool) (p : String) → Shrinks (collapse b p) p
unfolding collapse
Shrinks-collapse b empty = inl refl
Shrinks-collapse b (c :: p) = elim (Bool-cases (is_slash c && b)) [
  | inl h ↦ rw h (Shrinks-drop c (Shrinks-collapse (is_slash c) p))
  | inr h ↦ rw h (Shrinks-cons c (Shrinks-collapse (is_slash c) p))
]

Shrinks-trim_left : (p : String) → Shrinks (trim_left p) p
unfolding trim_left
Shrinks-trim_left empty = inl refl
Shrinks-trim_left (c :: p) = elim (Bool-cases (is_slash c)) [
  | inl h ↦ rw h (Shrinks-drop c (Shrinks-trim_left p))
  | inr h ↦ rw h (inl refl)
]

Shrinks-trim_right : (p : String) → Shrinks (trim_right p) p
unfolding trim_right
Shrinks-trim_right empty = inl refl
Shrinks-trim_right (c :: p) = elim (Bool-cases (is_slash c && trim_right p == "")) [
  | inl h ↦ rw h (inr (let (k, e) = len_utf8-pos c in omega (arith, len-cons c p)))
  | inr h ↦ rw h (Shrinks-cons c (Shrinks-trim_right p))
]

-- A name whose normal form has as many bytes as the name is in normal form.
pub normalize-eq_of_len :
    (p : String)
    → len (normalize_settings_key_as_path p) ≡ len p
    → normalize_settings_key_as_path p ≡ p
unfolding normalize_settings_key_as_path
normalize-eq_of_len p h = elim (Shrinks-normalize p) [ inl e ↦ e | inr q ↦ absurd (omega arith) ]
  where
    Shrinks-normalize : (p : String) → Shrinks (normalize_settings_key_as_path p) p
    Shrinks-normalize p =
        Shrinks-trans (Shrinks-trim_right _)
          (Shrinks-trans (Shrinks-trim_left _) (Shrinks-collapse false p))
