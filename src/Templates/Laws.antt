-- ===== src/Templates/Laws.antt =====
-- The template of a name after a merge, and the template that an index has for a name.
use radondb_clickhouse_opera.Base.{
  ◌≡◌, refl, sym, ap, subst, ◌∙◌, String, Bool, true, false, inl, inr, Option, none, some, List, [],
  ◌∷◌, ◌++◌, ◌==◌, eq_iff, arith,
}
use radondb_clickhouse_opera.Base.Tests.{if◌then◌else◌, Bool-cases, is_some}
use radondb_clickhouse_opera.Base.Dict.{Dict, lookup, insert, lookup-insert}
use radondb_clickhouse_opera.Templates.{Kind, override_first, merge_template, merge_loop}
use radondb_clickhouse_opera.Templates.Index.{get, set, ensure_index, introduce}

module _ {ℓ} {T : Type ℓ} (kind : Kind T) where
  -- the first template of a name
  abbrev pub find : String → List T → Option T
  find n [] = none
  find n (t ∷ ts) = let rest = find n ts in if kind.name t == n then some t else rest

  -- the merge of what both sides have
  abbrev pub both : Option T → Option T → Option T
  both none f = f
  both (some t) none = some t
  both (some t) (some f) = some (kind.merge t f)

  -- no name stands twice
  abbrev pub AreDistinct : List T → Type 0
  AreDistinct [] = Unit
  AreDistinct (t ∷ ts) = (is_some (find (kind.name t) ts) ≡ false) × AreDistinct ts

  -- a merge of templates of one name keeps the name
  abbrev pub KeepsName : Type ℓ
  KeepsName = (t f : T) → kind.name t ≡ kind.name f → kind.name (kind.merge t f) ≡ kind.name t

  is_some-override_first :
      (f : T) (ts : List T) → (override_first kind f ts).1 ≡ is_some (find (kind.name f) ts)
  unfolding override_first
  is_some-override_first f [] = refl
  is_some-override_first f (t ∷ ts) = elim (Bool-cases (kind.name t == kind.name f)) [
    | inl e ↦ rw e refl
    | inr e ↦ rw e (is_some-override_first f ts)
  ]

  at_first :
      (f t : T) (rest : Option T) (n : String)
      → kind.name t ≡ kind.name f
      → (if kind.name t == n then some (kind.merge t f) else rest) ≡ (
          if kind.name f == n
          then both (if kind.name t == n then some t else rest) (some f)
          else (if kind.name t == n then some t else rest))
  at_first f t rest n e = elim (Bool-cases (kind.name f == n)) [
    | inl d ↦ rw (e, d) refl
    | inr d ↦ rw (e, d) refl
  ]

  after_first :
      (f t : T) (found rest : Option T) (n : String)
      → (kind.name t == kind.name f) ≡ false
      → found ≡ (if kind.name f == n then both rest (some f) else rest)
      → (if kind.name t == n then some t else found) ≡ (
          if kind.name f == n
          then both (if kind.name t == n then some t else rest) (some f)
          else (if kind.name t == n then some t else rest))
  after_first f t found rest n d e = elim (Bool-cases (kind.name t == n)) [
    | inl a ↦ elim (Bool-cases (kind.name f == n)) [
      | inl b ↦ absurd (
          ground (
            arith,
            d,
            a,
            b,
            eq_iff (kind.name t) (kind.name f),
            eq_iff (kind.name t) n,
            eq_iff (kind.name f) n,
          ))
      | inr b ↦ rw (a, b) refl
    ]
    | inr a ↦ rw (a, e) refl
  ]

  -- a template that is found is overridden
  find-override_first :
      (keeps : KeepsName) (f : T) (ts : List T) (n : String)
      → is_some (find (kind.name f) ts) ≡ true
      → find n (override_first kind f ts).0
        ≡ (if kind.name f == n then both (find n ts) (some f) else find n ts)
  unfolding override_first
  find-override_first keeps f [] n h = cc
  find-override_first keeps f (t ∷ ts) n h = elim (Bool-cases (kind.name t == kind.name f)) [
    | inl e ↦
        let same : kind.name t ≡ kind.name f = (eq_iff (kind.name t) (kind.name f)).0 e in
        rw (e, keeps t f same) (at_first f t (find n ts) n same)
    | inr e ↦
        rw e (after_first f t _ (find n ts) n e (find-override_first keeps f ts n (rw e at h)))
  ]

  find-append :
      (n : String) (xs : List T) (y : T)
      → find n (xs ++ (y ∷ []))
        ≡ (if is_some (find n xs) then find n xs else if kind.name y == n then some y else none)
  find-append n [] y = refl
  find-append n (x ∷ xs) y = elim (Bool-cases (kind.name x == n)) [
    | inl e ↦ rw e refl
    | inr e ↦ rw e (find-append n xs y)
  ]

  both-none : (o : Option T) → both o none ≡ o
  both-none none = refl
  both-none (some t) = refl

  new_found :
      (o : Option T) (f : T)
      → is_some o ≡ false
      → (if is_some o then o else some f) ≡ both o (some f)
  new_found none f h = refl
  new_found (some t) f h = cc

  none_found : (o : Option T) → is_some o ≡ false → o ≡ none
  none_found none h = refl
  none_found (some t) h = cc

  old_found : (o : Option T) → (if is_some o then o else none) ≡ o
  old_found none = refl
  old_found (some t) = refl

  appended :
      (f : T) (ts : List T) (n : String)
      → is_some (find (kind.name f) ts) ≡ false
      → find n (ts ++ (f ∷ []))
        ≡ (if kind.name f == n then both (find n ts) (some f) else find n ts)
  appended f ts n h = elim (Bool-cases (kind.name f == n)) [
    | inl e ↦
        rw (find-append n ts f, e)
          (new_found (find n ts) f
            (subst (λ m. is_some (find m ts) ≡ false) ((eq_iff (kind.name f) n).0 e) h))
    | inr e ↦ rw (find-append n ts f, e) (old_found (find n ts))
  ]

  find-merge_template :
      (keeps : KeepsName) (f : T) (ts : List T) (n : String)
      → find n (merge_template kind f ts)
        ≡ (if kind.name f == n then both (find n ts) (some f) else find n ts)
  unfolding merge_template
  find-merge_template keeps f ts n = elim (Bool-cases (is_some (find (kind.name f) ts))) [
    | inl e ↦ rw (is_some-override_first f ts, e) (find-override_first keeps f ts n e)
    | inr e ↦ rw (is_some-override_first f ts, e) (appended f ts n e)
  ]

  -- If merging two templates of one name keeps the name, and the source has every name once, the
  -- first template of a name after a merge of lists is the merge of what both lists have first for
  -- it, or the one that only one of them has.
  pub find-merge_loop :
      (froms to : List T) (n : String)
      → KeepsName
      → AreDistinct froms
      → find n (merge_loop kind froms to) ≡ both (find n to) (find n froms)
  unfolding merge_loop
  find-merge_loop [] to n keeps d = sym (both-none (find n to))
  find-merge_loop (f ∷ froms) to n keeps (d, ds) =
      find-merge_loop froms (merge_template kind f to) n keeps ds
      ∙ ap (λ o. both o (find n froms)) (find-merge_template keeps f to n)
      ∙ elim (Bool-cases (kind.name f == n)) [
        | inl e ↦
            rw
              (
                e,
                none_found (find n froms)
                    (subst (λ m. is_some (find m froms) ≡ false) ((eq_iff (kind.name f) n).0 e) d),
              )
              (both-none (both (find n to) (some f)))
        | inr e ↦ rw e refl
      ]

  abbrev pub or_else : Option T → Option T → Option T
  or_else none p = p
  or_else (some t) p = some t

  -- the last template of a name
  abbrev pub find_last : String → List T → Option T
  find_last n [] = none
  find_last n (t ∷ ts) = or_else (find_last n ts) (if kind.name t == n then some t else none)

  step_last :
      (rest : Option T) (b : Bool) (t : T) (old : Option T)
      → or_else rest (if b then some t else old)
        ≡ or_else (or_else rest (if b then some t else none)) old
  step_last (some x) b t old = refl
  step_last none true t old = refl
  step_last none false t old = refl

  -- An index into which templates are introduced returns for a name the last of them with that
  -- name, and otherwise what it had.
  pub get-introduce :
      (ts : List T) (v : Dict T) (n : String)
      → get (introduce kind ts (some (some v))) n ≡ or_else (find_last n ts) (lookup v n)
  unfolding introduce get set ensure_index
  get-introduce [] v n = refl
  get-introduce (t ∷ ts) v n =
      get-introduce ts (insert v (kind.name t) t) n
      ∙ ap (or_else (find_last n ts)) (lookup-insert v (kind.name t) n t)
      ∙ step_last (find_last n ts) (kind.name t == n) t (lookup v n)
