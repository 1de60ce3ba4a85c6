-- ===== src/Layout/HostsField.antt =====
-- pkg/apis/clickhouse.radondb.com/v1/type_hosts_field.go: a field of pointers to hosts.
use radondb_clickhouse_opera.Base.{
  ℕ, zero, suc, ◌≡◌, refl, ◌∙◌, inl, inr, Bool, true, false, ◌&&◌, Option, none, some, List, [],
  ◌∷◌, arith,
}
use radondb_clickhouse_opera.Base.Tests.{Bool-cases, ltb, eqb, if◌then◌else◌, is_some}
use radondb_clickhouse_opera.Base.Lists.{get_elem?, replicate}

-- a `*ChiHost`
abbrev pub HostPointer : Type 0
HostPointer = Option ℕ

abbrev pub Field : Type 0
Field = List (List HostPointer)

module _ {A : Type 0} where
  -- `xs[i] = a` within the bounds
  pub put : List A → ℕ → A → List A
  put [] i a = []
  put (x ∷ xs) zero a = a ∷ xs
  put (x ∷ xs) (suc i) a = x ∷ put xs i a

  pub get-put :
      (xs : List A) (i j : ℕ) (a : A)
      → get_elem? (put xs i a) j
        ≡ (if eqb i j && is_some (get_elem? xs i) then some a else get_elem? xs j)
  unfolding put
  get-put [] i j a = ground arith
  get-put (x ∷ xs) zero zero a = refl
  get-put (x ∷ xs) zero (suc j) a = ground arith
  get-put (x ∷ xs) (suc i) zero a = ground arith
  get-put (x ∷ xs) (suc i) (suc j) a = ground (arith, get-put xs i j a)

  pub get-replicate :
      (n i : ℕ) (a : A) → get_elem? (replicate n a) i ≡ (if ltb i n then some a else none)
  get-replicate zero i a = ground arith
  get-replicate (suc n) zero a = ground arith
  get-replicate (suc n) (suc i) a = ground (arith, get-replicate n i a)

pub in_row : Option (List HostPointer) → ℕ → Option HostPointer
in_row none replica = none
in_row (some row) replica = get_elem? row replica

-- `hf.Field[shard][replica]`; `none` is the panic out of range
unfoldable pub at : Field → ℕ → ℕ → Option HostPointer
unfolding in_row
at field shard replica = in_row (get_elem? field shard) replica

put_row : Option (List HostPointer) → Field → ℕ → ℕ → HostPointer → Field
unfolding put
put_row none field shard replica host = field
put_row (some row) field shard replica host = put field shard (put row replica host)

-- `hf.Field[shard][replica] = host`, within the bounds
unfoldable pub put_host : Field → ℕ → ℕ → HostPointer → Field
unfolding put_row
put_host field shard replica host = put_row (get_elem? field shard) field shard replica host

unfoldable pub new_field : ℕ → ℕ → Field
new_field shards replicas = replicate shards (replicate replicas none)

in_row-if :
    (b : Bool) (row : List HostPointer) (j : ℕ)
    → in_row (if b then some row else none) j ≡ (if b then get_elem? row j else none)
unfolding in_row
in_row-if true row j = refl
in_row-if false row j = refl

pub at-new_field :
    (shards replicas i j : ℕ)
    → at (new_field shards replicas) i j
      ≡ (if ltb i shards && ltb j replicas then some none else none)
unfolding at new_field
at-new_field shards replicas i j =
    rw (get-replicate shards i (replicate {A = HostPointer} replicas none)) (
      in_row-if (ltb i shards) (replicate replicas none) j
      ∙ ground (arith, get-replicate {A = HostPointer} replicas j none))

at-row :
    (field : Field) (s i j : ℕ) (row : List HostPointer)
    → get_elem? field s ≡ some row
    → eqb s i ≡ true
    → at field i j ≡ get_elem? row j
unfolding at in_row
at-row field s i j row e h = let q : s ≡ i = ground arith in rw (← q, e) refl

at-other_row :
    (field : Field) (s i j : ℕ) (row : List HostPointer)
    → eqb s i ≡ false
    → at (put field s row) i j ≡ at field i j
unfolding at
at-other_row field s i j row h = rw (get-put field s i row) (rw h refl)

at-same_row :
    (field : Field) (s i j : ℕ) (row : List HostPointer)
    → is_some (get_elem? field s) ≡ true
    → eqb s i ≡ true
    → at (put field s row) i j ≡ get_elem? row j
unfolding at in_row
at-same_row field s i j row h q = rw (get-put field s i row) (rw (q, h) refl)

put_row-at :
    (o : Option (List HostPointer)) (field : Field) (s r i j : ℕ) (h : HostPointer)
    → get_elem? field s ≡ o
    → is_some (in_row o r) ≡ true
    → at (put_row o field s r h) i j ≡ (if eqb s i && eqb r j then some h else at field i j)
unfolding put_row in_row
put_row-at none field s r i j h e k = cc
put_row-at (some row) field s r i j h e k = elim (Bool-cases (eqb s i)) [
  | inl same ↦
      at-same_row field s i j (put row r h) (rw e refl) same
      ∙ get-put row r j h
      ∙ rw (k, same, at-row field s i j row e same) (ground arith)
  | inr other ↦ at-other_row field s i j (put row r h) other ∙ rw other refl
]

pub at-put_host :
    (field : Field) (s r i j : ℕ) (h : HostPointer)
    → is_some (at field s r) ≡ true
    → at (put_host field s r h) i j ≡ (if eqb s i && eqb r j then some h else at field i j)
unfolding at put_host
at-put_host field s r i j h k = put_row-at (get_elem? field s) field s r i j h refl k
