-- ===== src/Queue/Laws.antt =====
-- The kind, the namespace and the name in an item's handle.
use Prim.Native.Char.{Char, code}
use Prim.Native.String.{[] as empty, ◌∷◌ as ◌::◌}
use text.Mathlib.TextLemmas.{nil-append, cons-append}
use radondb_clickhouse_opera.Base.{
  ℕ, String, ◌<>◌, ◌≡◌, refl, sym, ap, ◌∙◌, ◌↔◌, Bool, true, false, Option, none, some, arith,
}
use radondb_clickhouse_opera.Base.Tests.{eqb, if◌then◌else◌}
use radondb_clickhouse_opera.Registry.{ObjectMeta}
use radondb_clickhouse_opera.Queue.{
  Item, reconcile_chi, reconcile_chit, reconcile_chop_config, drop_dns, handle, handle_of,
  handle_text,
}

-- is no character of the text that one?
abbrev pub is_free_of : ℕ → String → Bool
is_free_of n empty = true
is_free_of n (c :: s) = if eqb (code c) n then false else is_free_of n s

put_front : Char → Option (String × String) → Option (String × String)
put_front c none = none
put_front c (some (a, b)) = some (c :: a, b)

-- the texts before and after the first such character
cut : ℕ → String → Option (String × String)
unfolding put_front
cut n empty = none
cut n (c :: s) = let r = cut n s in if eqb (code c) n then some ("", s) else put_front c r

cons-text : (c : Char) (t : String) → (c :: "") <> t ≡ c :: t
cons-text c t = cons-append c "" t ∙ ap (λ (u : String). c :: u) (nil-append t)

cut-here : (c : Char) (t : String) → cut (code c) (c :: t) ≡ some ("", t)
unfolding cut
cut-here c t = ground arith

cut-later :
    (n : ℕ) (d : Char) (s t u : String)
    → is_free_of n (d :: s) ≡ true
    → (is_free_of n s ≡ true → cut n u ≡ some (s, t))
    → cut n (d :: u) ≡ some (d :: s, t)
unfolding cut put_front
cut-later n d s t u h rest = ground arith

cut-front :
    (c : Char) (s t : String)
    → is_free_of (code c) s ≡ true
    → cut (code c) (s <> (c :: t)) ≡ some (s, t)
cut-front c empty t h = ap (cut (code c)) (nil-append (c :: t)) ∙ cut-here c t
cut-front c (d :: s) t h =
    ap (cut (code c)) (cons-append d s (c :: t))
    ∙ cut-later (code c) d s t (s <> (c :: t)) h (λ k. cut-front c s t k)

cut-append :
    (c : Char) (s t : String)
    → is_free_of (code c) s ≡ true
    → cut (code c) (s <> ((c :: "") <> t)) ≡ some (s, t)
cut-append c s t h = ap (λ u. cut (code c) (s <> u)) (cons-text c t) ∙ cut-front c s t h

-- the object that an item is about, the new one first
abbrev pub first_given : Option ObjectMeta → Option ObjectMeta → Option ObjectMeta
first_given old (some m) = some m
first_given old none = old

abbrev pub object_of : Item → Option ObjectMeta
object_of (reconcile_chi r) = first_given r.old r.new
object_of (reconcile_chit r) = first_given r.old r.new
object_of (reconcile_chop_config r) = first_given r.old r.new
object_of (drop_dns r) = r.initiator

abbrev pub kind_of : Item → String
kind_of (reconcile_chi r) = "ReconcileCHI"
kind_of (reconcile_chit r) = "ReconcileCHIT"
kind_of (reconcile_chop_config r) = "ReconcileChopConfig"
kind_of (drop_dns r) = "DropDNS"

-- the kind, the namespace and the name
abbrev pub subject_of : String → Option ObjectMeta → Option (String × String × String)
subject_of kind none = none
subject_of kind (some m) = some (kind, m.namespace, m.name)

abbrev pub subject : Item → Option (String × String × String)
subject i = subject_of (kind_of i) (object_of i)

abbrev pub has_plain_namespace : Option ObjectMeta → Bool
has_plain_namespace none = true
has_plain_namespace (some m) = is_free_of b'/' m.namespace

encode : Option (String × String × String) → String
encode none = ""
encode (some (kind, namespace, name)) = kind <> (":" <> (namespace <> ("/" <> name)))

join_parts : String → Option (String × String) → Option (String × String × String)
join_parts kind none = none
join_parts kind (some (namespace, name)) = some (kind, namespace, name)

decode_rest : Option (String × String) → Option (String × String × String)
unfolding join_parts
decode_rest none = none
decode_rest (some (kind, rest)) = join_parts kind (cut b'/' rest)

decode : String → Option (String × String × String)
unfolding decode_rest
decode s = decode_rest (cut b':' s)

decode-subject :
    (kind : String) (o : Option ObjectMeta)
    → is_free_of b':' kind ≡ true
    → has_plain_namespace o ≡ true
    → decode (encode (subject_of kind o)) ≡ subject_of kind o
unfolding decode decode_rest encode join_parts cut
decode-subject kind none k h = refl
decode-subject kind (some m) k h =
    ap decode_rest (cut-append ":" kind (m.namespace <> ("/" <> m.name)) k)
    ∙ ap (join_parts kind) (cut-append "/" m.namespace m.name h)

handle_of-subject :
    (kind : String) (old new : Option ObjectMeta)
    → handle_of kind old new ≡ encode (subject_of kind (first_given old new))
unfolding handle_of handle_text encode
handle_of-subject kind old (some m) = refl
handle_of-subject kind (some m) none = refl
handle_of-subject kind none none = refl

first_given-none : (o : Option ObjectMeta) → first_given none o ≡ o
first_given-none none = refl
first_given-none (some m) = refl

handle-subject : (i : Item) → handle i ≡ encode (subject i)
unfolding handle handle_of handle_text encode
handle-subject (reconcile_chi r) = handle_of-subject "ReconcileCHI" r.old r.new
handle-subject (reconcile_chit r) = handle_of-subject "ReconcileCHIT" r.old r.new
handle-subject (reconcile_chop_config r) = handle_of-subject "ReconcileChopConfig" r.old r.new
handle-subject (drop_dns r) =
    handle_of-subject "DropDNS" none r.initiator
    ∙ ap (λ o. encode (subject_of "DropDNS" o)) (first_given-none r.initiator)

kind_of-plain : (i : Item) → is_free_of b':' (kind_of i) ≡ true
kind_of-plain (reconcile_chi r) = refl
kind_of-plain (reconcile_chit r) = refl
kind_of-plain (reconcile_chop_config r) = refl
kind_of-plain (drop_dns r) = refl

decode-handle :
    (i : Item) → has_plain_namespace (object_of i) ≡ true → decode (handle i) ≡ subject i
decode-handle i h =
    ap decode (handle-subject i) ∙ decode-subject (kind_of i) (object_of i) (kind_of-plain i) h

-- Two items of the queues, whose objects have no slash in their namespace, have the same handle
-- exactly if they are of the same kind and about an object of the same namespace and name, or both
-- are about none.
pub handle-eq_iff :
    (i j : Item)
    → has_plain_namespace (object_of i) ≡ true
    → has_plain_namespace (object_of j) ≡ true
    → (handle i ≡ handle j) ↔ (subject i ≡ subject j)
handle-eq_iff i j p q = (
  λ h. sym (decode-handle i p) ∙ ap decode h ∙ decode-handle j q,
  λ h. handle-subject i ∙ ap encode h ∙ sym (handle-subject j),
)
