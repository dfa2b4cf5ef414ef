-- ===== src/Engines/Assoc.antt =====
-- Association lists from keys to values: the abstract content of the array and of a hash chain.
use kvstore.Common.{
  ℕ, suc, ◌+◌, ◌≤◌, ◌≡◌, refl, ap, arith, Bytes, List, [], ◌∷◌, ◌++◌, false, if◌then◌else◌, Option,
  none, some, str_eq, str_eq_iff, str_eq_refl, Bool-cases, inl, inr, ◌⊎◌,
}

abbrev pub Entry : Type 0
Entry = Bytes × Bytes

-- The value of the first entry under a key.
unfoldable pub lookup : Bytes → List Entry → Option Bytes
lookup q [] = none
lookup q ((k, v) ∷ es) = if str_eq k q then some v else lookup q es

-- How often a key occurs.
unfoldable pub occurs : Bytes → List Entry → ℕ
occurs q [] = 0
occurs q ((k, v) ∷ es) = if str_eq k q then suc (occurs q es) else occurs q es

abbrev pub first_of_two : Option Bytes → Option Bytes → Option Bytes
first_of_two (some v) o = some v
first_of_two none o = o

-- The abstract map with one key changed.
abbrev pub update : (Bytes → Option Bytes) → Bytes → Option Bytes → Bytes → Option Bytes
update f k o q = if str_eq k q then o else f q

-- No key occurs twice.
abbrev pub IsUnique : List Entry → Type 0
IsUnique es = (q : Bytes) → occurs q es ≤ 1

pub lookup-append :
    (q : Bytes) (a b : List Entry) → lookup q (a ++ b) ≡ first_of_two (lookup q a) (lookup q b)
unfolding lookup
lookup-append q [] b = refl
lookup-append q ((k, v) ∷ a) b = ground (arith, lookup-append q a b)

pub occurs-append : (q : Bytes) (a b : List Entry) → occurs q (a ++ b) ≡ occurs q a + occurs q b
unfolding occurs
occurs-append q [] b = omega arith
occurs-append q ((k, v) ∷ a) b = ground (arith, occurs-append q a b)

pub lookup_absent : (q : Bytes) (es : List Entry) → occurs q es ≡ 0 → lookup q es ≡ none
unfolding lookup occurs
lookup_absent q [] h = refl
lookup_absent q ((k, v) ∷ es) h = ground (arith, lookup_absent q es)

pub occurs_absent : (q : Bytes) (es : List Entry) → lookup q es ≡ none → occurs q es ≡ 0
unfolding lookup occurs
occurs_absent q [] h = refl
occurs_absent q ((k, v) ∷ es) h = ground (arith, occurs_absent q es)

-- A key that is found stands between a part without it and a rest.
pub record Found (k : Bytes) (es : List Entry) : Type 0 where
  pub front : List Entry
  pub old : Bytes
  pub back : List Entry
  pub parts : es ≡ front ++ (k, old) ∷ back
  pub before : lookup k front ≡ none
  pub reads : lookup k es ≡ some old

-- Replacing the value of the entry that is found.
pub lookup_replaced :
    (q k v : Bytes) (front : List Entry) (old : Bytes) (back : List Entry)
    → lookup k front ≡ none
    → lookup q (front ++ (k, v) ∷ back)
      ≡ update (λ p. lookup p (front ++ (k, old) ∷ back)) k (some v) q
unfolding lookup
lookup_replaced q k v front old back h = ground (
  arith,
  lookup-append q front ((k, v) ∷ back),
  lookup-append q front ((k, old) ∷ back),
  str_eq_iff k q,
)

pub occurs_replaced :
    (q k v : Bytes) (front : List Entry) (old : Bytes) (back : List Entry)
    → occurs q (front ++ (k, v) ∷ back) ≡ occurs q (front ++ (k, old) ∷ back)
unfolding occurs
occurs_replaced q k v front old back =
    ground (arith, occurs-append q front ((k, v) ∷ back), occurs-append q front ((k, old) ∷ back))

-- Taking the entry that is found out of a list where it is the only one under its key.
pub lookup_removed :
    (q k : Bytes) (front : List Entry) (old : Bytes) (back : List Entry)
    → IsUnique (front ++ (k, old) ∷ back)
    → lookup q (front ++ back) ≡ update (λ p. lookup p (front ++ (k, old) ∷ back)) k none q
unfolding lookup occurs
lookup_removed q k front old back h = ground (
  arith,
  lookup-append q front back,
  lookup-append q front ((k, old) ∷ back),
  occurs-append k front ((k, old) ∷ back),
  h k,
  lookup_absent k front,
  lookup_absent k back,
  str_eq_iff k q,
  str_eq_refl k,
)

pub occurs_removed :
    (q k : Bytes) (front : List Entry) (old : Bytes) (back : List Entry)
    → occurs q (front ++ back) ≤ occurs q (front ++ (k, old) ∷ back)
unfolding occurs
occurs_removed q k front old back =
    ground (arith, occurs-append q front back, occurs-append q front ((k, old) ∷ back))

-- In a list of unique keys the order of two parts does not matter.
pub lookup_swap :
    (q : Bytes) (a b : List Entry) → IsUnique (a ++ b) → lookup q (a ++ b) ≡ lookup q (b ++ a)
lookup_swap q a b h = ground (
  arith,
  lookup-append q a b,
  lookup-append q b a,
  occurs-append q a b,
  h q,
  lookup_absent q a,
  lookup_absent q b,
  occurs_absent q a,
  occurs_absent q b,
)

pub Found-cons :
    (q k v : Bytes) (es : List Entry) → str_eq k q ≡ false → Found q es → Found q ((k, v) ∷ es)
unfolding lookup
Found-cons q k v es other f = record {
  front = (k, v) ∷ f.front;
  old = f.old;
  back = f.back;
  parts = ap (λ t. (k, v) ∷ t) f.parts;
  before = rw other f.before;
  reads = rw other f.reads;
}

-- Every key is absent or found.
pub lookup_cases : (q : Bytes) (es : List Entry) → (lookup q es ≡ none) ⊎ Found q es
unfolding lookup
lookup_cases q [] = inl refl
lookup_cases q ((k, v) ∷ es) = elim (Bool-cases (str_eq k q)) [
  | inl same ↦
      let e : k ≡ q = (str_eq_iff k q).0 same in
      inr (record {
        front = [];
        old = v;
        back = es;
        parts = ap (λ t. (t, v) ∷ es) e;
        before = refl;
        reads = rw same;
      })
  | inr other ↦ elim (lookup_cases q es) [
    | inl gone ↦ inl (rw other gone)
    | inr f ↦ inr (Found-cons q k v es other f)
  ]
]
