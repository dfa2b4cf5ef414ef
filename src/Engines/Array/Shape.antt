-- ===== src/Engines/Array/Shape.antt =====
-- src/engines/kvs_array.c: a table in use is its entries in order, and the loops walk over them.
use kvstore.Common.{
  ℕ, zero, suc, ◌+◌, ◌≡◌, refl, ap, arith, Bytes, List, [], ◌∷◌, ◌++◌, length, length-append,
  Option, append_assoc, ◌∙◌, str_eq_refl, none, some, set, get_or,
}
use kvstore.Engines.Assoc.{Entry, lookup, IsUnique, Found}
use kvstore.Engines.Array.{
  store, slots_of, KvArray, Slot, array_size, found, missing, scan, scan_strict, free_slot,
}

abbrev pub full : List Entry → List Slot
full [] = []
full (e ∷ es) = some e ∷ full es

pub full-append : (a b : List Entry) → full (a ++ b) ≡ full a ++ full b
full-append [] b = refl
full-append (e ∷ a) b = ap (λ t. some e ∷ t) (full-append a b)

pub length-full : (a : List Entry) → length (full a) ≡ length a
length-full [] = refl
length-full (e ∷ a) = ap suc (length-full a)

-- The array holds the entries `es` in its first slots, each key once, and has 1024 slots.
pub record Holds (a : KvArray) (es : List Entry) : Type 0 where
  pub spare : List Slot
  pub table : a.table ≡ some (full es ++ spare)
  pub total : a.total ≡ length es
  pub size : length es + length spare ≡ array_size
  pub unique : IsUnique es

abbrev pub IsValid : KvArray → Type 0
IsValid a = (es : List Entry) × Holds a es

scan_skip :
    (key : Bytes) (front : List Entry) (rest : List Slot) (i n : ℕ)
    → lookup key front ≡ none
    → scan key i (length front + n) (full front ++ rest) ≡ scan key (i + length front) n rest
unfolding lookup scan
scan_skip key [] rest i n h =
    let e : 0 + n ≡ n = omega arith in let e' : i + 0 ≡ i = omega arith in rw (e, e')
scan_skip key ((k, v) ∷ front) rest i n h =
    let e : suc (length front) + n ≡ suc (length front + n) = omega arith in
    let e' : i + 1 + length front ≡ i + suc (length front) = omega arith in
    rw e (ground (arith, e', scan_skip key front rest (i + 1) n))

scan_strict_skip :
    (key : Bytes) (front : List Entry) (rest : List Slot) (i n : ℕ)
    → lookup key front ≡ none
    → scan_strict key i (length front + n) (full front ++ rest)
      ≡ scan_strict key (i + length front) n rest
unfolding lookup scan_strict
scan_strict_skip key [] rest i n h =
    let e : 0 + n ≡ n = omega arith in let e' : i + 0 ≡ i = omega arith in rw (e, e')
scan_strict_skip key ((k, v) ∷ front) rest i n h =
    let e : suc (length front) + n ≡ suc (length front + n) = omega arith in
    let e' : i + 1 + length front ≡ i + suc (length front) = omega arith in
    rw e (ground (arith, e', scan_strict_skip key front rest (i + 1) n))

module _ (key : Bytes) (es : List Entry) (spare : List Slot) (h : lookup key es ≡ none) where
  pub scan_missing : scan key 0 (length es) (full es ++ spare) ≡ missing
  unfolding scan
  scan_missing =
      let e : length es ≡ length es + 0 = omega arith in
      ap (λ n. scan key 0 n (full es ++ spare)) e ∙ scan_skip key es spare 0 0 h

  pub scan_strict_missing : scan_strict key 0 (length es) (full es ++ spare) ≡ missing
  unfolding scan_strict
  scan_strict_missing =
      let e : length es ≡ length es + 0 = omega arith in
      ap (λ n. scan_strict key 0 n (full es ++ spare)) e ∙ scan_strict_skip key es spare 0 0 h

-- The table around one entry.
pub full_parts :
    (e : Entry) (front back : List Entry) (spare : List Slot)
    → full (front ++ e ∷ back) ++ spare ≡ full front ++ (some e ∷ (full back ++ spare))
full_parts e front back spare = rw (full-append, append_assoc)

module _ (key old : Bytes) (front back : List Entry) (spare : List Slot)
    (h : lookup key front ≡ none) where
  pub scan_found :
      scan key 0 (length (front ++ (key, old) ∷ back)) (full (front ++ (key, old) ∷ back) ++ spare)
      ≡ found (length front)
  unfolding scan
  scan_found =
      let e : 0 + length front ≡ length front = omega arith in
      rw (full_parts (key, old) front back spare, length-append)
        (scan_skip key front (some (key, old) ∷ (full back ++ spare)) 0 (suc (length back)) h
          ∙ rw (str_eq_refl key, e))

  pub scan_strict_found :
      scan_strict key 0
        (length (front ++ (key, old) ∷ back))
        (full (front ++ (key, old) ∷ back) ++ spare)
      ≡ found (length front)
  unfolding scan_strict
  scan_strict_found =
      let e : 0 + length front ≡ length front = omega arith in
      rw (full_parts (key, old) front back spare, length-append)
        (scan_strict_skip key front (some (key, old) ∷ (full back ++ spare)) 0 (suc (length back)) h
          ∙ rw (str_eq_refl key, e))

free_slot-full :
    (es : List Entry) (spare : List Slot) (i : ℕ)
    → free_slot i (length es) (full es ++ spare) ≡ i + length es
unfolding free_slot
free_slot-full [] spare i = omega arith
free_slot-full (e ∷ es) spare i = omega (arith, free_slot-full es spare (i + 1))

-- The search for a NULL key among the slots in use ends behind them.
pub free_slot_lem :
    (es : List Entry) (spare : List Slot) → free_slot 0 (length es) (full es ++ spare) ≡ length es
free_slot_lem es spare = omega (arith, free_slot-full es spare 0)

module _ (front : List Entry) (s t : Slot) (rest : List Slot) where
  pub set_behind : set (full front ++ (s ∷ rest)) (length front) t ≡ full front ++ (t ∷ rest)
  set_behind = go front
    where
      go : (es : List Entry) → set (full es ++ (s ∷ rest)) (length es) t ≡ full es ++ (t ∷ rest)
      go [] = refl
      go (e ∷ es) = ap (λ u. some e ∷ u) (go es)

  pub get_or_behind : get_or (full front ++ (s ∷ rest)) (length front) t ≡ s
  get_or_behind = go front
    where
      go : (es : List Entry) → get_or (full es ++ (s ∷ rest)) (length es) t ≡ s
      go [] = refl
      go (e ∷ es) = go es

-- The entries of the first `n` slots.
pub entries : ℕ → List Slot → List Entry
entries zero slots = []
entries (suc n) [] = []
entries (suc n) (none ∷ slots) = entries n slots
entries (suc n) (some e ∷ slots) = e ∷ entries n slots

pub entries-full :
    (es : List Entry) (spare : List Slot) → entries (length es) (full es ++ spare) ≡ es
unfolding entries
entries-full [] spare = refl
entries-full (e ∷ es) spare = ap (λ t. e ∷ t) (entries-full es spare)

-- The map that the array stands for.
pub view : KvArray → Bytes → Option Bytes
view a q = lookup q (entries a.total (slots_of a))

pub view_lem : {a : KvArray} {es : List Entry} (q : Bytes) → Holds a es → view a q ≡ lookup q es
unfolding view
view_lem {a} {es} q h = rw (h.table, h.total, entries-full es h.spare)

module _ {a : KvArray} {es : List Entry} (h : Holds a es) (k : Bytes) where
  pub scan-none : lookup k es ≡ none → scan k 0 a.total (slots_of a) ≡ missing
  scan-none gone = rw (h.table, h.total) (scan_missing k es h.spare gone)

  pub scan_strict-none : lookup k es ≡ none → scan_strict k 0 a.total (slots_of a) ≡ missing
  scan_strict-none gone = rw (h.table, h.total) (scan_strict_missing k es h.spare gone)

  pub free_none : free_slot 0 a.total (slots_of a) ≡ length es
  free_none = rw (h.table, h.total) (free_slot_lem es h.spare)

  module _ (f : Found k es) where
    pub scan_some : scan k 0 a.total (slots_of a) ≡ found (length f.front)
    scan_some = rw (h.table, h.total, f.parts) (scan_found k f.old f.front f.back h.spare f.before)

    pub scan_strict_some : scan_strict k 0 a.total (slots_of a) ≡ found (length f.front)
    scan_strict_some =
        rw (h.table, h.total, f.parts) (scan_strict_found k f.old f.front f.back h.spare f.before)

    pub table_parts : a.table ≡ some (full f.front ++ (some (k, f.old) ∷ (full f.back ++ h.spare)))
    table_parts = h.table ∙ rw f.parts (ap some (full_parts (k, f.old) f.front f.back h.spare))

    pub slot_some : get_or (slots_of a) (length f.front) none ≡ some (k, f.old)
    slot_some =
        rw table_parts (get_or_behind f.front (some (k, f.old)) none (full f.back ++ h.spare))

    pub store-some :
        (s : Slot)
        → store a.table (length f.front) s ≡ some (full f.front ++ (s ∷ (full f.back ++ h.spare)))
    store-some s =
        rw table_parts (ap some (set_behind f.front (some (k, f.old)) s (full f.back ++ h.spare)))
