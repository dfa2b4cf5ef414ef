-- ===== src/Startup/Fresh.antt =====
-- src/kvstore.c: the engines that init_kvengine leaves.
use kvstore.Common.{
  ℕ, ◌≤◌, ◌≡◌, ◌∙◌, refl, sym, ap, arith, true, List, ◌∷◌, Bytes, Option, none, some, none-some,
  length, List-cases, Bool-cases, inl, inr, str_eq_refl,
}
use kvstore.Engines.Base.{Ret, success, not_found, failure, no_memory, Mem}
use kvstore.Engines.Assoc.{Entry, lookup}
use kvstore.Engines.Array
use kvstore.Engines.Array.{KvArray, Slot, array_size}
use kvstore.Engines.Array.Shape
use kvstore.Engines.Array.Visit
use kvstore.Engines.Array.Visit.{array_create_lem}
use kvstore.Engines.Hash
use kvstore.Engines.Hash.{KvHash}
use kvstore.Engines.Hash.Table
use kvstore.Engines.Hash.Created
use kvstore.Engines.Hash.Created.{hash_create_lem}
use kvstore.Kvs.{Server, is_success}
use kvstore.Snapshot.Load.Interface.{ArrayReady, HashReady}
use kvstore.Snapshot.Load.RoundTrip.{IsEmpty}
use kvstore.Startup.{Lifecycle, CreateEnv, zeroed_array, zeroed_hash, with_engines, init_kvengine}

-- An engine whose creation, where it returns 0, leaves no key and room for any number of them.
pub record Begins {S : Type 0} (l : Lifecycle S) (ready : ℕ → S → Type 0)
    (view : S → Bytes → Option Bytes) : Type 0 where
  pub created :
      (mem : Mem) (es : List Entry)
      → is_success (l.create mem l.zeroed).1 ≡ true
      → IsEmpty ready view (l.create mem l.zeroed).0 es

-- A valid array with no key uses no slot.
no_slots : (a : KvArray) → Shape.IsValid a → ((q : Bytes) → Shape.view a q ≡ none) → a.total ≡ 0
unfolding lookup
no_slots a (es, h) empty = elim (List-cases es) [
  | inl e ↦ omega (arith, h.total, ap length e)
  | inr ((k, v), rest, e) ↦
      let found : lookup k ((k, v) ∷ rest) ≡ some v = rw (str_eq_refl k) refl in
      absurd (none-some (sym (empty k) ∙ Shape.view_lem k h ∙ ap (λ x. lookup k x) e ∙ found))
]

pub array_begun :
    (p : KvArray × Ret) (es : List Entry)
    → Visit.Created zeroed_array p
    → is_success p.1 ≡ true
    → length es ≤ array_size
    → IsEmpty ArrayReady Shape.view p.0 es
unfolding is_success
array_begun (a, success) es c ok room = ((c.0, omega (arith, no_slots a c.0 c.1, room)), c.1)
array_begun (a, not_found) es c ok room = absurd (cc)
array_begun (a, failure) es c ok room = absurd (cc)
array_begun (a, no_memory) es c ok room = absurd (cc)

pub hash_begun :
    (p : KvHash × Ret) (es : List Entry)
    → Created.Created zeroed_hash p
    → is_success p.1 ≡ true
    → IsEmpty HashReady Table.view p.0 es
unfolding is_success
hash_begun (h, success) es c ok = (c.0, c.1)
hash_begun (h, not_found) es c ok = absurd (cc)
hash_begun (h, failure) es c ok = absurd (cc)
hash_begun (h, no_memory) es c ok = absurd (cc)

module _ {R K : Type 0} (rb : Lifecycle R) (sk : Lifecycle K) (env : CreateEnv)
    (sv : Server R K) where
  -- The four creations have returned 0, and their engines are the server's.
  pub record AllCreated : Type 0 where
    pub array_ok : is_success (Array.create env.array_mem env.junk zeroed_array).1 ≡ true
    pub tree_ok : is_success (rb.create env.rbtree_mem rb.zeroed).1 ≡ true
    pub hash_ok : is_success (Hash.create env.hash_mem zeroed_hash).1 ≡ true
    pub skiplist_ok : is_success (sk.create env.skiplist_mem sk.zeroed).1 ≡ true
    pub result : init_kvengine rb sk env sv ≡ (
      with_engines sv
          (Array.create env.array_mem env.junk zeroed_array).0
          (rb.create env.rbtree_mem rb.zeroed).0
          (Hash.create env.hash_mem zeroed_hash).0
          (sk.create env.skiplist_mem sk.zeroed).0,
      true,
    )

  pub init_kvengine-AllCreated : (init_kvengine rb sk env sv).1 ≡ true → AllCreated
  unfolding init_kvengine
  init_kvengine-AllCreated ok =
      elim (Bool-cases (is_success (Array.create env.array_mem env.junk zeroed_array).1)) [
        | inr bad ↦ absurd (ground (arith, ok, bad))
        | inl a ↦ elim (Bool-cases (is_success (rb.create env.rbtree_mem rb.zeroed).1)) [
          | inr bad ↦ absurd (ground (arith, ok, a, bad))
          | inl r ↦ elim (Bool-cases (is_success (Hash.create env.hash_mem zeroed_hash).1)) [
            | inr bad ↦ absurd (ground (arith, ok, a, r, bad))
            | inl h ↦ elim (Bool-cases (is_success (sk.create env.skiplist_mem sk.zeroed).1)) [
              | inr bad ↦ absurd (ground (arith, ok, a, r, h, bad))
              | inl k ↦ record {
                array_ok = a;
                tree_ok = r;
                hash_ok = h;
                skiplist_ok = k;
                result = ground (arith, a, r, h, k);
              }
            ]
          ]
        ]
      ]
