-- ===== src/Engines/Hash/Visit.antt =====
-- src/engines/kvs_hash.c: kvs_hash_foreach.
use kvstore.Common.{
  ◌≡◌, refl, sym, ap, ◌∙◌, Bytes, List, [], ◌∷◌, ◌++◌, length, some, Bool, Bool-cases, inl, inr,
}
use kvstore.Engines.Base.{Ret, success, not_found, failure, no_memory}
use kvstore.Engines.Assoc.{Entry}
use kvstore.Engines.Array.Visit.{visit_all}
use kvstore.Engines.Hash.{KvHash, Chain, visit_chain, visit_table, foreach}
use kvstore.Engines.Hash.Table.{Holds}

-- The entries of all chains, chain after chain.
unfoldable pub table_entries : List Chain → List Entry
table_entries [] = []
table_entries (es ∷ t) = es ++ table_entries t

-- The visit of the rest where the first part has been visited.
go_on {ℓ} : {C : Type ℓ} → (Bytes → Bytes → C → C × Bool) → List Entry → C → Ret → C × Ret
go_on visit es c success = visit_all visit es c
go_on visit es c not_found = (c, failure)
go_on visit es c failure = (c, failure)
go_on visit es c no_memory = (c, failure)

visit_all-append {ℓ} :
    {C : Type ℓ} (visit : Bytes → Bytes → C → C × Bool) (a b : List Entry) (c : C)
    → visit_all visit (a ++ b) c ≡ go_on visit b (visit_chain visit a c).0 (visit_chain visit a c).1
unfolding visit_all visit_chain go_on
visit_all-append visit [] b c = refl
visit_all-append visit ((k, v) ∷ a) b c = elim (Bool-cases (visit k v c).1) [
  | inl e ↦ rw (e, visit_all, visit_chain) (visit_all-append visit a b (visit k v c).0)
  | inr e ↦ rw (e, visit_all, visit_chain) refl
]

-- The round of one chain, by what the visit of the chain has returned.
round {ℓ} :
    {C : Type ℓ} (visit : Bytes → Bytes → C → C × Bool) (t : List Chain) (c : C) (r : Ret)
    → visit_table visit (length t) t c ≡ some (visit_all visit (table_entries t) c)
    → elim r [ success ↦ visit_table visit (length t) t c | _ ↦ some (c, failure) ]
      ≡ some (go_on visit (table_entries t) c r)
unfolding go_on
round visit t c success rest = rest
round visit t c not_found rest = refl
round visit t c failure rest = refl
round visit t c no_memory rest = refl

visit_table-all {ℓ} :
    {C : Type ℓ} (visit : Bytes → Bytes → C → C × Bool) (t : List Chain) (c : C)
    → visit_table visit (length t) t c ≡ some (visit_all visit (table_entries t) c)
unfolding visit_table table_entries visit_all
visit_table-all visit [] c = refl
visit_table-all visit (es ∷ t) c =
    let after = visit_chain visit es c in
    round visit t after.0 after.1 (visit_table-all visit t after.0)
    ∙ ap some (sym (visit_all-append visit es (table_entries t) c))

-- `foreach` on a valid table does not fault: it visits the nodes once each, chain after chain, and stops
-- with -1 where the visitor refuses one.
pub hash_foreach_lem {ℓ} :
    {C : Type ℓ} (visit : Bytes → Bytes → C → C × Bool) {h : KvHash} {t : List Chain} (c : C)
    → Holds h t
    → foreach visit h c ≡ some (visit_all visit (table_entries t) c)
unfolding foreach
hash_foreach_lem visit {h} {t} c v = rw (v.nodes, v.slots ∙ sym v.width) (visit_table-all visit t c)
