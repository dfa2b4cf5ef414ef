-- ===== src/Kvs/Promise.antt =====
-- src/kvstore.c: what the executor relies on in an engine, and the engines that keep to it.
use kvstore.Common.{◌≡◌, sym, subst, List, [], ◌∷◌, Bytes, codes, Option, some}
use kvstore.Engines.Base.{Ret, success, not_found, failure, no_memory, Mem, Run}
use kvstore.Engines.Contract.{After, Results}
use kvstore.Engines.Array.Shape
use kvstore.Engines.Array.Laws.{
  array_set_value_lem, array_mod_value_lem, array_get_lem, array_exist_lem,
}
use kvstore.Engines.Array.Removal.{array_del_lem}
use kvstore.Engines.Hash.Table
use kvstore.Engines.Hash.Laws.{
  hash_set_value_lem, hash_mod_value_lem, hash_get_lem, hash_del_lem, hash_exist_lem,
}
use kvstore.Kvs.{
  Engine, run_op, array_engine, hash_engine, answered, write_reply, get_reply, exist_reply,
  first_of,
}
use kvstore.Kvs.Commands.{Op, set_op, get_op, del_op, mod_op, exist_op}

-- A write that does not fault and leaves a valid store.
abbrev pub Ends : {S X : Type 0} → (S → Type 0) → Run (S × X) → Type 0
Ends {S} {X} V run = (r : S × X) × (run ≡ some r) × V r.0

-- What an engine promises the executor: on a valid store and a key that it can take no operation
-- faults, and the writes leave a valid store.
pub record IsTotal {S : Type 0} (e : Engine S) (V : S → Type 0) (IsKey : Bytes → Type 0)
    : Type 0 where
  pub set_ends : (mem : Mem) (s : S) (k v : Bytes) → V s → IsKey k → Ends V (e.set_value mem s k v)
  pub mod_ends : (mem : Mem) (s : S) (k v : Bytes) → V s → IsKey k → Ends V (e.mod_value mem s k v)
  pub del_ends : (s : S) (k : Bytes) → V s → IsKey k → Ends V (e.del s k)
  pub get_ends : (s : S) (k : Bytes) → V s → IsKey k → (o : Option Bytes) × (e.get s k ≡ some o)
  pub exist_ends : (s : S) (k : Bytes) → V s → IsKey k → (o : Ret) × (e.exist s k ≡ some o)

After-valid :
    {S : Type 0} (V : S → Type 0) (view : S → Bytes → Option Bytes) (s : S) (k : Bytes)
    (o : Option Bytes) (r : S × Ret)
    → V s
    → After V view s k o r
    → V r.0
After-valid V view s k o (t, success) v w = w.valid
After-valid V view s k o (t, not_found) v w = subst V (sym w) v
After-valid V view s k o (t, failure) v w = subst V (sym w) v
After-valid V view s k o (t, no_memory) v w = subst V (sym w) v

Results-Ends :
    {S : Type 0} (V : S → Type 0) (view : S → Bytes → Option Bytes) (s : S) (k : Bytes)
    (o : Option Bytes) (code : Ret) (run : Run (S × Ret))
    → V s
    → Results V view s k o code run
    → Ends V run
Results-Ends V view s k o code run v (r, e, c, w) = (r, e, After-valid V view s k o r v w)

-- Every key is a key of the array.
abbrev pub AnyKey : Bytes → Type 0
AnyKey k = Unit

pub array_engine-IsTotal : IsTotal array_engine Shape.IsValid AnyKey
unfolding array_engine
array_engine-IsTotal = record {
  set_ends = λ mem s k v ok key.
      Results-Ends Shape.IsValid Shape.view s k _ _ _ ok (array_set_value_lem mem k v ok);
  mod_ends = λ mem s k v ok key.
      Results-Ends Shape.IsValid Shape.view s k _ _ _ ok (array_mod_value_lem mem k v ok);
  del_ends = λ s k ok key. Results-Ends Shape.IsValid Shape.view s k _ _ _ ok (array_del_lem k ok);
  get_ends = λ s k ok key. (_, array_get_lem k ok);
  exist_ends = λ s k ok key. (_, array_exist_lem k ok);
}

pub hash_engine-IsTotal : IsTotal hash_engine Table.IsValid Table.IsKey
unfolding hash_engine
hash_engine-IsTotal = record {
  set_ends = λ mem s k v ok key.
      Results-Ends Table.IsValid Table.view s k _ _ _ ok (hash_set_value_lem mem k v ok key);
  mod_ends = λ mem s k v ok key.
      Results-Ends Table.IsValid Table.view s k _ _ _ ok (hash_mod_value_lem mem k v ok key);
  del_ends =
      λ s k ok key. Results-Ends Table.IsValid Table.view s k _ _ _ ok (hash_del_lem k ok key);
  get_ends = λ s k ok key. (_, hash_get_lem k ok key);
  exist_ends = λ s k ok key. (_, hash_exist_lem k ok key);
}

answered-Ends :
    {S : Type 0} (V : S → Type 0) (other : Bytes) (run : Run (S × Ret))
    → Ends V run
    → Ends V (answered other run)
unfolding answered
answered-Ends V other run ((s, ret), e, v) =
    ((s, (ret, write_reply other ret)), rw (e, answered), v)

-- The arguments that an operation reads.
abbrev pub HasArguments : Op → List Bytes → Type 0
HasArguments op [] = ⊥
HasArguments set_op (k ∷ []) = ⊥
HasArguments mod_op (k ∷ []) = ⊥
HasArguments get_op (k ∷ []) = Unit
HasArguments del_op (k ∷ []) = Unit
HasArguments exist_op (k ∷ []) = Unit
HasArguments op (k ∷ v ∷ rest) = Unit

pub run_op-Ends :
    {S : Type 0} (e : Engine S) (V : S → Type 0) (IsKey : Bytes → Type 0) (mem : Mem) (op : Op)
    (s : S) (key : Bytes) (rest : List Bytes)
    → IsTotal e V IsKey
    → V s
    → IsKey key
    → HasArguments op (key ∷ rest)
    → Ends V (run_op e mem op s key (first_of rest))
unfolding run_op first_of
run_op-Ends e V IsKey mem set_op s key [] t v k a = absurd a
run_op-Ends e V IsKey mem set_op s key (x ∷ rest) t v k a =
    answered-Ends V (codes "EXIST") (e.set_value mem s key x) (t.set_ends mem s key x v k)
run_op-Ends e V IsKey mem mod_op s key [] t v k a = absurd a
run_op-Ends e V IsKey mem mod_op s key (x ∷ rest) t v k a =
    answered-Ends V (codes "NO EXIST") (e.mod_value mem s key x) (t.mod_ends mem s key x v k)
run_op-Ends e V IsKey mem del_op s key rest t v k a =
    answered-Ends V (codes "NO EXIST") (e.del s key) (t.del_ends s key v k)
run_op-Ends e V IsKey mem get_op s key rest t v k a =
    let (o, h) = t.get_ends s key v k in ((s, (success, get_reply o)), rw (h, run_op), v)
run_op-Ends e V IsKey mem exist_op s key rest t v k a =
    let (o, h) = t.exist_ends s key v k in ((s, (o, exist_reply o)), rw (h, run_op), v)
