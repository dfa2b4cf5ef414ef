-- ===== src/Kvs/Total.antt =====
-- src/kvstore.c: the end of a command and the validity of the engines behind it.
use kvstore.Common.{
  ◌≡◌, refl, sym, subst, List, [], ◌∷◌, ◌++◌, Bytes, codes, Option, none, some, Bool-cases,
  Option-cases, inl, inr, ◌&&◌,
}
use kvstore.Protocol.{crlf}
use kvstore.Engines.Base.{Ret, Run}
use kvstore.Engines.Array.Shape
use kvstore.Engines.Hash.Table
use kvstore.Aof.{Writer, append}
use kvstore.Kvs.{
  CommandSource, Engine, Env, Server, Outcome, replied, run_op, outcome_server, array_engine,
  hash_engine, first_of, dispatch, finish, log_command, execute_known, filter_protocol, refuses,
  readonly_reply, is_success, is_logged,
}
use kvstore.Kvs.Commands.{Op, Which, array, rbtree, hash, skiplist, find_command, is_write_command}
use kvstore.Kvs.Promise.{
  Ends, IsTotal, AnyKey, HasArguments, array_engine-IsTotal, hash_engine-IsTotal, run_op-Ends,
}

-- Putting the engine's store back.
put_back-Ends :
    {S T X : Type 0} (V : S → Type 0) (W : T → Type 0) (put : S → T) (run : Run (S × X))
    → ((s : S) → V s → W (put s))
    → Ends V run
    → Ends W (elim run [ none ↦ none | some (s, x) ↦ some (put s, x) ])
put_back-Ends V W put none whole (r, e, v) = absurd (cc)
put_back-Ends V W put (some (s, x)) whole (r, e, v) =
    let same : s ≡ r.0 = cc in ((put s, x), refl, whole s (subst V (sym same) v))

-- All four engines are valid.
pub record AreValid {R K : Type 0} (V : R → Type 0) (U : K → Type 0) (sv : Server R K)
    : Type 0 where
  pub array_store : Shape.IsValid sv.array_store
  pub rbtree_store : V sv.rbtree_store
  pub hash_store : Table.IsValid sv.hash_store
  pub skiplist_store : U sv.skiplist_store

-- The keys that an engine can take: the hash table needs one with an index.
abbrev pub IsKeyOf : Which → List Bytes → Type 0
IsKeyOf which [] = Unit
IsKeyOf hash (k ∷ rest) = Table.IsKey k
IsKeyOf array (k ∷ rest) = Unit
IsKeyOf rbtree (k ∷ rest) = Unit
IsKeyOf skiplist (k ∷ rest) = Unit

-- What a command with a known name needs: the arguments that it reads and a key for its engine.
abbrev pub Suits : Option (Which × Op) → List Bytes → Type 0
Suits none args = Unit
Suits (some (which, op)) args = HasArguments op args × IsKeyOf which args

module _ {R K : Type 0} (rb : Engine R) (sk : Engine K) (V : R → Type 0) (U : K → Type 0)
    (rb_total : IsTotal rb V AnyKey) (sk_total : IsTotal sk U AnyKey) (env : Env) where
  dispatch-Ends :
      (which : Which) (op : Op) (sv : Server R K) (key : Bytes) (rest : List Bytes)
      → AreValid V U sv
      → IsKeyOf which (key ∷ rest)
      → HasArguments op (key ∷ rest)
      → Ends (AreValid V U) (dispatch rb sk env which op sv key (first_of rest))
  unfolding dispatch
  dispatch-Ends array op sv key rest v k a =
      put_back-Ends Shape.IsValid (AreValid V U) (λ s. record sv { array_store = s })
        (run_op array_engine env.mem op sv.array_store key (first_of rest))
        (λ s ok. record {
          array_store = ok;
          rbtree_store = v.rbtree_store;
          hash_store = v.hash_store;
          skiplist_store = v.skiplist_store;
        })
        (run_op-Ends array_engine Shape.IsValid AnyKey env.mem op sv.array_store key rest
          array_engine-IsTotal v.array_store tt a)
  dispatch-Ends rbtree op sv key rest v k a =
      put_back-Ends V (AreValid V U) (λ s. record sv { rbtree_store = s })
        (run_op rb env.mem op sv.rbtree_store key (first_of rest))
        (λ s ok. record {
          array_store = v.array_store;
          rbtree_store = ok;
          hash_store = v.hash_store;
          skiplist_store = v.skiplist_store;
        })
        (run_op-Ends rb V AnyKey env.mem op sv.rbtree_store key rest rb_total v.rbtree_store tt a)
  dispatch-Ends hash op sv key rest v k a =
      put_back-Ends Table.IsValid (AreValid V U) (λ s. record sv { hash_store = s })
        (run_op hash_engine env.mem op sv.hash_store key (first_of rest))
        (λ s ok. record {
          array_store = v.array_store;
          rbtree_store = v.rbtree_store;
          hash_store = ok;
          skiplist_store = v.skiplist_store;
        })
        (run_op-Ends hash_engine Table.IsValid Table.IsKey env.mem op sv.hash_store key rest
          hash_engine-IsTotal v.hash_store k a)
  dispatch-Ends skiplist op sv key rest v k a =
      put_back-Ends U (AreValid V U) (λ s. record sv { skiplist_store = s })
        (run_op sk env.mem op sv.skiplist_store key (first_of rest))
        (λ s ok. record {
          array_store = v.array_store;
          rbtree_store = v.rbtree_store;
          hash_store = v.hash_store;
          skiplist_store = ok;
        })
        (run_op-Ends sk U AnyKey env.mem op sv.skiplist_store key rest sk_total v.skiplist_store tt
          a)

  -- The end of a command touches no engine.
  finish-AreValid :
      (source : CommandSource) (tokens : List Bytes) (op : Op) (sv : Server R K) (ret : Ret)
      (reply : Bytes)
      → AreValid V U sv
      → AreValid V U (outcome_server (finish rb sk env source tokens op sv ret reply))
  unfolding finish log_command
  finish-AreValid source tokens op sv ret reply v =
      elim (Bool-cases (is_success ret && (is_write_command op && is_logged source sv.mode))) [
        | inr e ↦ rw (e, finish) v
        | inl e ↦
            rw (e, finish, log_command)
              (elim (Bool-cases (append env.fits env.io sv.writer tokens).1) [
                | inl d ↦ rw d (same v)
                | inr d ↦ rw d (same v)
              ])
      ]
    where
      same : {w : Writer} → AreValid V U sv → AreValid V U (record sv { writer = w })
      same v = record {
        array_store = v.array_store;
        rbtree_store = v.rbtree_store;
        hash_store = v.hash_store;
        skiplist_store = v.skiplist_store;
      }

  known-AreValid :
      (source : CommandSource) (tokens : List Bytes) (cmd : Which × Op) (args : List Bytes)
      (sv : Server R K)
      → AreValid V U sv
      → Suits (some cmd) args
      → (o : Outcome R K) × (execute_known rb sk env source tokens cmd args sv ≡ some o)
        × AreValid V U (outcome_server o)
  unfolding execute_known
  known-AreValid source tokens (which, op) [] sv v (a, k) = absurd a
  known-AreValid source tokens (which, op) (key ∷ rest) sv v (a, k) =
      let ((sv', (ret, reply)), e, v') = dispatch-Ends which op sv key rest v k a in
      (
        finish rb sk env source tokens op sv' ret reply,
        rw (e, execute_known),
        finish-AreValid source tokens op sv' ret reply v',
      )

  -- Every command with the arguments that it reads and, for the hash table, a key with an index ends,
  -- whatever the role, the source and the outcomes of allocations and of the AOF, and leaves all four
  -- engines valid, if they were and the engines of the tree and the skiplist are total.
  pub filter_protocol-ends :
      (source : CommandSource) (name : Bytes) (args : List Bytes) (sv : Server R K)
      → AreValid V U sv
      → Suits (find_command name) args
      → (o : Outcome R K) × (filter_protocol rb sk env source (name ∷ args) sv ≡ some o)
        × AreValid V U (outcome_server o)
  unfolding filter_protocol
  filter_protocol-ends source name args sv v suits = elim (Option-cases (find_command name)) [
    | inl e ↦ (replied sv (codes "ERROR unknown command" ++ crlf) none, rw (e, filter_protocol), v)
    | inr (cmd, e) ↦ elim (Bool-cases (refuses sv.role source cmd.1)) [
      | inl r ↦ (replied sv readonly_reply none, rw (e, filter_protocol, r), v)
      | inr r ↦
          let (o, run, v') =
            known-AreValid source (name ∷ args) cmd args sv v (subst (λ c. Suits c args) e suits) in
          (o, rw (e, filter_protocol, r) run, v')
    ]
  ]
