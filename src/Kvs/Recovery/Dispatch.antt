-- ===== src/Kvs/Recovery/Dispatch.antt =====
-- src/kvstore.c: what the switch over the commands reads and writes.
use kvstore.Common.{
  none-some, some_same, ◌≡◌, sym, ap, ◌∙◌, Bool, true, false, ◌++◌, Bytes, codes, Option, none,
  some,
}
use kvstore.Protocol.{crlf}
use kvstore.Engines.Base.{Ret, Mem, Run}
use kvstore.Engines.Array.{KvArray}
use kvstore.Engines.Hash.{KvHash}
use kvstore.Aof.{Io}
use kvstore.Kvs.{Engine, Server, run_op, is_success, array_engine, hash_engine, dispatch}
use kvstore.Kvs.Recovery.Keeps.{
  Keeps, array_engine-Keeps, hash_engine-Keeps, run_op-kept, run_op-ok,
}
use kvstore.Kvs.Commands.{Op, Which, array, rbtree, hash, skiplist, is_write_command}

-- The engines of one server and the settings of another.
abbrev pub with_engines : {R K : Type 0} → Server R K → Server R K → Server R K
with_engines sv settings = record settings {
  array_store = sv.array_store;
  rbtree_store = sv.rbtree_store;
  hash_store = sv.hash_store;
  skiplist_store = sv.skiplist_store;
}

-- What putting one engine's store back tells of its operation.
record Part {S T : Type 0} (run : Run (S × (Ret × Bytes))) (op : Op) (s : S) (put : S → T) (t : T)
    (ret : Ret) (reply : Bytes) : Type 0 where
  pub store : S
  pub ran : run ≡ some (store, (ret, reply))
  pub back : t ≡ put store
  pub same : is_success ret ≡ false → store ≡ s
  pub ok : is_write_command op ≡ true → is_success ret ≡ true → reply ≡ codes "OK" ++ crlf

inverse :
    {S T X : Type 0} (put : S → T) (run : Run (S × X)) (t : T) (x : X)
    → ◌≡◌ {A = Run (T × X)} (elim run [ none ↦ none | some (s, y) ↦ some (put s, y) ]) (some (t, x))
    → (s : S) × (run ≡ some (s, x)) × (t ≡ put s)
inverse put none t x h = absurd (none-some h)
inverse put (some (s, y)) t x h =
    let e : (put s, y) ≡ (t, x) = some_same h in
    (s, ap (λ z. some (s, z)) (ap (λ p. p.1) e), sym (ap (λ p. p.0) e))

part :
    {S T : Type 0} (e : Engine S) (mem : Mem) (op : Op) (s : S) (key : Bytes) (value : Option Bytes)
    (put : S → T) (t : T) (ret : Ret) (reply : Bytes)
    → Keeps e
    → ◌≡◌ {A = Run (T × (Ret × Bytes))}
        (elim (run_op e mem op s key value) [ none ↦ none | some (s', y) ↦ some (put s', y) ])
        (some (t, (ret, reply)))
    → Part (run_op e mem op s key value) op s put t ret reply
part e mem op s key value put t ret reply k h =
    let (s', ran, back) = inverse put (run_op e mem op s key value) t (ret, reply) h in
    record {
      store = s';
      ran = ran;
      back = back;
      same = λ f. run_op-kept e mem op s s' key value ret reply k ran f;
      ok = λ w f. run_op-ok e mem op s s' key value ret reply ran w f;
    }

module _ {R K : Type 0} (rb : Engine R) (sk : Engine K) (mem : Mem) where
  -- What a command that does not fault leaves, and that the engines alone decide it: with the same
  -- engines and allocations it does the same to any other server.
  pub record Dispatched (which : Which) (op : Op) (sv : Server R K) (key : Bytes)
      (value : Option Bytes) (sv' : Server R K) (ret : Ret) (reply : Bytes) : Type 0 where
    pub unchanged : is_success ret ≡ false → sv' ≡ sv
    pub ok : is_write_command op ≡ true → is_success ret ≡ true → reply ≡ codes "OK" ++ crlf
    pub writer : sv'.writer ≡ sv.writer
    pub mode : sv'.mode ≡ sv.mode
    pub moved :
        (other : Server R K) (fits : Bool) (io : Io)
        → dispatch rb sk
            (record { mem = mem; fits = fits; io = io })
            which
            op
            (with_engines sv other)
            key
            value
          ≡ some (with_engines sv' other, (ret, reply))

  pub dispatch-Dispatched :
      (fits : Bool) (io : Io) (which : Which) (op : Op) (sv : Server R K) (key : Bytes)
      (value : Option Bytes) (sv' : Server R K) (ret : Ret) (reply : Bytes)
      → Keeps rb
      → Keeps sk
      → dispatch rb sk (record { mem = mem; fits = fits; io = io }) which op sv key value
        ≡ some (sv', (ret, reply))
      → Dispatched which op sv key value sv' ret reply
  unfolding dispatch
  dispatch-Dispatched fits io array op sv key value sv' ret reply kr ks h =
      let put : KvArray → Server R K = λ s. record sv { array_store = s } in
      let p =
        part array_engine mem op sv.array_store key value put sv' ret reply array_engine-Keeps h in
      record {
        unchanged = λ f. p.back ∙ ap put (p.same f);
        ok = p.ok;
        writer = ap (λ x. x.writer) p.back;
        mode = ap (λ x. x.mode) p.back;
        moved = λ other f i.
            rw (p.ran, dispatch) (ap (λ x. some (with_engines x other, (ret, reply))) (sym p.back));
      }
  dispatch-Dispatched fits io rbtree op sv key value sv' ret reply kr ks h =
      let put : R → Server R K = λ s. record sv { rbtree_store = s } in
      let p = part rb mem op sv.rbtree_store key value put sv' ret reply kr h in
      record {
        unchanged = λ f. p.back ∙ ap put (p.same f);
        ok = p.ok;
        writer = ap (λ x. x.writer) p.back;
        mode = ap (λ x. x.mode) p.back;
        moved = λ other f i.
            rw (p.ran, dispatch) (ap (λ x. some (with_engines x other, (ret, reply))) (sym p.back));
      }
  dispatch-Dispatched fits io hash op sv key value sv' ret reply kr ks h =
      let put : KvHash → Server R K = λ s. record sv { hash_store = s } in
      let p =
        part hash_engine mem op sv.hash_store key value put sv' ret reply hash_engine-Keeps h in
      record {
        unchanged = λ f. p.back ∙ ap put (p.same f);
        ok = p.ok;
        writer = ap (λ x. x.writer) p.back;
        mode = ap (λ x. x.mode) p.back;
        moved = λ other f i.
            rw (p.ran, dispatch) (ap (λ x. some (with_engines x other, (ret, reply))) (sym p.back));
      }
  dispatch-Dispatched fits io skiplist op sv key value sv' ret reply kr ks h =
      let put : K → Server R K = λ s. record sv { skiplist_store = s } in
      let p = part sk mem op sv.skiplist_store key value put sv' ret reply ks h in
      record {
        unchanged = λ f. p.back ∙ ap put (p.same f);
        ok = p.ok;
        writer = ap (λ x. x.writer) p.back;
        mode = ap (λ x. x.mode) p.back;
        moved = λ other f i.
            rw (p.ran, dispatch) (ap (λ x. some (with_engines x other, (ret, reply))) (sym p.back));
      }
