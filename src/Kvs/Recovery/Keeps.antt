-- ===== src/Kvs/Recovery/Keeps.antt =====
-- src/kvstore.c: an operation that has not written leaves its engine as it was.
use kvstore.Common.{
  none-some, some_same, ◌⊎◌, ◌≡◌, refl, sym, ap, ◌∙◌, arith, true, false, ◌++◌, Bytes, codes,
  Option, none, some, inl, inr,
}
use kvstore.Protocol.{crlf}
use kvstore.Engines.Base.{Ret, success, not_found, failure, no_memory, Mem, Run}
use kvstore.Engines.Array.Frame.{array_set-kept, array_mod-kept, array_del-kept}
use kvstore.Engines.Hash.Frame.{hash_set-kept, hash_mod-kept, hash_del-kept}
use kvstore.Kvs.{Engine, run_op, is_success, array_engine, hash_engine, answered, write_reply}
use kvstore.Kvs.Refusal.{run_op-read}
use kvstore.Kvs.Commands.{Op, set_op, get_op, del_op, mod_op, exist_op, is_write_command}

-- What the recovery relies on in an engine: a write that does not return 0 has changed nothing.
pub record Keeps {S : Type 0} (e : Engine S) : Type 0 where
  pub set_keeps :
      (mem : Mem) (s t : S) (k v : Bytes) (ret : Ret)
      → e.set_value mem s k v ≡ some (t, ret)
      → (ret ≡ success) ⊎ (t ≡ s)
  pub mod_keeps :
      (mem : Mem) (s t : S) (k v : Bytes) (ret : Ret)
      → e.mod_value mem s k v ≡ some (t, ret)
      → (ret ≡ success) ⊎ (t ≡ s)
  pub del_keeps :
      (s t : S) (k : Bytes) (ret : Ret) → e.del s k ≡ some (t, ret) → (ret ≡ success) ⊎ (t ≡ s)

pub array_engine-Keeps : Keeps array_engine
unfolding array_engine
array_engine-Keeps = record {
  set_keeps = array_set-kept;
  mod_keeps = array_mod-kept;
  del_keeps = array_del-kept;
}

pub hash_engine-Keeps : Keeps hash_engine
unfolding hash_engine
hash_engine-Keeps = record {
  set_keeps = hash_set-kept;
  mod_keeps = hash_mod-kept;
  del_keeps = hash_del-kept;
}

-- The store, the code and the reply that `answered` passes on.
answered_parts :
    {S : Type 0} (other : Bytes) (run : Run (S × Ret)) (t : S) (ret : Ret) (reply : Bytes)
    → answered other run ≡ some (t, (ret, reply))
    → (run ≡ some (t, ret)) × (reply ≡ write_reply other ret)
unfolding answered
answered_parts other none t ret reply h = absurd (none-some h)
answered_parts other (some (s, r)) t ret reply h = ground arith

not_success : (ret : Ret) → is_success ret ≡ false → ret ≡ success → ⊥
unfolding is_success
not_success ret h e = cc

success_reply :
    (other : Bytes) (ret : Ret) → is_success ret ≡ true → write_reply other ret ≡ codes "OK" ++ crlf
unfolding is_success write_reply
success_reply other success h = refl
success_reply other not_found h = absurd (cc)
success_reply other failure h = absurd (cc)
success_reply other no_memory h = absurd (cc)

kept_or :
    {S : Type 0} {s t : S} (ret : Ret) → is_success ret ≡ false → (ret ≡ success) ⊎ (t ≡ s) → t ≡ s
kept_or ret h (inl e) = absurd (not_success ret h e)
kept_or ret h (inr e) = e

pub run_op-kept :
    {S : Type 0} (e : Engine S) (mem : Mem) (op : Op) (s t : S) (key : Bytes) (value : Option Bytes)
    (ret : Ret) (reply : Bytes)
    → Keeps e
    → run_op e mem op s key value ≡ some (t, (ret, reply))
    → is_success ret ≡ false
    → t ≡ s
unfolding run_op
run_op-kept e mem set_op s t key none ret reply k h f =
    let same = some_same (answered_parts (codes "EXIST") _ t ret reply h).0 in
    sym (ap (λ p. p.0) same)
run_op-kept e mem set_op s t key (some v) ret reply k h f =
    kept_or ret f (k.set_keeps mem s t key v ret (answered_parts (codes "EXIST") _ t ret reply h).0)
run_op-kept e mem mod_op s t key none ret reply k h f = absurd (none-some h)
run_op-kept e mem mod_op s t key (some v) ret reply k h f =
    kept_or ret f
      (k.mod_keeps mem s t key v ret (answered_parts (codes "NO EXIST") _ t ret reply h).0)
run_op-kept e mem del_op s t key value ret reply k h f =
    kept_or ret f (k.del_keeps s t key ret (answered_parts (codes "NO EXIST") _ t ret reply h).0)
run_op-kept e mem get_op s t key value ret reply k h f =
    run_op-read e mem get_op s key value (t, (ret, reply)) (unfold is_write_command in refl) h
run_op-kept e mem exist_op s t key value ret reply k h f =
    run_op-read e mem exist_op s key value (t, (ret, reply)) (unfold is_write_command in refl) h

-- A write that has succeeded replies OK.
pub run_op-ok :
    {S : Type 0} (e : Engine S) (mem : Mem) (op : Op) (s t : S) (key : Bytes) (value : Option Bytes)
    (ret : Ret) (reply : Bytes)
    → run_op e mem op s key value ≡ some (t, (ret, reply))
    → is_write_command op ≡ true
    → is_success ret ≡ true
    → reply ≡ codes "OK" ++ crlf
unfolding run_op is_write_command
run_op-ok e mem set_op s t key none ret reply h w f =
    (answered_parts (codes "EXIST") _ t ret reply h).1 ∙ success_reply (codes "EXIST") ret f
run_op-ok e mem set_op s t key (some v) ret reply h w f =
    (answered_parts (codes "EXIST") _ t ret reply h).1 ∙ success_reply (codes "EXIST") ret f
run_op-ok e mem mod_op s t key none ret reply h w f = absurd (none-some h)
run_op-ok e mem mod_op s t key (some v) ret reply h w f =
    (answered_parts (codes "NO EXIST") _ t ret reply h).1 ∙ success_reply (codes "NO EXIST") ret f
run_op-ok e mem del_op s t key value ret reply h w f =
    (answered_parts (codes "NO EXIST") _ t ret reply h).1 ∙ success_reply (codes "NO EXIST") ret f
run_op-ok e mem get_op s t key value ret reply h w f = absurd (cc)
run_op-ok e mem exist_op s t key value ret reply h w f = absurd (cc)
