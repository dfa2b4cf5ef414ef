-- ===== src/Engines/Contract.antt =====
-- What an engine promises the executor: a map from keys to values behind the return codes.
use kvstore.Common.{◌≡◌, Bytes, Option, some}
use kvstore.Engines.Assoc.{update}
use kvstore.Engines.Base.{Ret, success, not_found, failure, no_memory, Run}

module _ {S : Type 0} (IsValid : S → Type 0) (view : S → Bytes → Option Bytes) where
  -- The store `t` is valid and reads as `s` does but for `k`, under which it has `o`.
  pub record Wrote (s : S) (k : Bytes) (o : Option Bytes) (t : S) : Type 0 where
    pub valid : IsValid t
    pub reads : (q : Bytes) → view t q ≡ update (view s) k o q

-- A write that returns 0 has changed its key, and any other return code leaves the store as it was.
abbrev pub After :
    {S : Type 0}
    → (S → Type 0)
    → (S → Bytes → Option Bytes)
    → S
    → Bytes
    → Option Bytes
    → S × Ret
    → Type 0
After V view s k o (t, success) = Wrote V view s k o t
After V view s k o (t, not_found) = t ≡ s
After V view s k o (t, failure) = t ≡ s
After V view s k o (t, no_memory) = t ≡ s

-- The run `run` of a write does not fault and returns `code`, and the store is as `After` says.
abbrev pub Results :
    {S : Type 0}
    → (S → Type 0)
    → (S → Bytes → Option Bytes)
    → S
    → Bytes
    → Option Bytes
    → Ret
    → Run (S × Ret)
    → Type 0
Results {S} V view s k o code run =
    (r : S × Ret) × (run ≡ some r) × (r.1 ≡ code) × After V view s k o r
