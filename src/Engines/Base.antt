-- ===== src/Engines/Base.antt =====
-- include/kvstore.h: what the engines share.
use kvstore.Common.{ℕ, Bool, true, Option}

-- The return codes 0, 1, -1 and -2.
pub data Ret : Type 0 where
  success not_found failure no_memory : Ret

-- The outcomes of the calls of kvs_malloc that one operation makes.
abbrev pub Mem : Type 0
Mem = ℕ → Bool

-- Every allocation succeeds.
abbrev pub plenty : Mem
plenty i = true

-- `none` stands for undefined behaviour: a read through NULL or outside an array.
abbrev pub Run {ℓ} : Type ℓ → Type ℓ
Run A = Option A
