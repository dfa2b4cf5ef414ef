-- ===== src/Kvs/Commands.antt =====
-- src/kvstore.c: the table of commands.
use kvstore.Common.{
  ◌≡◌, refl, Bool, true, false, List, [], ◌∷◌, Bytes, codes, Option, none, some, str_eq,
  if◌then◌else◌,
}

-- `cmd % 5` and `cmd / 5` of the command's number.
pub data Op : Type 0 where
  set_op get_op del_op mod_op exist_op : Op

pub data Which : Type 0 where
  array rbtree hash skiplist : Which

-- The table `command`, in the order of the enumeration beside it.
abbrev pub command : List (Bytes × (Which × Op))
command =
    (codes "SET", (array, set_op))
    ∷ (codes "GET", (array, get_op))
    ∷ (codes "DEL", (array, del_op))
    ∷ (codes "MOD", (array, mod_op))
    ∷ (codes "EXIST", (array, exist_op))
    ∷ (codes "RSET", (rbtree, set_op))
    ∷ (codes "RGET", (rbtree, get_op))
    ∷ (codes "RDEL", (rbtree, del_op))
    ∷ (codes "RMOD", (rbtree, mod_op))
    ∷ (codes "REXIST", (rbtree, exist_op))
    ∷ (codes "HSET", (hash, set_op))
    ∷ (codes "HGET", (hash, get_op))
    ∷ (codes "HDEL", (hash, del_op))
    ∷ (codes "HMOD", (hash, mod_op))
    ∷ (codes "HEXIST", (hash, exist_op))
    ∷ (codes "SSET", (skiplist, set_op))
    ∷ (codes "SGET", (skiplist, get_op))
    ∷ (codes "SDEL", (skiplist, del_op))
    ∷ (codes "SMOD", (skiplist, mod_op))
    ∷ (codes "SEXIST", (skiplist, exist_op))
    ∷ []

unfoldable pub find_loop : Bytes → List (Bytes × (Which × Op)) → Option (Which × Op)
find_loop name [] = none
find_loop name ((text, cmd) ∷ rest) =
    let later = find_loop name rest in if str_eq name text then some cmd else later

-- `none` stands for KVS_CMD_COUNT.
unfoldable pub find_command : Bytes → Option (Which × Op)
find_command name = find_loop name command

unfoldable pub is_write_command : Op → Bool
is_write_command set_op = true
is_write_command get_op = false
is_write_command del_op = true
is_write_command mod_op = true
is_write_command exist_op = false

pub find_command-set : find_command (codes "SET") ≡ some (array, set_op)
unfolding find_command find_loop str_eq
find_command-set = refl
