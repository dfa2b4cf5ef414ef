-- ===== src/Config.antt =====
-- src/config/config.c: the configuration file.
-- A line is the bytes that getline gives, and the text of an error is its line, 0 for none, and the
-- reason. `valid_ipv4` is inet_pton of an IPv4 address.
pub mod Validate
pub mod Load
pub mod Ports
pub mod Sound
mod Examples
use kvstore.Common.{
  ℕ, ◌+◌, ◌-◌, ◌*◌, ◌==◌, ltb, leb, Bool, true, false, not, ◌&&◌, ◌||◌, if◌then◌else◌, List, [],
  ◌∷◌, Bytes, codes, str_eq, Option, none, some, length,
}
use kvstore.Kvs.{
  Role, standalone, primary, replica, PersistenceMode, legacy_hybrid, snapshot_only, aof_only,
}
use kvstore.Memory.Pool.{Backend, system, pool}

pub data Field : Type 0 where
  role_field bind_ip_field service_port_field rdma_port_field log_level_field : Field
  persistence_mode_field replication_port_field primary_host_field primary_port_field
        allocator_field :
      Field

pub data LogLevel : Type 0 where
  error_level info_level debug_level : LogLevel

pub record Config : Type 0 where
  pub role : Role
  pub bind_ip : Bytes
  pub service_port : ℕ
  pub rdma_port : ℕ
  pub replication_port : ℕ
  pub primary_host : Bytes
  pub primary_port : ℕ
  pub log_level : LogLevel
  pub persistence_mode : PersistenceMode
  pub allocator_backend : Backend

pub data Reason : Type 0 where
  cannot_open no_pair bad_pair unknown_field duplicate_field invalid_value read_failed
        close_failed :
      Reason
  missing_field not_for_role same_port unsupported_mode : Reason

-- The number that the source gives to a field.
abbrev pub field_number : Field → ℕ
field_number role_field = 0
field_number bind_ip_field = 1
field_number service_port_field = 2
field_number rdma_port_field = 3
field_number log_level_field = 4
field_number persistence_mode_field = 5
field_number replication_port_field = 6
field_number primary_host_field = 7
field_number primary_port_field = 8
field_number allocator_field = 9

unfoldable pub is_space : ℕ → Bool
is_space c = c == 32 || (leb 9 c && leb c 13)

-- The text up to a NUL.
unfoldable pub c_string : Bytes → Bytes
c_string [] = []
c_string (c ∷ cs) = let rest = c_string cs in if c == 0 then [] else c ∷ rest

unfoldable pub trim_front : Bytes → Bytes
trim_front [] = []
trim_front (c ∷ cs) = let rest = trim_front cs in if is_space c then rest else c ∷ cs

unfoldable pub trim_back : Bytes → Bytes
trim_back [] = []
trim_back (c ∷ cs) =
    let rest = trim_back cs in if is_space c && length rest == 0 then [] else c ∷ rest

unfoldable pub trim : Bytes → Bytes
trim text = trim_back (trim_front text)

-- The text in front of the first `=` and the text behind it.
unfoldable pub split_equal : Bytes → Option (Bytes × Bytes)
split_equal [] = none
split_equal (c ∷ cs) =
    let rest = split_equal cs in
    if c == 61
    then some ([], cs)
    else elim rest [ none ↦ none | some (key, value) ↦ some (c ∷ key, value) ]

unfoldable pub find_field : Bytes → Option Field
find_field name =
    if str_eq name (codes "role")
    then some role_field
    else if str_eq name (codes "bind_ip")
    then some bind_ip_field
    else if str_eq name (codes "service_port")
    then some service_port_field
    else if str_eq name (codes "rdma_port")
    then some rdma_port_field
    else if str_eq name (codes "log_level")
    then some log_level_field
    else if str_eq name (codes "persistence_mode")
    then some persistence_mode_field
    else if str_eq name (codes "replication_port")
    then some replication_port_field
    else if str_eq name (codes "primary_host")
    then some primary_host_field
    else if str_eq name (codes "primary_port")
    then some primary_port_field
    else if str_eq name (codes "allocator")
    then some allocator_field
    else none

-- strtol on digits; a number beyond `long` is too large for a port too.
unfoldable pub digits_value : ℕ → Bytes → Option ℕ
digits_value number [] = some number
digits_value number (c ∷ cs) =
    let rest = digits_value (number * 10 + (c - 48)) cs in
    if leb 48 c && leb c 57 then rest else none

unfoldable pub parse_port : Bytes → Option ℕ
parse_port text = if length text == 0 then none else elim (digits_value 0 text) [
  | none ↦ none
  | some number ↦ if ltb number 1 || ltb 65535 number then none else some number
]

unfoldable pub parse_role : Bytes → Option Role
parse_role value =
    if str_eq value (codes "standalone")
    then some standalone
    else if str_eq value (codes "primary")
    then some primary
    else if str_eq value (codes "replica")
    then some replica
    else none

unfoldable pub parse_level : Bytes → Option LogLevel
parse_level value =
    if str_eq value (codes "error")
    then some error_level
    else if str_eq value (codes "info")
    then some info_level
    else if str_eq value (codes "debug")
    then some debug_level
    else none

unfoldable pub parse_mode : Bytes → Option PersistenceMode
parse_mode value =
    if str_eq value (codes "legacy_hybrid")
    then some legacy_hybrid
    else if str_eq value (codes "snapshot")
    then some snapshot_only
    else if str_eq value (codes "aof")
    then some aof_only
    else none

unfoldable pub parse_backend : Bytes → Option Backend
parse_backend value =
    if str_eq value (codes "system")
    then some system
    else if str_eq value (codes "pool")
    then some pool
    else none
