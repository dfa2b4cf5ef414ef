-- ===== src/Config/Validate.antt =====
-- src/config/config.c: what the lines give, and validate_config.
use kvstore.Common.{
  ℕ, ◌==◌, Bool, true, false, not, ◌&&◌, if◌then◌else◌, [], codes, Option, none, some,
}
use kvstore.Kvs.{
  Role, standalone, primary, replica, PersistenceMode, legacy_hybrid, snapshot_only, aof_only,
}
use kvstore.Memory.Pool.{pool}
use kvstore.Config.{
  Field, role_field, service_port_field, rdma_port_field, persistence_mode_field,
  replication_port_field, primary_host_field, primary_port_field, info_level, Config, Reason,
  missing_field, not_for_role, same_port, unsupported_mode, field_number,
}

-- The line and the reason of an error.
abbrev pub ConfigError : Type 0
ConfigError = ℕ × Reason

-- The settings that the lines so far give, and the line of each field that they have.
pub record Reading : Type 0 where
  pub parsed : Config
  pub field_lines : ℕ → Option ℕ

abbrev pub seen : Reading → Field → Bool
seen r field = elim (r.field_lines (field_number field)) [ none ↦ false | some line ↦ true ]

abbrev pub line_of : Reading → Field → ℕ
line_of r field = elim (r.field_lines (field_number field)) [ none ↦ 0 | some line ↦ line ]

abbrev pub mark : (ℕ → Option ℕ) → ℕ → ℕ → ℕ → Option ℕ
mark field_lines field line i = if i == field then some line else field_lines i

-- What the source starts with.
abbrev pub defaults : Reading
defaults = record {
  parsed = record {
    role = standalone;
    bind_ip = codes "0.0.0.0";
    service_port = 0;
    rdma_port = 0;
    replication_port = 0;
    primary_host = [];
    primary_port = 0;
    log_level = info_level;
    persistence_mode = legacy_hybrid;
    allocator_backend = pool;
  };
  field_lines = λ i. none;
}

-- The checks of a role's own fields.
unfoldable pub validate_role : Reading → Role → Option ConfigError
validate_role r standalone =
    if seen r replication_port_field
    then some (line_of r replication_port_field, not_for_role)
    else if seen r primary_host_field
    then some (line_of r primary_host_field, not_for_role)
    else if seen r primary_port_field
    then some (line_of r primary_port_field, not_for_role)
    else elim r.parsed.persistence_mode [
      | legacy_hybrid ↦ some (line_of r persistence_mode_field, unsupported_mode)
      | snapshot_only ↦ none
      | aof_only ↦ none
    ]
validate_role r primary =
    if seen r replication_port_field
    then some (line_of r replication_port_field, not_for_role)
    else if seen r primary_host_field
    then some (line_of r primary_host_field, not_for_role)
    else if seen r primary_port_field
    then some (line_of r primary_port_field, not_for_role)
    else none
validate_role r replica =
    if not (seen r primary_host_field)
    then some (0, missing_field)
    else if not (seen r primary_port_field)
    then some (0, missing_field)
    else if seen r replication_port_field
    then some (line_of r replication_port_field, not_for_role)
    else none

unfoldable pub is_hybrid : PersistenceMode → Bool
is_hybrid legacy_hybrid = true
is_hybrid snapshot_only = false
is_hybrid aof_only = false

-- The checks behind the switch.
unfoldable pub validate_replication : Reading → Role → Option ConfigError
validate_replication r standalone = none
validate_replication r primary =
    if not (is_hybrid r.parsed.persistence_mode)
    then some (line_of r persistence_mode_field, unsupported_mode)
    else if not (seen r rdma_port_field)
    then some (0, missing_field)
    else none
validate_replication r replica =
    if not (is_hybrid r.parsed.persistence_mode)
    then some (line_of r persistence_mode_field, unsupported_mode)
    else none

unfoldable pub is_primary : Role → Bool
is_primary primary = true
is_primary standalone = false
is_primary replica = false

unfoldable pub validate_config : Reading → Option ConfigError
validate_config r =
    if not (seen r role_field)
    then some (0, missing_field)
    else if not (seen r service_port_field)
    then some (0, missing_field)
    else if not (seen r persistence_mode_field)
    then some (0, missing_field)
    else if seen r rdma_port_field && not (is_primary r.parsed.role)
    then some (line_of r rdma_port_field, not_for_role)
    else if seen r rdma_port_field && r.parsed.rdma_port == r.parsed.service_port
    then some (line_of r rdma_port_field, same_port)
    else elim (validate_role r r.parsed.role) [
      | some error ↦ some error
      | none ↦ validate_replication r r.parsed.role
    ]
