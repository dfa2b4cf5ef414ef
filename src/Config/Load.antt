-- ===== src/Config/Load.antt =====
-- src/config/config.c: parse_field and kvs_config_load.
use kvstore.Common.{
  ℕ, ◌+◌, ◌==◌, Bool, true, false, not, ◌||◌, if◌then◌else◌, List, [], ◌∷◌, Bytes, codes, str_eq,
  Option, none, some, length,
}
use kvstore.Config.{
  Field, role_field, bind_ip_field, service_port_field, rdma_port_field, log_level_field,
  persistence_mode_field, replication_port_field, primary_host_field, primary_port_field,
  allocator_field, Config, cannot_open, no_pair, bad_pair, unknown_field, duplicate_field,
  invalid_value, read_failed, close_failed, field_number, c_string, trim, split_equal, find_field,
  parse_port, parse_role, parse_level, parse_mode, parse_backend,
}
use kvstore.Config.Validate.{ConfigError, Reading, seen, mark, defaults, validate_config}

-- `none` is the error that the value is invalid.
unfoldable pub parse_field : (Bytes → Bool) → Field → Bytes → Config → Option Config
parse_field valid_ipv4 role_field value c = elim (parse_role value) [
  | none ↦ none
  | some x ↦ some (record c { role = x })
]
parse_field valid_ipv4 bind_ip_field value c =
    if valid_ipv4 value then some (record c { bind_ip = value }) else none
parse_field valid_ipv4 service_port_field value c = elim (parse_port value) [
  | none ↦ none
  | some x ↦ some (record c { service_port = x })
]
parse_field valid_ipv4 rdma_port_field value c = elim (parse_port value) [
  | none ↦ none
  | some x ↦ some (record c { rdma_port = x })
]
parse_field valid_ipv4 log_level_field value c = elim (parse_level value) [
  | none ↦ none
  | some x ↦ some (record c { log_level = x })
]
parse_field valid_ipv4 persistence_mode_field value c = elim (parse_mode value) [
  | none ↦ none
  | some x ↦ some (record c { persistence_mode = x })
]
parse_field valid_ipv4 replication_port_field value c = elim (parse_port value) [
  | none ↦ none
  | some x ↦ some (record c { replication_port = x })
]
parse_field valid_ipv4 primary_host_field value c =
    if not (valid_ipv4 value) || str_eq value (codes "0.0.0.0")
    then none
    else some (record c { primary_host = value })
parse_field valid_ipv4 primary_port_field value c = elim (parse_port value) [
  | none ↦ none
  | some x ↦ some (record c { primary_port = x })
]
parse_field valid_ipv4 allocator_field value c = elim (parse_backend value) [
  | none ↦ none
  | some x ↦ some (record c { allocator_backend = x })
]

pub data Loaded (A : Type 0) : Type 0 where
  failed : ConfigError → Loaded A
  loaded : A → Loaded A

-- A line's key and value.
unfoldable pub read_pair : (Bytes → Bool) → ℕ → Bytes → Bytes → Reading → Loaded Reading
read_pair valid_ipv4 line_number key value r =
    if length key == 0
      || (length value == 0 || (elim (split_equal value) [ none ↦ false | some x ↦ true ]))
    then failed (line_number, bad_pair)
    else elim (find_field key) [
      | none ↦ failed (line_number, unknown_field)
      | some field ↦
          if seen r field
          then failed (line_number, duplicate_field)
          else elim (parse_field valid_ipv4 field value r.parsed) [
            | none ↦ failed (line_number, invalid_value)
            | some parsed ↦ loaded (record {
              parsed = parsed;
              field_lines = mark r.field_lines (field_number field) line_number;
            })
          ]
    ]

-- One round of the loop: an empty line and a comment change nothing.
unfoldable pub read_line : (Bytes → Bool) → ℕ → Bytes → Reading → Loaded Reading
read_line valid_ipv4 line_number line r =
    let entry = trim (c_string line) in
    if length entry == 0 || (elim entry [ [] ↦ false | c ∷ cs ↦ c == 35 ])
    then loaded r
    else elim (split_equal entry) [
      | none ↦ failed (line_number, no_pair)
      | some (key, value) ↦ read_pair valid_ipv4 line_number (trim key) (trim value) r
    ]

unfoldable pub read_lines : (Bytes → Bool) → ℕ → List Bytes → Reading → Loaded Reading
read_lines valid_ipv4 line_number [] r = loaded r
read_lines valid_ipv4 line_number (line ∷ lines) r =
    elim (read_line valid_ipv4 (line_number + 1) line r) [
      | failed error ↦ failed error
      | loaded next ↦ read_lines valid_ipv4 (line_number + 1) lines next
    ]

-- `lines` are the lines that getline could read, `none` a file that cannot be opened; `whole` tells that
-- no read has failed, and `closed` that fclose has not.
unfoldable pub kvs_config_load : (Bytes → Bool) → Option (List Bytes) → Bool → Bool → Loaded Config
kvs_config_load valid_ipv4 none whole closed = failed (0, cannot_open)
kvs_config_load valid_ipv4 (some lines) whole closed =
    elim (read_lines valid_ipv4 0 lines defaults) [
      | failed error ↦ failed error
      | loaded r ↦
          if not whole then failed (length lines, read_failed) else elim (validate_config r) [
            | some error ↦ failed error
            | none ↦ if closed then loaded r.parsed else failed (0, close_failed)
          ]
    ]
