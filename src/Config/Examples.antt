-- ===== src/Config/Examples.antt =====
-- src/config/config.c: the configuration of a primary.
use kvstore.Common.{◌≡◌, refl, true, Bytes, codes, str_eq, List, [], ◌∷◌, some}
use kvstore.Kvs.{primary, legacy_hybrid}
use kvstore.Memory.Pool.{pool}
use kvstore.Config.{
  Config, debug_level, is_space, c_string, trim_front, trim_back, trim, split_equal, find_field,
  digits_value, parse_port, parse_role, parse_level, parse_mode, parse_backend,
}
use kvstore.Config.Validate.{
  validate_role, is_hybrid, validate_replication, is_primary, validate_config,
}
use kvstore.Config.Load.{parse_field, loaded, read_pair, read_line, read_lines, kvs_config_load}
use kvstore.Config.Sound.{IsSound, kvs_config_load-IsSound}

abbrev primary_lines : List Bytes
primary_lines =
    codes "# the primary\n"
    ∷ codes "role = primary\n"
    ∷ codes "  service_port=2000\n"
    ∷ codes "\n"
    ∷ codes "rdma_port = 2001\n"
    ∷ codes "log_level = debug\n"
    ∷ codes "persistence_mode = legacy_hybrid"
    ∷ []

abbrev primary_config : Config
primary_config = record {
  role = primary;
  bind_ip = codes "0.0.0.0";
  service_port = 2000;
  rdma_port = 2001;
  replication_port = 0;
  primary_host = [];
  primary_port = 0;
  log_level = debug_level;
  persistence_mode = legacy_hybrid;
  allocator_backend = pool;
}

primary_loaded :
    kvs_config_load (λ text. true) (some primary_lines) true true ≡ loaded primary_config
unfolding kvs_config_load read_lines read_line read_pair validate_config validate_role
    validate_replication is_hybrid is_primary parse_field find_field parse_role parse_level
    parse_mode parse_backend parse_port digits_value split_equal trim trim_back trim_front c_string
    is_space str_eq
primary_loaded = refl

kvs_config_load-IsSound_example : IsSound primary_config
kvs_config_load-IsSound_example =
    kvs_config_load-IsSound (λ text. true) (some primary_lines) true true primary_config
      primary_loaded
