-- ===== src/Config/Sound.antt =====
-- src/config/config.c: the configurations that kvs_config_load lets pass.
use kvstore.Common.{
  ◌==◌, ◌≡◌, ◌⊎◌, refl, subst, arith, Bool, true, false, ◌&&◌, List, Bytes, Option, none, some,
  Option-cases, inl, inr,
}
use kvstore.Kvs.{
  Role, standalone, primary, replica, PersistenceMode, legacy_hybrid, snapshot_only, aof_only,
}
use kvstore.Config.{rdma_port_field, Config}
use kvstore.Config.Validate.{
  Reading, seen, defaults, validate_role, validate_replication, validate_config, is_hybrid,
}
use kvstore.Config.Load.{loaded, read_lines, kvs_config_load}
use kvstore.Config.Ports.{IsPort, IsRead, Loaded-cases, read_lines-IsRead}

-- What a role needs.
abbrev pub SuitsRole : Role → Config → Type 0
SuitsRole standalone c = (c.persistence_mode ≡ snapshot_only) ⊎ (c.persistence_mode ≡ aof_only)
SuitsRole primary c =
    (c.persistence_mode ≡ legacy_hybrid)
    × (IsPort c.rdma_port × ((c.rdma_port == c.service_port) ≡ false))
SuitsRole replica c = (c.persistence_mode ≡ legacy_hybrid) × IsPort c.primary_port

pub record IsSound (c : Config) : Type 0 where
  pub service : IsPort c.service_port
  pub suits : SuitsRole c.role c

mode-cases : (m : PersistenceMode) → (m ≡ legacy_hybrid) ⊎ ((m ≡ snapshot_only) ⊎ (m ≡ aof_only))
mode-cases legacy_hybrid = inl refl
mode-cases snapshot_only = inr (inl refl)
mode-cases aof_only = inr (inr refl)

is_hybrid-legacy_hybrid : (m : PersistenceMode) → is_hybrid m ≡ true → m ≡ legacy_hybrid
unfolding is_hybrid
is_hybrid-legacy_hybrid legacy_hybrid h = refl
is_hybrid-legacy_hybrid snapshot_only h = absurd (cc)
is_hybrid-legacy_hybrid aof_only h = absurd (cc)

suits_role :
    (role : Role) (r : Reading)
    → IsRead r
    → (seen r rdma_port_field && r.parsed.rdma_port == r.parsed.service_port) ≡ false
    → validate_role r role ≡ none
    → validate_replication r role ≡ none
    → SuitsRole role r.parsed
unfolding validate_role validate_replication
suits_role standalone r v apart h g = elim (mode-cases r.parsed.persistence_mode) [
  | inl e ↦ absurd (ground (arith, e, h))
  | inr e ↦ e
]
suits_role primary r v apart h g = (
  is_hybrid-legacy_hybrid r.parsed.persistence_mode (ground (arith, g)),
  (v.rdma (ground (arith, g)), ground (arith, g, apart)),
)
suits_role replica r v apart h g = (
  is_hybrid-legacy_hybrid r.parsed.persistence_mode (ground (arith, g)),
  v.upstream (ground (arith, h)),
)

validate_config-IsSound : (r : Reading) → IsRead r → validate_config r ≡ none → IsSound r.parsed
unfolding validate_config
validate_config-IsSound r v h = elim (Option-cases (validate_role r r.parsed.role)) [
  | inr (error, e) ↦ absurd (ground (arith, e, h))
  | inl e ↦ record {
    service = v.service (ground (arith, h));
    suits = suits_role r.parsed.role r v (ground (arith, e, h)) e (ground (arith, e, h));
  }
]

-- A configuration that kvs_config_load returns has a service port from 1 to 65535, and what its role
-- needs: a standalone server the mode snapshot or aof, a primary the mode legacy_hybrid and an RDMA port
-- in that range other than the service port, a replica the mode legacy_hybrid and the port of its
-- primary in that range.
pub kvs_config_load-IsSound :
    (valid_ipv4 : Bytes → Bool) (file : Option (List Bytes)) (whole closed : Bool) (c : Config)
    → kvs_config_load valid_ipv4 file whole closed ≡ loaded c
    → IsSound c
unfolding kvs_config_load
kvs_config_load-IsSound valid_ipv4 none whole closed c h = absurd (ground (arith, h))
kvs_config_load-IsSound valid_ipv4 (some lines) whole closed c h =
    elim (Loaded-cases (read_lines valid_ipv4 0 lines defaults)) [
      | inl (e, f) ↦ absurd (ground (arith, rw (kvs_config_load, f) at h))
      | inr (r, f) ↦ elim (Option-cases (validate_config r)) [
        | inr (error, g) ↦ absurd (ground (arith, rw (kvs_config_load, f) at h, g))
        | inl g ↦ subst IsSound (ground (arith, rw (kvs_config_load, f) at h, g)) (
            validate_config-IsSound r
              (read_lines-IsRead valid_ipv4 0 lines defaults r nothing_read f) g)
      ]
    ]
  where
    nothing_read : IsRead defaults
    nothing_read = record {
      service = λ s. absurd (ground (arith, s));
      rdma = λ s. absurd (ground (arith, s));
      upstream = λ s. absurd (ground (arith, s));
    }
