-- ===== src/Config/Ports.antt =====
-- src/config/config.c: the ports that kvs_config_load reads.
use kvstore.Common.{
  ℕ, ◌+◌, ◌==◌, ◌≤◌, ◌≡◌, ◌⊎◌, refl, ap, subst, arith, Bool, true, false, ◌||◌, if◌then◌else◌, List,
  [], ◌∷◌, Bytes, Option, none, some, none-some, some_same, Option-cases, Bool-cases, inl, inr,
  length,
}
use kvstore.Config.{
  Field, role_field, bind_ip_field, service_port_field, rdma_port_field, log_level_field,
  persistence_mode_field, replication_port_field, primary_host_field, primary_port_field,
  allocator_field, Config, field_number, parse_port, parse_role, parse_level, parse_mode,
  parse_backend, split_equal, find_field, trim, c_string,
}
use kvstore.Config.Validate.{ConfigError, Reading, seen, mark}
use kvstore.Config.Load.{parse_field, Loaded, failed, loaded, read_pair, read_line, read_lines}

-- A port that can be listened to.
abbrev pub IsPort : ℕ → Type 0
IsPort port = (1 ≤ port) × (port ≤ 65535)

-- The ports that have been read are in range.
pub record IsRead (r : Reading) : Type 0 where
  pub service : seen r service_port_field ≡ true → IsPort r.parsed.service_port
  pub rdma : seen r rdma_port_field ≡ true → IsPort r.parsed.rdma_port
  pub upstream : seen r primary_port_field ≡ true → IsPort r.parsed.primary_port

parse_port-IsPort : (text : Bytes) (n : ℕ) → parse_port text ≡ some n → IsPort n
unfolding parse_port
parse_port-IsPort text n h = ground (arith, h)

-- A field that is set where its value can be parsed.
parsed_field :
    {A : Type 0} (result : Option A) (put : A → Config) (c : Config) (P : Config → Type 0)
    → ((x : A) → result ≡ some x → P (put x))
    → ◌≡◌ {A = Option Config} (elim result [ none ↦ none | some x ↦ some (put x) ]) (some c)
    → P c
parsed_field none put c P f h = absurd (none-some h)
parsed_field (some x) put c P f h = subst P (some_same h) (f x refl)

checked_field :
    (test : Bool) (put c : Config) (P : Config → Type 0)
    → P put
    → (if test then some put else none) ≡ some c
    → P c
checked_field true put c P f h = subst P (some_same h) f
checked_field false put c P f h = absurd (none-some h)

refused_field :
    (test : Bool) (put c : Config) (P : Config → Type 0)
    → P put
    → (if test then none else some put) ≡ some c
    → P c
refused_field true put c P f h = absurd (none-some h)
refused_field false put c P f h = subst P (some_same h) f

-- The reading with one more field.
abbrev with_field : Reading → Field → ℕ → Config → Reading
with_field r field line c = record {
  parsed = c;
  field_lines = mark r.field_lines (field_number field) line;
}

parse_field-IsRead :
    (valid_ipv4 : Bytes → Bool) (field : Field) (value : Bytes) (line : ℕ) (r : Reading)
    (c : Config)
    → IsRead r
    → parse_field valid_ipv4 field value r.parsed ≡ some c
    → IsRead (with_field r field line c)
unfolding parse_field
parse_field-IsRead valid_ipv4 role_field value line r c v h =
    parsed_field (parse_role value) _ c (λ c. IsRead (with_field r role_field line c))
      (λ x e. record { service = v.service; rdma = v.rdma; upstream = v.upstream }) h
parse_field-IsRead valid_ipv4 bind_ip_field value line r c v h =
    checked_field (valid_ipv4 value) _ c (λ c. IsRead (with_field r bind_ip_field line c))
      (record { service = v.service; rdma = v.rdma; upstream = v.upstream }) h
parse_field-IsRead valid_ipv4 service_port_field value line r c v h =
    parsed_field (parse_port value) _ c (λ c. IsRead (with_field r service_port_field line c))
      (λ x e. record {
        service = λ s. parse_port-IsPort value x e;
        rdma = v.rdma;
        upstream = v.upstream;
      })
      h
parse_field-IsRead valid_ipv4 rdma_port_field value line r c v h =
    parsed_field (parse_port value) _ c (λ c. IsRead (with_field r rdma_port_field line c))
      (λ x e. record {
        service = v.service;
        rdma = λ s. parse_port-IsPort value x e;
        upstream = v.upstream;
      })
      h
parse_field-IsRead valid_ipv4 log_level_field value line r c v h =
    parsed_field (parse_level value) _ c (λ c. IsRead (with_field r log_level_field line c))
      (λ x e. record { service = v.service; rdma = v.rdma; upstream = v.upstream }) h
parse_field-IsRead valid_ipv4 persistence_mode_field value line r c v h =
    parsed_field (parse_mode value) _ c (λ c. IsRead (with_field r persistence_mode_field line c))
      (λ x e. record { service = v.service; rdma = v.rdma; upstream = v.upstream }) h
parse_field-IsRead valid_ipv4 replication_port_field value line r c v h =
    parsed_field (parse_port value) _ c (λ c. IsRead (with_field r replication_port_field line c))
      (λ x e. record { service = v.service; rdma = v.rdma; upstream = v.upstream }) h
parse_field-IsRead valid_ipv4 primary_host_field value line r c v h =
    refused_field _ _ c (λ c. IsRead (with_field r primary_host_field line c))
      (record { service = v.service; rdma = v.rdma; upstream = v.upstream }) h
parse_field-IsRead valid_ipv4 primary_port_field value line r c v h =
    parsed_field (parse_port value) _ c (λ c. IsRead (with_field r primary_port_field line c))
      (λ x e. record {
        service = v.service;
        rdma = v.rdma;
        upstream = λ s. parse_port-IsPort value x e;
      })
      h
parse_field-IsRead valid_ipv4 allocator_field value line r c v h =
    parsed_field (parse_backend value) _ c (λ c. IsRead (with_field r allocator_field line c))
      (λ x e. record { service = v.service; rdma = v.rdma; upstream = v.upstream }) h

-- A reading that is passed on.
loaded_same : (r t : Reading) → ◌≡◌ {A = Loaded Reading} (loaded r) (loaded t) → r ≡ t
loaded_same r t h = ap (λ x. elim x [ failed e ↦ r | loaded y ↦ y ]) h

read_pair-IsRead :
    (valid_ipv4 : Bytes → Bool) (line : ℕ) (key value : Bytes) (r t : Reading)
    → IsRead r
    → read_pair valid_ipv4 line key value r ≡ loaded t
    → IsRead t
unfolding read_pair
read_pair-IsRead valid_ipv4 line key value r t v h = elim (Option-cases (find_field key)) [
  | inl e ↦ absurd (ground (arith, e, h))
  | inr (field, e) ↦ elim (Option-cases (parse_field valid_ipv4 field value r.parsed)) [
    | inl f ↦ absurd (ground (arith, e, f, h))
    | inr (c, f) ↦
        subst IsRead (loaded_same (with_field r field line c) t (ground (arith, e, f, h)))
          (parse_field-IsRead valid_ipv4 field value line r c v f)
  ]
]

read_line-IsRead :
    (valid_ipv4 : Bytes → Bool) (number : ℕ) (line : Bytes) (r t : Reading)
    → IsRead r
    → read_line valid_ipv4 number line r ≡ loaded t
    → IsRead t
unfolding read_line
read_line-IsRead valid_ipv4 number line r t v h =
    elim (Bool-cases (
      length (trim (c_string line)) == 0
      || (elim (trim (c_string line)) [ [] ↦ false | c ∷ cs ↦ c == 35 ]))) [
        | inl e ↦ subst IsRead (loaded_same r t (rw (e, read_line) at h)) v
        | inr e ↦ elim (Option-cases (split_equal (trim (c_string line)))) [
          | inl f ↦ absurd (ground (arith, rw (e, read_line, f) at h))
          | inr ((key, value), f) ↦
              read_pair-IsRead valid_ipv4 number (trim key) (trim value) r t v
                (rw (e, read_line, f) at h)
        ]
      ]

pub Loaded-cases :
    {A : Type 0} (x : Loaded A) → ((e : ConfigError) × (x ≡ failed e)) ⊎ ((y : A) × (x ≡ loaded y))
Loaded-cases (failed e) = inl (e, refl)
Loaded-cases (loaded y) = inr (y, refl)

pub read_lines-IsRead :
    (valid_ipv4 : Bytes → Bool) (number : ℕ) (lines : List Bytes) (r t : Reading)
    → IsRead r
    → read_lines valid_ipv4 number lines r ≡ loaded t
    → IsRead t
unfolding read_lines
read_lines-IsRead valid_ipv4 number [] r t v h = subst IsRead (loaded_same r t h) v
read_lines-IsRead valid_ipv4 number (line ∷ lines) r t v h =
    elim (Loaded-cases (read_line valid_ipv4 (number + 1) line r)) [
      | inl (e, f) ↦ absurd (ground (arith, rw (read_lines, f) at h))
      | inr (next, f) ↦
          read_lines-IsRead valid_ipv4 (number + 1) lines next t
            (read_line-IsRead valid_ipv4 (number + 1) line r next v f) (rw (read_lines, f) at h)
    ]
