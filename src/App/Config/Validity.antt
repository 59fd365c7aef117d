-- ===== src/App/Config/Validity.antt =====
-- app/config.go: which configurations are accepted.
use mathlib.Core.Option.{some-injective}
use kube_forwarding_proxy.Base.{
  ◌≡◌, ◌≢◌, ◌↔◌, ◌⊎◌, ◌∙◌, inl, inr, ◌∷◌, Option-cases, refl, sym, ap, true, Option, none, some, [],
  Text, Result, ok, err, text_beq_iff, arith, subst,
}
use kube_forwarding_proxy.App.Variables.{
  Variable, var_interface, var_vip_cidr, var_cluster_domain, var_log_level, var_http_listen,
  var_dns_listen, var_socks_listen, var_vip_idle_timeout, key_of, default_of,
}
use kube_forwarding_proxy.App.Config.{
  ℤ, pos, Os, Config, ConfigError, debug, info, warn, error, is_level, validate, or_fallback,
  get_env, env_of, config_from, idle_timeout_of, config_with, validated,
  new_config_from_environment,
}

-- What Validate asks of a configuration.
pub record IsConfig (os : Os) (c : Config) : Type 0 where
  pub interface : c.interface ≢ []
  pub vip_cidr : os.is_cidr c.vip_cidr ≡ true
  pub cluster_domain : c.cluster_domain ≢ []
  pub log_level :
      (c.log_level ≡ debug)
      ⊎ ((c.log_level ≡ info) ⊎ ((c.log_level ≡ warn) ⊎ (c.log_level ≡ error)))
  pub dns_listen : c.dns_listen ≢ []
  pub socks_listen : c.socks_listen ≢ []

levels : (t : Text) → is_level t ≡ true → (t ≡ debug) ⊎ ((t ≡ info) ⊎ ((t ≡ warn) ⊎ (t ≡ error)))
unfolding is_level
levels t h =
    ground
      (arith, text_beq_iff t debug, text_beq_iff t info, text_beq_iff t warn, text_beq_iff t error)

is_level-all :
    (t : Text) → (t ≡ debug) ⊎ ((t ≡ info) ⊎ ((t ≡ warn) ⊎ (t ≡ error))) → is_level t ≡ true
unfolding is_level
is_level-all t h =
    ground
      (arith, text_beq_iff t debug, text_beq_iff t info, text_beq_iff t warn, text_beq_iff t error)

validate_ok : (os : Os) (c : Config) → validate os c ≡ none → IsConfig os c
unfolding validate
validate_ok os c h = record {
  interface = ground (arith, text_beq_iff c.interface []);
  vip_cidr = ground arith;
  cluster_domain = ground (arith, text_beq_iff c.cluster_domain []);
  log_level = levels c.log_level (ground arith);
  dns_listen = ground (arith, text_beq_iff c.dns_listen []);
  socks_listen = ground (arith, text_beq_iff c.socks_listen []);
}

validate_all : (os : Os) (c : Config) → IsConfig os c → validate os c ≡ none
unfolding validate
validate_all os c h = ground (
  arith,
  is_level-all c.log_level h.log_level,
  h.vip_cidr,
  text_beq_iff c.interface [],
  h.interface,
  text_beq_iff c.cluster_domain [],
  h.cluster_domain,
  text_beq_iff c.dns_listen [],
  h.dns_listen,
  text_beq_iff c.socks_listen [],
  h.socks_listen,
)

-- A variable of the environment has a value, its own or the default.
abbrev pub IsEnv : Os → Variable → Text → Type 0
IsEnv os v t =
    (os.lookup_env (key_of v) ≡ some t) ⊎ ((os.lookup_env (key_of v) ≡ none) × (t ≡ default_of v))

-- The duration of an idle timeout: none is 0, and any other text must parse.
abbrev pub IsTimeout : Os → Text → ℤ → Type 0
IsTimeout os t d = ((t ≡ []) × (d ≡ pos 0)) ⊎ ((t ≢ []) × (os.parse_duration t ≡ some d))

-- The configuration that an environment asks for.
pub record IsConfigOf (os : Os) (c : Config) : Type 0 where
  pub interface : IsEnv os var_interface c.interface
  pub vip_cidr : IsEnv os var_vip_cidr c.vip_cidr
  pub cluster_domain : IsEnv os var_cluster_domain c.cluster_domain
  pub log_level : (t : Text) × IsEnv os var_log_level t × (c.log_level ≡ os.to_lower t)
  pub http_listen : IsEnv os var_http_listen c.http_listen
  pub dns_listen : IsEnv os var_dns_listen c.dns_listen
  pub socks_listen : IsEnv os var_socks_listen c.socks_listen
  pub idle_timeout :
      (t : Text) × IsEnv os var_vip_idle_timeout t × IsTimeout os t c.vip_idle_timeout

IsEnv-env_of : (os : Os) (v : Variable) → IsEnv os v (env_of os v)
unfolding env_of get_env or_fallback
IsEnv-env_of os v = elim (Option-cases (os.lookup_env (key_of v))) [
  | inl unset ↦ inr (unset, rw (unset, or_fallback) refl)
  | inr (t, set) ↦ inl (rw (set, or_fallback) refl)
]

env_of_unique : (os : Os) (v : Variable) (t : Text) → IsEnv os v t → env_of os v ≡ t
unfolding env_of get_env or_fallback
env_of_unique os v t (inl set) = rw (set, or_fallback) refl
env_of_unique os v t (inr (unset, e)) = rw (unset, or_fallback) (sym e)

idle_timeout_of-IsTimeout :
    (os : Os) (t : Text) (d : ℤ) → (idle_timeout_of os t ≡ some d) ↔ IsTimeout os t d
unfolding idle_timeout_of
idle_timeout_of-IsTimeout os [] d = (
  λ h. inl (refl, sym (some-injective _ _ h)),
  λ x. elim x [ inl (_, e) ↦ ap some (sym e) | inr (ne, _) ↦ absurd (ne refl) ],
)
idle_timeout_of-IsTimeout os (b ∷ t) d =
    (λ h. inr (λ e. cc, h), λ x. elim x [ inl (e, _) ↦ absurd (cc) | inr (_, h) ↦ h ])

-- The fields of a configuration determine it.
config_unique : (os : Os) (c : Config) → IsConfigOf os c → config_from os c.vip_idle_timeout ≡ c
unfolding config_from
config_unique os c h =
    let e0 = env_of_unique os var_interface c.interface h.interface in
    let e1 = env_of_unique os var_vip_cidr c.vip_cidr h.vip_cidr in
    let e2 = env_of_unique os var_cluster_domain c.cluster_domain h.cluster_domain in
    let (t, level, lower) = h.log_level in
    let e3 : os.to_lower (env_of os var_log_level) ≡ c.log_level =
      ap os.to_lower (env_of_unique os var_log_level t level) ∙ sym lower in
    let e4 = env_of_unique os var_http_listen c.http_listen h.http_listen in
    let e5 = env_of_unique os var_dns_listen c.dns_listen h.dns_listen in
    let e6 = env_of_unique os var_socks_listen c.socks_listen h.socks_listen in
    rw (e0, e1, e2, e3, e4, e5, e6) refl

config_from-IsConfigOf :
    (os : Os) (d : ℤ)
    → idle_timeout_of os (env_of os var_vip_idle_timeout) ≡ some d
    → IsConfigOf os (config_from os d)
unfolding config_from
config_from-IsConfigOf os d t = record {
  interface = IsEnv-env_of os var_interface;
  vip_cidr = IsEnv-env_of os var_vip_cidr;
  cluster_domain = IsEnv-env_of os var_cluster_domain;
  log_level = (env_of os var_log_level, IsEnv-env_of os var_log_level, refl);
  http_listen = IsEnv-env_of os var_http_listen;
  dns_listen = IsEnv-env_of os var_dns_listen;
  socks_listen = IsEnv-env_of os var_socks_listen;
  idle_timeout = (
    env_of os var_vip_idle_timeout,
    IsEnv-env_of os var_vip_idle_timeout,
    (idle_timeout_of-IsTimeout os (env_of os var_vip_idle_timeout) d).0 t,
  );
}

result_ok : (e : ConfigError) (c : Config) → (let r : Result ConfigError Config = err e in r) ≢ ok c
result_ok e c h = cc

validated_inv :
    (os : Os) (c g : Config) (o : Option ConfigError)
    → validate os g ≡ o
    → validated g o ≡ ok c
    → (g ≡ c) × IsConfig os c
unfolding validated
validated_inv os c g none v h =
    let same : g ≡ c = ground arith in (same, subst (λ x. IsConfig os x) same (validate_ok os g v))
validated_inv os c g (some e) v h = absurd (result_ok e c h)

config_with_inv :
    (os : Os) (c : Config) (o : Option ℤ)
    → idle_timeout_of os (env_of os var_vip_idle_timeout) ≡ o
    → config_with os o ≡ ok c
    → IsConfigOf os c × IsConfig os c
unfolding config_with
config_with_inv os c none t h = absurd (result_ok _ c h)
config_with_inv os c (some d) t h =
    let (same, good) =
      validated_inv os c (config_from os d) (validate os (config_from os d)) refl h in
    (subst (λ x. IsConfigOf os x) same (config_from-IsConfigOf os d t), good)

-- NewConfigFromEnvironment answers a configuration exactly where each of its texts is its own
-- variable's value, or the default of one that is not set, the level in lower case; the idle timeout
-- is 0 for an empty text, and else what ParseDuration reads of it; and it is well-formed: the
-- interface, the domain and the addresses of DNS and SOCKS5 are not empty, the CIDR parses and the
-- level is one of the four.
pub new_config_from_environment_iff :
    (os : Os) (c : Config)
    → (new_config_from_environment os ≡ ok c) ↔ (IsConfigOf os c × IsConfig os c)
unfolding new_config_from_environment config_with validated
new_config_from_environment_iff os c = (
  config_with_inv os c (idle_timeout_of os (env_of os var_vip_idle_timeout)) refl,
  λ (of_env, good).
      let (t, env, timeout) = of_env.idle_timeout in
      let parsed : idle_timeout_of os (env_of os var_vip_idle_timeout) ≡ some c.vip_idle_timeout =
        ap (idle_timeout_of os) (env_of_unique os var_vip_idle_timeout t env)
        ∙ (idle_timeout_of-IsTimeout os t c.vip_idle_timeout).1 timeout in
      let same = config_unique os c of_env in
      rw (parsed, config_with)
        (rw
          (
            validate_all os (config_from os c.vip_idle_timeout)
                (subst (λ x. IsConfig os x) (sym same) good),
            validated,
          )
          (ap ok same)),
)
