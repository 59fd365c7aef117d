-- ===== src/App/Config.antt =====
-- app/config.go and the choices of cmd/proxy/main.go. The environment, and what the standard library
-- reads of a text, are the fields of `Os`.
pub mod Validity
use kube_forwarding_proxy.Base.{
  ℕ, Bool, true, false, ◌||◌, Option, none, some, List, [], ◌∷◌, Text, Result, ok, err,
  if◌then◌else◌, text_beq, nat_beq, text_eq,
}
use kube_forwarding_proxy.App.Variables.{
  Variable, var_interface, var_vip_cidr, var_cluster_domain, var_log_level, var_http_listen,
  var_dns_listen, var_socks_listen, var_vip_idle_timeout, key_of, default_of,
}

-- A time.Duration.
pub data ℤ : Type 0 where
  pos : ℕ → ℤ
  negsuc : ℕ → ℤ

-- os.LookupEnv, strings.ToLower, time.ParseDuration, and whether net.ParseCIDR succeeds.
pub record Os : Type 0 where
  pub lookup_env : Text → Option Text
  pub to_lower : Text → Text
  pub parse_duration : Text → Option ℤ
  pub is_cidr : Text → Bool

pub record Config : Type 0 where
  pub interface : Text
  pub vip_cidr : Text
  pub cluster_domain : Text
  pub log_level : Text
  pub http_listen : Text
  pub dns_listen : Text
  pub socks_listen : Text
  pub vip_idle_timeout : ℤ

pub data ConfigError : Type 0 where
  empty_variable bad_value : Variable → ConfigError

abbrev pub debug : Text
debug = b'd' ∷ b'e' ∷ b'b' ∷ b'u' ∷ b'g' ∷ []

abbrev pub info : Text
info = b'i' ∷ b'n' ∷ b'f' ∷ b'o' ∷ []

abbrev pub warn : Text
warn = b'w' ∷ b'a' ∷ b'r' ∷ b'n' ∷ []

abbrev pub error : Text
error = b'e' ∷ b'r' ∷ b'r' ∷ b'o' ∷ b'r' ∷ []

-- validLevels.
unfoldable pub is_level : Text → Bool
is_level t = text_beq t debug || (text_beq t info || (text_beq t warn || text_beq t error))

-- `none` is the nil error.
unfoldable pub validate : Os → Config → Option ConfigError
unfolding is_level
validate os c =
    if text_beq c.interface []
    then some (empty_variable var_interface)
    else if os.is_cidr c.vip_cidr
    then if text_beq c.cluster_domain []
      then some (empty_variable var_cluster_domain)
      else if is_level c.log_level
      then if text_beq c.dns_listen []
        then some (empty_variable var_dns_listen)
        else if text_beq c.socks_listen []
        then some (empty_variable var_socks_listen)
        else none
      else some (bad_value var_log_level)
    else some (bad_value var_vip_cidr)

unfoldable pub or_fallback : Option Text → Text → Text
or_fallback none fallback = fallback
or_fallback (some v) fallback = v

unfoldable pub get_env : Os → Text → Text → Text
unfolding or_fallback
get_env os key fallback = or_fallback (os.lookup_env key) fallback

-- Behind ParseDuration; an empty VIP_IDLE_TIMEOUT is not parsed and leaves 0.
unfoldable pub idle_timeout_of : Os → Text → Option ℤ
idle_timeout_of os [] = some (pos 0)
idle_timeout_of os (c ∷ s) = os.parse_duration (c ∷ s)

unfoldable pub validated : Config → Option ConfigError → Result ConfigError Config
validated c none = ok c
validated c (some e) = err e

unfoldable pub env_of : Os → Variable → Text
unfolding get_env key_of default_of
env_of os v = get_env os (key_of v) (default_of v)

unfoldable pub config_from : Os → ℤ → Config
unfolding env_of
config_from os d = record {
  interface = env_of os var_interface;
  vip_cidr = env_of os var_vip_cidr;
  cluster_domain = env_of os var_cluster_domain;
  log_level = os.to_lower (env_of os var_log_level);
  http_listen = env_of os var_http_listen;
  dns_listen = env_of os var_dns_listen;
  socks_listen = env_of os var_socks_listen;
  vip_idle_timeout = d;
}

unfoldable pub config_with : Os → Option ℤ → Result ConfigError Config
unfolding validated validate config_from
config_with os none = err (bad_value var_vip_idle_timeout)
config_with os (some d) = let c = config_from os d in validated c (validate os c)

unfoldable pub new_config_from_environment : Os → Result ConfigError Config
unfolding config_with idle_timeout_of env_of
new_config_from_environment os =
    config_with os (idle_timeout_of os (env_of os var_vip_idle_timeout))

-- The flags of the command: DNS alone where the user gives none. `n_flag` is flag.NFlag().
unfoldable pub enabled_servers : ℕ → Bool → Bool → Bool × Bool
enabled_servers n_flag dns socks = if nat_beq n_flag 0 then (true, socks) else (dns, socks)

pub data ZapLevel : Type 0 where
  debug_level info_level warn_level error_level : ZapLevel

-- buildLogger's level.
unfoldable pub zap_level : Text → ZapLevel
zap_level level =
    if text_beq level debug
    then debug_level
    else if text_beq level warn
    then warn_level
    else if text_beq level error
    then error_level
    else info_level
