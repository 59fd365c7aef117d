-- ===== src/App/Variables.antt =====
-- app/config.go: the variables of the environment, by name, and their defaults. os.Getenv gives the
-- empty text for an idle timeout that is not set.
use kube_forwarding_proxy.Base.{[], ◌∷◌, Text}

pub data Variable : Type 0 where
  var_interface var_vip_cidr var_cluster_domain var_log_level var_http_listen var_dns_listen
        var_socks_listen var_vip_idle_timeout :
      Variable

unfoldable pub key_of : Variable → Text
key_of var_interface = b'I' ∷ b'N' ∷ b'T' ∷ b'E' ∷ b'R' ∷ b'F' ∷ b'A' ∷ b'C' ∷ b'E' ∷ []
key_of var_vip_cidr = b'V' ∷ b'I' ∷ b'P' ∷ b'_' ∷ b'C' ∷ b'I' ∷ b'D' ∷ b'R' ∷ []
key_of var_cluster_domain =
    b'C' ∷ b'L' ∷ b'U' ∷ b'S' ∷ b'T' ∷ b'E' ∷ b'R' ∷ b'_' ∷ b'D' ∷ b'O' ∷ b'M' ∷ b'A' ∷ b'I' ∷ b'N'
    ∷ []
key_of var_log_level = b'L' ∷ b'O' ∷ b'G' ∷ b'_' ∷ b'L' ∷ b'E' ∷ b'V' ∷ b'E' ∷ b'L' ∷ []
key_of var_http_listen =
    b'H' ∷ b'T' ∷ b'T' ∷ b'P' ∷ b'_' ∷ b'L' ∷ b'I' ∷ b'S' ∷ b'T' ∷ b'E' ∷ b'N' ∷ []
key_of var_dns_listen = b'D' ∷ b'N' ∷ b'S' ∷ b'_' ∷ b'L' ∷ b'I' ∷ b'S' ∷ b'T' ∷ b'E' ∷ b'N' ∷ []
key_of var_socks_listen =
    b'S' ∷ b'O' ∷ b'C' ∷ b'K' ∷ b'S' ∷ b'_' ∷ b'L' ∷ b'I' ∷ b'S' ∷ b'T' ∷ b'E' ∷ b'N' ∷ []
key_of var_vip_idle_timeout =
    b'V' ∷ b'I' ∷ b'P' ∷ b'_' ∷ b'I' ∷ b'D' ∷ b'L' ∷ b'E' ∷ b'_' ∷ b'T' ∷ b'I' ∷ b'M' ∷ b'E' ∷ b'O'
    ∷ b'U' ∷ b'T' ∷ []

unfoldable pub default_of : Variable → Text
default_of var_interface = b'1' ∷ b'2' ∷ b'7' ∷ b'.' ∷ b'0' ∷ b'.' ∷ b'0' ∷ b'.' ∷ b'1' ∷ []
default_of var_vip_cidr =
    b'1' ∷ b'2' ∷ b'7' ∷ b'.' ∷ b'0' ∷ b'.' ∷ b'0' ∷ b'.' ∷ b'0' ∷ b'/' ∷ b'8' ∷ []
default_of var_cluster_domain =
    b's' ∷ b'v' ∷ b'c' ∷ b'.' ∷ b'c' ∷ b'l' ∷ b'u' ∷ b's' ∷ b't' ∷ b'e' ∷ b'r' ∷ b'.' ∷ b'l' ∷ b'o'
    ∷ b'c' ∷ b'a' ∷ b'l' ∷ []
default_of var_log_level = b'i' ∷ b'n' ∷ b'f' ∷ b'o' ∷ []
default_of var_http_listen =
    b'1' ∷ b'2' ∷ b'7' ∷ b'.' ∷ b'0' ∷ b'.' ∷ b'0' ∷ b'.' ∷ b'1' ∷ b':' ∷ b'8' ∷ b'0' ∷ b'8' ∷ b'0'
    ∷ []
default_of var_dns_listen =
    b'1' ∷ b'2' ∷ b'7' ∷ b'.' ∷ b'0' ∷ b'.' ∷ b'0' ∷ b'.' ∷ b'1' ∷ b':' ∷ b'0' ∷ []
default_of var_socks_listen =
    b'1' ∷ b'2' ∷ b'7' ∷ b'.' ∷ b'0' ∷ b'.' ∷ b'0' ∷ b'.' ∷ b'1' ∷ b':' ∷ b'0' ∷ []
default_of var_vip_idle_timeout = []
