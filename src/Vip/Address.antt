-- ===== src/Vip/Address.antt =====
-- net.IP as internal/vip uses it: four bytes, or an address that has no four-byte form.
use kube_forwarding_proxy.Base.{ℕ, ◌+◌, ◌*◌, ◌/◌, ◌%◌, ◌<◌, ◌≡◌, Option, some, Text, arith}

pub data Ip : Type 0 where
  ip4 : ℕ → ℕ → ℕ → ℕ → Ip
  ip6 : Text → Ip

abbrev pub u32_mod : ℕ
u32_mod = 4294967296

-- ipToUint32: 0 where To4 gives nil.
unfoldable pub ip_to_uint32 : Ip → ℕ
ip_to_uint32 (ip4 a b c d) = ((a * 256 + b) * 256 + c) * 256 + d
ip_to_uint32 (ip6 t) = 0

unfoldable pub uint32_to_ip : ℕ → Ip
uint32_to_ip n = ip4 (n / 16777216 % 256) (n / 65536 % 256) (n / 256 % 256) (n % 256)

-- Every 32-bit number survives the way to an address and back.
pub ip_to_uint32-uint32_to_ip : (n : ℕ) → n < u32_mod → ip_to_uint32 (uint32_to_ip n) ≡ n
unfolding ip_to_uint32 uint32_to_ip
ip_to_uint32-uint32_to_ip n h = omega arith

-- An address that is written as four bytes survives the way to a number and back.
pub uint32_to_ip-ip_to_uint32 :
    (a b c d : ℕ)
    → a < 256
    → b < 256
    → c < 256
    → d < 256
    → uint32_to_ip (ip_to_uint32 (ip4 a b c d)) ≡ ip4 a b c d
unfolding ip_to_uint32 uint32_to_ip
uint32_to_ip-ip_to_uint32 a b c d ha hb hc hd = ground arith

-- How package net writes an address and reads one. The law is net's: String writes what ParseIP
-- reads.
pub record NetText : Type 0 where
  pub ip_string : Ip → Text
  pub parse_ip : Text → Option Ip
  pub parse_ip_string : (ip : Ip) → parse_ip (ip_string ip) ≡ some ip
