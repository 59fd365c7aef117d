-- ===== src/Health.antt =====
-- internal/health/server.go: the readiness flag and the two probes.
use kube_forwarding_proxy.Base.{Bool, true, false, if◌then◌else◌}

pub record Health : Type 0 where
  pub ready : Bool

pub data Probe : Type 0 where
  ok_200 unavailable_503 : Probe

abbrev pub new_health : Health
new_health = record { ready = false }

unfoldable pub set_ready : Health → Health
set_ready h = record h { ready = true }

unfoldable pub handle_liveness : Health → Probe
handle_liveness h = ok_200

unfoldable pub handle_readiness : Health → Probe
handle_readiness h = if h.ready then ok_200 else unavailable_503
