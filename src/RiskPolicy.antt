-- ===== src/RiskPolicy.antt =====
-- app/core/domain/services/refresh_token_security_policy.py
pub mod Scores
use hexagonal_auth_service.Base.{
  ℕ, ◌+◌, Bool, false, ◌&&◌, not, Option, none, some, Text, text_eq, take, truthy, if◌then◌else◌,
}
use hexagonal_auth_service.Env.{Env, IpAddress, ipv4}

abbrev pub agent_mismatch_risk : ℕ
agent_mismatch_risk = 2

abbrev pub location_mismatch_risk : ℕ
location_mismatch_risk = 2

abbrev pub ip_range_mismatch_risk : ℕ
ip_range_mismatch_risk = 1

-- `a and b and a != b`, as a test
unfoldable pub differs : Option Text → Option Text → Bool
differs (some a) (some b) = truthy (some a) && truthy (some b) && not (text_eq a b)
differs _ _ = false

unfoldable pub same_packed : Option IpAddress → Option IpAddress → Bool
same_packed (some (ipv4 a)) (some (ipv4 b)) = text_eq (take 3 a) (take 3 b)
same_packed _ _ = false

module _ ⦃env : Env⦄ where
  -- `ip_address(ip)` under the `try`; `ip_address(None)` raises too
  unfoldable pub parse_ip : Option Text → Option IpAddress
  parse_ip none = none
  parse_ip (some ip) = env.ip_address ip

  unfoldable pub same_ip_range : Option Text → Option Text → Bool
  unfolding same_packed parse_ip
  same_ip_range ip1 ip2 = same_packed (parse_ip ip1) (parse_ip ip2)

  unfoldable pub assess_risk :
      (token_ip token_agent token_location current_ip current_agent current_location : Option Text)
      → ℕ
  unfolding differs same_ip_range
  assess_risk token_ip token_agent token_location current_ip current_agent current_location =
      (if differs token_agent current_agent then agent_mismatch_risk else 0)
      + (if differs token_location current_location then location_mismatch_risk else 0)
      + (if same_ip_range token_ip current_ip then 0 else ip_range_mismatch_risk)
