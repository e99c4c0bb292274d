-- ===== src/Config.antt =====
-- sbc/config.go: the settings, read from the environment. `env` is os.Getenv, which returns the empty text
-- for a variable that is not set. A duration is a number of nanoseconds in an int64.
mod Tests
pub mod Start
use comcent_ce.Common.{
  ℕ, suc, ◌+◌, ◌-◌, ◌*◌, ◌%◌, ◌^◌, [], Option, none, some, Text, text, text_eq, ltb, if◌then◌else◌,
}
use comcent_ce.Common.Int.{ℤ, pos, negsuc}
use comcent_ce.Clock.{second}
use comcent_ce.Go.Strconv.{atoi}

pub record Config : Type 0 where
  pub public_ip : Text
  pub private_ip : Text
  pub public_sip_port : ℤ
  pub private_sip_port : ℤ
  pub internal_api_base_url : Text
  pub internal_api_user : Text
  pub internal_api_pass : Text
  pub rpc_api_token : Text
  pub sip_user_root_domain : Text
  pub wss_cert_path : Text
  pub wss_key_path : Text
  pub wss_port : ℤ
  pub nat_ping_interval : ℤ
  pub nat_ping_max_missed : ℤ
  pub nat_max_expires : ℤ
  pub ban_failures : ℤ
  pub ban_window : ℤ
  pub ban_time : ℤ

-- The int64 with a 64-bit pattern.
pub from_pattern : ℕ → ℤ
from_pattern v = if ltb v (2 ^ 63) then pos v else negsuc (2 ^ 64 - 1 - v)

-- time.Duration(n) * time.Second
pub duration_seconds : ℤ → ℤ
unfolding from_pattern
duration_seconds (pos n) = from_pattern ((n * second) % 2 ^ 64)
duration_seconds (negsuc n) = from_pattern ((2 ^ 64 - (suc n * second) % 2 ^ 64) % 2 ^ 64)

module _ (env : Text → Text) where
  env_or_default : Text → Text → Text
  env_or_default key def = if text_eq (env key) [] then def else env key

  abbrev or_int : ℤ → Option ℤ → ℤ
  or_int def none = def
  or_int def (some n) = n

  pub env_int_or_default : Text → ℤ → ℤ
  env_int_or_default key def = if text_eq (env key) [] then def else or_int def (atoi (env key))

  pub load_config : Config
  unfolding env_or_default
  load_config = record {
    public_ip = env_or_default (text "PUBLIC_IP") (text "127.0.0.1");
    private_ip = env_or_default (text "PRIVATE_IP") (text "127.0.0.1");
    public_sip_port = env_int_or_default (text "PUBLIC_SIP_PORT") (pos 5060);
    private_sip_port = env_int_or_default (text "PRIVATE_SIP_PORT") (pos 5065);
    internal_api_base_url =
        env_or_default (text "INTERNAL_API_BASE_URL") (text "http://server:4000/internal-api");
    internal_api_user = env_or_default (text "INTERNAL_API_USERNAME") [];
    internal_api_pass = env_or_default (text "INTERNAL_API_PASSWORD") [];
    rpc_api_token = env_or_default (text "RPC_API_TOKEN") [];
    sip_user_root_domain = env_or_default (text "SIP_USER_ROOT_DOMAIN") (text "example.com");
    wss_cert_path = env (text "WSS_CERT_PATH");
    wss_key_path = env (text "WSS_KEY_PATH");
    wss_port = env_int_or_default (text "WSS_PORT") (pos 443);
    nat_ping_interval = duration_seconds (env_int_or_default (text "NAT_PING_INTERVAL") (pos 20));
    nat_ping_max_missed = env_int_or_default (text "NAT_PING_MAX_MISSED") (pos 3);
    nat_max_expires = env_int_or_default (text "NAT_MAX_EXPIRES") (pos 600);
    ban_failures = env_int_or_default (text "BAN_FAILURES") (pos 10);
    ban_window = duration_seconds (env_int_or_default (text "BAN_WINDOW") (pos 60));
    ban_time = duration_seconds (env_int_or_default (text "BAN_TIME") (pos 900));
  }
