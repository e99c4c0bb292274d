-- ===== src/Config/Tests.antt =====
-- sbc/config.go: the settings of an environment.
use comcent_ce.Common.{
  ◌≡◌, refl, ◌||◌, [], none, some, Text, text, text_eq, arith, ◌*◌, if◌then◌else◌,
}
use comcent_ce.Common.Int.{pos, negsuc, leb_ℤ}
use comcent_ce.Clock.{second}
use comcent_ce.Fixtures.{networks}
use comcent_ce.Config.{env_int_or_default, duration_seconds, load_config}
use comcent_ce.Config.Start.{new_proxy, env_int-itoa, new_proxy-ban}

abbrev env : Text → Text
env key =
    if text_eq key (text "BAN_FAILURES")
    then text "5"
    else if text_eq key (text "BAN_WINDOW")
    then text "60"
    else if text_eq key (text "BAN_TIME")
    then text "900"
    else if text_eq key (text "NAT_MAX_EXPIRES")
    then text "-1"
    else if text_eq key (text "WSS_PORT")
    then text "https"
    else []

port_default : (load_config env).wss_port ≡ pos 443
unfolding load_config env_int_or_default text_eq comcent_ce.Go.Strconv.atoi
port_default = refl

lifetime : (load_config env).nat_max_expires ≡ negsuc 0
unfolding load_config env_int_or_default text_eq comcent_ce.Go.Strconv.atoi
lifetime = refl

ping_default : (load_config env).nat_ping_interval ≡ pos (20 * second)
unfolding load_config duration_seconds env_int_or_default text_eq
ping_default = refl

-- Past the largest number of seconds a duration is negative.
wraps : duration_seconds (pos 9_223_372_037) ≡ negsuc 9_223_372_036_709_551_615
unfolding duration_seconds
wraps = refl

env_int-itoa_example : env_int_or_default env (text "NAT_MAX_EXPIRES") (pos 600) ≡ negsuc 0
unfolding comcent_ce.Go.Strconv.itoa_ℤ text_eq comcent_ce.Go.Strconv.itoa
env_int-itoa_example =
    env_int-itoa env (text "NAT_MAX_EXPIRES") (pos 600) (negsuc 0) (omega arith) refl

new_proxy-ban_example : (new_proxy networks (load_config env)).0.ban ≡ (
    if leb_ℤ (pos 5) (pos 0) || leb_ℤ (pos 60) (pos 0) || leb_ℤ (pos 900) (pos 0)
    then none
    else some (record {
      limits = record { max_failures = 5; window = 60 * second; ban_time = 900 * second };
      sources = [];
      last_sweep = 0;
    }))
unfolding comcent_ce.Go.Strconv.itoa comcent_ce.Go.Strconv.itoa_ℤ text_eq
new_proxy-ban_example =
    new_proxy-ban networks env (pos 5) (pos 60) (pos 900) (omega arith) (omega arith) (omega arith)
      refl refl refl
