-- ===== src/Config/Start.antt =====
-- sbc/config.go and newProxy of sbc/proxy.go: the controller that main starts.
use comcent_ce.Common.{
  ◌*◌, ◌≤◌, ◌<◌, ◌≡◌, refl, ap, ◌||◌, [], none, some, arith, Text, text, text_eq_iff, if◌then◌else◌,
}
use comcent_ce.Common.Int.{ℤ, pos, negsuc, pos_part, leb_ℤ}
use comcent_ce.Clock.{second}
use comcent_ce.Go.Strconv.{itoa_ℤ, atoi, InRange, atoi-itoa_ℤ}
use comcent_ce.Registrar.{new_registrar}
use comcent_ce.IpBan.{new_ip_ban}
use comcent_ce.Dispatcher.{new_dispatcher}
use comcent_ce.Api.{IpNet, new_api}
use comcent_ce.Proxy.{Proxy}
use comcent_ce.Proxy.Calls.{Calls}
use comcent_ce.Config.{Config, from_pattern, duration_seconds, env_int_or_default, load_config}

-- newProxy, on the parts that main creates, with its call table.
pub new_proxy : (net : IpNet) → Config → Proxy net × Calls
new_proxy net cfg = (
  record {
    settings = record {
      sip_user_root_domain = cfg.sip_user_root_domain;
      nat_max_expires = cfg.nat_max_expires;
    };
    reg = new_registrar;
    api = new_api net;
    dispatcher = new_dispatcher;
    ban = new_ip_ban cfg.ban_failures cfg.ban_window cfg.ban_time;
    rejected = record { ids = []; last_sweep = 0 };
    spoof_cache = [];
    affinity = [];
  },
  record { calls = []; active = []; affinity = [] },
)

atoi_empty : atoi [] ≡ none
unfolding atoi
atoi_empty = refl

-- A setting that is printed as an int is read back, and the default is not used.
pub env_int-itoa :
    (env : Text → Text) (key : Text) (def z : ℤ)
    → InRange z
    → env key ≡ itoa_ℤ z
    → env_int_or_default env key def ≡ z
unfolding env_int_or_default
env_int-itoa env key def z h e =
    let read : atoi (env key) ≡ some z = rw e (atoi-itoa_ℤ z h) in
    ground (arith, text_eq_iff (env key) [], atoi_empty)

-- The seconds whose nanoseconds fit an int64.
abbrev FitsSeconds : ℤ → Type 0
FitsSeconds (pos n) = n ≤ 9_223_372_036
FitsSeconds (negsuc n) = n < 9_223_372_036

-- Such a number of seconds keeps its sign, and is taken as it is where it is not negative.
duration-seconds :
    (z : ℤ)
    → FitsSeconds z
    → (leb_ℤ (duration_seconds z) (pos 0) ≡ leb_ℤ z (pos 0))
      × (pos_part (duration_seconds z) ≡ pos_part z * second)
unfolding duration_seconds from_pattern
duration-seconds (pos n) h = (ground arith, ground arith)
duration-seconds (negsuc n) h = (ground arith, ground arith)

FitsSeconds-InRange : (z : ℤ) → FitsSeconds z → InRange z
FitsSeconds-InRange (pos n) h = omega arith
FitsSeconds-InRange (negsuc n) h = omega arith

-- A duration that is set to a number of seconds.
env_duration :
    (env : Text → Text) (key : Text) (def z : ℤ)
    → FitsSeconds z
    → env key ≡ itoa_ℤ z
    → duration_seconds (env_int_or_default env key def) ≡ duration_seconds z
env_duration env key def z h e =
    ap duration_seconds (env_int-itoa env key def z (FitsSeconds-InRange z h) e)

-- Banning is off exactly when one of the settings is 0 or negative; else the numbers of seconds are taken
-- as they are. That is, if each is set to a number that is printed as an int and the nanoseconds fit an
-- int64.
pub new_proxy-ban :
    (net : IpNet) (env : Text → Text) (f w t : ℤ)
    → InRange f
    → FitsSeconds w
    → FitsSeconds t
    → env (text "BAN_FAILURES") ≡ itoa_ℤ f
    → env (text "BAN_WINDOW") ≡ itoa_ℤ w
    → env (text "BAN_TIME") ≡ itoa_ℤ t
    → (new_proxy net (load_config env)).0.ban ≡ (
        if leb_ℤ f (pos 0) || leb_ℤ w (pos 0) || leb_ℤ t (pos 0)
        then none
        else some (record {
          limits = record {
            max_failures = pos_part f;
            window = pos_part w * second;
            ban_time = pos_part t * second;
          };
          sources = [];
          last_sweep = 0;
        }))
unfolding new_proxy load_config new_ip_ban
new_proxy-ban net env f w t hf hw ht ef ew et =
    let (sign_w, size_w) = duration-seconds w hw in
    let (sign_t, size_t) = duration-seconds t ht in
    rw
      (
        env_int-itoa env (text "BAN_FAILURES") (pos 10) f hf ef,
        env_duration env (text "BAN_WINDOW") (pos 60) w hw ew,
        env_duration env (text "BAN_TIME") (pos 900) t ht et,
        new_ip_ban,
        sign_w,
        size_w,
        sign_t,
        size_t,
      )
      refl
