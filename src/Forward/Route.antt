-- ===== src/Forward/Route.antt =====
-- sbc/proxy.go: `routeHop` and `filterRouteValueForHop`.
use comcent_ce.Common.{
  ◌||◌, List, [], ◌∷◌, ◌++◌, Option, none, some, Text, text, text_eq, if◌then◌else◌, zero,
}
use comcent_ce.Common.Int.{ℤ, pos}
use comcent_ce.Go.Strings.{cut_byte, trim_space, split, join}
use comcent_ce.Go.Strconv.{itoa_ℤ}
use comcent_ce.Go.Net.{join_host_port}
use comcent_ce.Sip.{Uri}

-- cfg.PublicIP and cfg.PrivateIP
pub record RouteConfig : Type 0 where
  pub public_ip : Text
  pub private_ip : Text

-- The text between the brackets of a Route entry.
unfoldable pub unbracket : Text → Text
unbracket s = elim (cut_byte b'<' s) [
  | none ↦ s
  | some (display, after) ↦ elim (cut_byte b'>' after) [ none ↦ after | some (uri, params) ↦ uri ]
]

unfoldable pub or_5060 : ℤ → ℤ
or_5060 (pos zero) = pos 5060
or_5060 port = port

module _ (parse_uri : Text → Option Uri) where
  unfoldable pub route_hop : Text → Text
  unfolding or_5060
  route_hop entry = elim (parse_uri (unbracket (trim_space entry))) [
    | none ↦ []
    | some uri ↦ join_host_port uri.host (itoa_ℤ (or_5060 uri.port))
  ]

  -- What the loop keeps of one entry; `entry` is trimmed.
  unfoldable pub keep_entry : RouteConfig → Text → Text → List Text
  unfolding route_hop
  keep_entry cfg keep_hop entry =
      let hop = route_hop entry in
      let is_public = text_eq hop (cfg.public_ip ++ text ":5060") in
      let is_private = text_eq hop (cfg.private_ip ++ text ":5065") in
      if text_eq entry []
      then []
      else if is_public || is_private
      then (if text_eq keep_hop (text "public")
          then (if is_public then entry ∷ [] else [])
          else if text_eq keep_hop (text "private")
          then (if is_private then entry ∷ [] else [])
          else [])
      else entry ∷ []

  unfoldable pub keep_entries : RouteConfig → Text → List Text → List Text
  unfolding keep_entry
  keep_entries cfg keep_hop [] = []
  keep_entries cfg keep_hop (part ∷ parts) =
      keep_entry cfg keep_hop (trim_space part) ++ keep_entries cfg keep_hop parts

  -- filterRouteValueForHop
  unfoldable pub filter_route_value : RouteConfig → Text → Text → Text
  unfolding keep_entries
  filter_route_value cfg route keep_hop =
      if text_eq route []
      then []
      else join (text ", ") (keep_entries cfg keep_hop (split b',' route))
