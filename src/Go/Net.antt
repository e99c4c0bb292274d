-- ===== src/Go/Net.antt =====
-- package net: SplitHostPort and JoinHostPort.
use comcent_ce.Common.{
  not, ◌||◌, ◌&&◌, [], ◌∷◌, ◌++◌, Option, none, some, ◌≡◌, refl, Text, text, ◌==◌, text_eq,
  if◌then◌else◌,
}
use comcent_ce.Go.Strings.{cut_byte, cut_last_byte, contains_byte}

-- No bracket may stand outside an IPv6 literal, and no second colon before the port.
plain_host : Text → Text → Option (Text × Text)
plain_host host port =
    if contains_byte b':' host
      || contains_byte b'[' host
      || contains_byte b'[' port
      || contains_byte b']' host
      || contains_byte b']' port
    then none
    else some (host, port)

-- `[host]:port`; `s` is what follows the opening bracket.
bracketed : Text → Text → Option (Text × Text)
bracketed s port = elim (cut_byte b']' s) [
  | none ↦ none
  | some (host, after) ↦
      if text_eq after (b':' ∷ port) && not (contains_byte b'[' s || contains_byte b']' after)
      then some (host, port)
      else none
]

split_at : Text → Text → Text → Option (Text × Text)
unfolding plain_host bracketed
split_at [] before port = plain_host before port
split_at (c ∷ s) before port = if c == b'[' then bracketed s port else plain_host before port

-- net.SplitHostPort; `none` is an error. The port stands behind the last colon.
unfoldable pub split_host_port : Text → Option (Text × Text)
unfolding split_at
split_host_port s = elim (cut_last_byte b':' s) [
  | none ↦ none
  | some (before, port) ↦ split_at s before port
]

-- net.JoinHostPort
unfoldable pub join_host_port : Text → Text → Text
join_host_port host port =
    if contains_byte b':' host then b'[' ∷ (host ++ (b']' ∷ b':' ∷ port)) else host ++ (b':' ∷ port)

split_examples :
    (split_host_port (text "192.0.2.7:5070") ≡ some (text "192.0.2.7", text "5070"))
    × (split_host_port (text "[2001:db8::1]:5060") ≡ some (text "2001:db8::1", text "5060"))
    × (split_host_port (text "2001:db8::1:5060") ≡ none)
    × (split_host_port (text "192.0.2.7") ≡ none)
    × (split_host_port (text "[::1]5060:1") ≡ none)
unfolding split_host_port cut_byte cut_last_byte contains_byte text_eq
split_examples = (refl, refl, refl, refl, refl)
