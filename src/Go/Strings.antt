-- ===== src/Go/Strings.antt =====
-- package strings, on ASCII text.
use comcent_ce.Common.{
  ℕ, ◌+◌, Bool, true, false, ◌&&◌, ◌||◌, List, [], ◌∷◌, ◌++◌, Option, none, some, Text, leb, ◌==◌,
  any, text_eq, if◌then◌else◌,
}

-- strings.IndexByte(s, c) with the two slices around the byte: s[:i] and s[i+1:]. It is
-- strings.Cut too.
unfoldable pub cut_byte : ℕ → Text → Option (Text × Text)
cut_byte c [] = none
cut_byte c (d ∷ s) =
    let rest : Option (Text × Text) = elim (cut_byte c s) [
      | none ↦ none
      | some (a, b) ↦ some (d ∷ a, b)
    ] in
    if d == c then some ([], s) else rest

-- strings.LastIndex of one byte, with the two slices around it.
unfoldable pub cut_last_byte : ℕ → Text → Option (Text × Text)
cut_last_byte c [] = none
cut_last_byte c (d ∷ s) = elim (cut_last_byte c s) [
  | some (a, b) ↦ some (d ∷ a, b)
  | none ↦ if d == c then some ([], s) else none
]

unfoldable pub contains_byte : ℕ → Text → Bool
contains_byte c s = any (λ d. d == c) s

unfoldable pub has_prefix : Text → Text → Bool
has_prefix s [] = true
has_prefix [] (d ∷ p) = false
has_prefix (c ∷ s) (d ∷ p) = c == d && has_prefix s p

-- What is left of `s` behind a prefix.
unfoldable pub strip_prefix : Text → Text → Option Text
strip_prefix s [] = some s
strip_prefix [] (d ∷ p) = none
strip_prefix (c ∷ s) (d ∷ p) = if c == d then strip_prefix s p else none

-- strings.TrimPrefix(s, prefix)
unfoldable pub trim_prefix : Text → Text → Text
unfolding strip_prefix
trim_prefix s p = elim (strip_prefix s p) [ some rest ↦ rest | none ↦ s ]

unfoldable pub has_suffix : Text → Text → Bool
has_suffix [] p = text_eq [] p
has_suffix (c ∷ s) p = text_eq (c ∷ s) p || has_suffix s p

unfoldable pub contains : Text → Text → Bool
unfolding has_prefix
contains [] p = has_prefix [] p
contains (c ∷ s) p = has_prefix (c ∷ s) p || contains s p

onto : ℕ → List Text → List Text
onto d [] = (d ∷ []) ∷ []
onto d (p ∷ ps) = (d ∷ p) ∷ ps

-- strings.Split(s, sep) for a separator of one byte.
unfoldable pub split : ℕ → Text → List Text
unfolding onto
split c [] = [] ∷ []
split c (d ∷ s) = let rest = split c s in if d == c then [] ∷ rest else onto d rest

-- strings.Join(parts, sep)
unfoldable pub join : Text → List Text → Text
join sep [] = []
join sep (p ∷ []) = p
join sep (p ∷ q ∷ ps) = p ++ (sep ++ join sep (q ∷ ps))

-- unicode.IsSpace on ASCII: tab to carriage return, and the space.
unfoldable pub is_space : ℕ → Bool
is_space c = (leb 9 c && leb c 13) || c == 32

-- strings.TrimLeft and strings.TrimRight, by a test on the characters.
unfoldable pub trim_left : (ℕ → Bool) → Text → Text
trim_left p [] = []
trim_left p (c ∷ s) = let rest = trim_left p s in if p c then rest else c ∷ s

drop_end : (ℕ → Bool) → ℕ → Text → Text
drop_end p c [] = if p c then [] else c ∷ []
drop_end p c (d ∷ t) = c ∷ d ∷ t

unfoldable pub trim_right : (ℕ → Bool) → Text → Text
unfolding drop_end
trim_right p [] = []
trim_right p (c ∷ s) = drop_end p c (trim_right p s)

-- strings.Trim
unfoldable pub trim : (ℕ → Bool) → Text → Text
unfolding trim_left trim_right
trim p s = trim_right p (trim_left p s)

unfoldable pub trim_space : Text → Text
unfolding trim is_space
trim_space s = trim is_space s

unfoldable pub lower_char : ℕ → ℕ
lower_char c = if leb b'A' c && leb c b'Z' then c + 32 else c

-- strings.ToLower
unfoldable pub to_lower : Text → Text
unfolding lower_char
to_lower [] = []
to_lower (c ∷ s) = lower_char c ∷ to_lower s

-- strings.EqualFold
unfoldable pub equal_fold : Text → Text → Bool
unfolding to_lower text_eq
equal_fold s t = text_eq (to_lower s) (to_lower t)
