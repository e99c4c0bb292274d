-- ===== src/Go/Strconv.antt =====
-- package strconv: Itoa and Atoi on a 64-bit int.
use comcent_ce.Common.{
  ℕ, zero, suc, ◌+◌, ◌-◌, ◌*◌, ◌/◌, ◌%◌, ◌^◌, ◌≤◌, ◌<◌, ◌≡◌, refl, ◌∙◌, ◌||◌, [], ◌∷◌, Option, none,
  some, arith, Text, text, ltb, leb, ◌==◌, ltb_iff, if◌then◌else◌,
}
use comcent_ce.Common.Int.{ℤ, pos, negsuc}

-- The digits of `n` in front of `out`; the fuel bounds the number of digits.
write_digits : ℕ → ℕ → Text → Text
write_digits zero n out = out
write_digits (suc f) n out =
    let more = write_digits f (n / 10) ((b'0' + n % 10) ∷ out) in
    if ltb n 10 then (b'0' + n) ∷ out else more

-- strconv.Itoa of a number that is not negative. `n` has fewer than `n + 1` digits.
unfoldable pub itoa : ℕ → Text
unfolding write_digits
itoa n = write_digits (n + 1) n []

-- strconv.Itoa
unfoldable pub itoa_ℤ : ℤ → Text
itoa_ℤ (pos n) = itoa n
itoa_ℤ (negsuc n) = b'-' ∷ itoa (n + 1)

-- The value of a run of digits behind those that make `acc`.
read_digits : Text → ℕ → Option ℕ
read_digits [] acc = some acc
read_digits (c ∷ s) acc =
    let rest = read_digits s (acc * 10 + (c - b'0')) in
    if ltb c b'0' || ltb b'9' c then none else rest

unsigned : Text → Option ℕ
unfolding read_digits
unsigned [] = none
unsigned (c ∷ s) = read_digits (c ∷ s) 0

-- 2 ^ 63, the first number past the largest int.
abbrev pub int_limit : ℕ
int_limit = 2 ^ 63

abbrev positive : Option ℕ → Option ℤ
positive none = none
positive (some n) = if ltb n int_limit then some (pos n) else none

abbrev negative : Option ℕ → Option ℤ
negative none = none
negative (some zero) = some (pos 0)
negative (some (suc n)) = if ltb n int_limit then some (negsuc n) else none

-- strconv.Atoi: an optional sign and digits, refused out of the range of an int.
unfoldable pub atoi : Text → Option ℤ
unfolding unsigned
atoi [] = none
atoi (c ∷ s) =
    if c == b'-'
    then negative (unsigned s)
    else if c == b'+'
    then positive (unsigned s)
    else positive (unsigned (c ∷ s))

-- The digits as strconv.ParseUint reads them: at the first that leaves the range of a uint64 it stops.
read_clipped : Text → ℕ → Option ℕ
read_clipped [] acc = some acc
read_clipped (c ∷ s) acc =
    let next = acc * 10 + (c - b'0') in
    let rest = read_clipped s (acc * 10 + (c - b'0')) in
    if ltb c b'0' || ltb b'9' c then none else if leb (2 ^ 64) next then some next else rest

unsigned_clipped : Text → Option ℕ
unfolding read_clipped
unsigned_clipped [] = none
unsigned_clipped (c ∷ s) = read_clipped (c ∷ s) 0

abbrev positive_clipped : Option ℕ → ℤ
positive_clipped none = pos 0
positive_clipped (some n) = if ltb n int_limit then pos n else pos (int_limit - 1)

abbrev negative_clipped : Option ℕ → ℤ
negative_clipped none = pos 0
negative_clipped (some zero) = pos 0
negative_clipped (some (suc n)) = if ltb n int_limit then negsuc n else negsuc (int_limit - 1)

-- The number that strconv.Atoi returns beside its error: 0 where the text is no number, and the nearest int
-- where it is out of range.
unfoldable pub atoi_value : Text → ℤ
unfolding unsigned_clipped
atoi_value [] = pos 0
atoi_value (c ∷ s) =
    if c == b'-'
    then negative_clipped (unsigned_clipped s)
    else if c == b'+'
    then positive_clipped (unsigned_clipped s)
    else positive_clipped (unsigned_clipped (c ∷ s))

read-write_digits :
    (f n : ℕ) (out : Text) → n < f → read_digits (write_digits f n out) 0 ≡ read_digits out n
unfolding read_digits write_digits
read-write_digits zero n out h = absurd (omega arith)
read-write_digits (suc f) n out h =
    ground (arith, read-write_digits f (n / 10) ((b'0' + n % 10) ∷ out))

-- The first character is a digit.
abbrev StartsDigit : Text → Type 0
StartsDigit [] = ⊥
StartsDigit (c ∷ s) = (b'0' ≤ c) × (c ≤ b'9')

write_digits-StartsDigit : (f n : ℕ) (out : Text) → n < f → StartsDigit (write_digits f n out)
unfolding write_digits
write_digits-StartsDigit zero n out h = absurd (omega arith)
write_digits-StartsDigit (suc f) n out h =
    ground (arith, write_digits-StartsDigit f (n / 10) ((b'0' + n % 10) ∷ out))

atoi-digits : (s : Text) → StartsDigit s → atoi s ≡ positive (read_digits s 0)
unfolding atoi
atoi-digits [] h = absurd h
atoi-digits (c ∷ s) h = ground arith

unsigned-digits : (s : Text) → StartsDigit s → unsigned s ≡ read_digits s 0
unfolding unsigned
unsigned-digits [] h = absurd h
unsigned-digits (c ∷ s) h = refl

-- Reading a printed int gives it back.
pub atoi-itoa : (n : ℕ) → n < int_limit → atoi (itoa n) ≡ some (pos n)
unfolding itoa
atoi-itoa n h =
    rw
      (
        atoi-digits (write_digits (n + 1) n [])
            (write_digits-StartsDigit (n + 1) n [] (omega arith)),
        read-write_digits (n + 1) n [] (omega arith),
      )
      (unfold read_digits in rw ((ltb_iff n int_limit).1 h))

unsigned-itoa : (n : ℕ) → unsigned (itoa n) ≡ some n
unfolding itoa
unsigned-itoa n =
    unsigned-digits (write_digits (n + 1) n [])
      (write_digits-StartsDigit (n + 1) n [] (omega arith))
    ∙ read-write_digits (n + 1) n [] (omega arith)
    ∙ (unfold read_digits in refl)

-- The numbers of an int.
abbrev pub InRange : ℤ → Type 0
InRange (pos n) = n < int_limit
InRange (negsuc n) = n < int_limit

pub atoi-itoa_ℤ : (z : ℤ) → InRange z → atoi (itoa_ℤ z) ≡ some z
unfolding atoi itoa_ℤ
atoi-itoa_ℤ (pos n) h = atoi-itoa n h
atoi-itoa_ℤ (negsuc n) h = rw (unsigned-itoa (n + 1)) (ground arith)

atoi_signs :
    (atoi (text "-5060") ≡ some (negsuc 5059))
    × (atoi (text "+7") ≡ some (pos 7))
    × (atoi (text "9223372036854775808") ≡ none)
    × (atoi (text "5060;lr") ≡ none)
unfolding atoi
atoi_signs = (refl, refl, refl, refl)

atoi_values :
    (atoi_value (text "9223372036854775808") ≡ pos 9_223_372_036_854_775_807)
    × (atoi_value (text "-99999999999999999999x") ≡ negsuc 9_223_372_036_854_775_807)
    × (atoi_value (text "5060;lr") ≡ pos 0)
    × (atoi_value (text "5060") ≡ pos 5060)
unfolding atoi_value
atoi_values = (refl, refl, refl, refl)

itoa_port : itoa 5060 ≡ text "5060"
unfolding itoa
itoa_port = refl
