-- ===== src/PipeListener/Prefix.antt =====
-- sbc/pipe_listener.go: prefixConn. io.MultiReader reads from its first reader until that is at its end, and
-- then from the next; a read of the connection gives what has arrived of what it still holds.
use comcent_ce.Common.{
  ℕ, zero, suc, ◌≡◌, refl, ap, ◌∙◌, sym, List, [], ◌∷◌, ◌++◌, append_assoc, Text, min,
}

pub record PrefixConn : Type 0 where
  pub prefix : Text
  pub unread : Text

unfoldable pub new_prefix_conn : Text → Text → PrefixConn
new_prefix_conn conn prefix = record { prefix = prefix; unread = conn }

-- The first `n` bytes, and those behind.
pub split_at : ℕ → Text → Text × Text
split_at zero s = ([], s)
split_at (suc n) [] = ([], [])
split_at (suc n) (c ∷ s) = let (a, b) = split_at n s in (c ∷ a, b)

read_prefix : Text × Text → PrefixConn → Text × PrefixConn
read_prefix (a, b) c = (a, record c { prefix = b })

read_conn : Text × Text → PrefixConn → Text × PrefixConn
read_conn (a, b) c = (a, record c { unread = b })

read_from : Text → ℕ → ℕ → PrefixConn → Text × PrefixConn
unfolding read_prefix read_conn
read_from [] n arrived c = read_conn (split_at (min n arrived) c.unread) c
read_from (d ∷ prefix) n arrived c = read_prefix (split_at n (d ∷ prefix)) c

-- Read of a buffer of `n` bytes, when `arrived` bytes wait on the connection.
pub read : ℕ → ℕ → PrefixConn → Text × PrefixConn
unfolding read_from
read n arrived c = read_from c.prefix n arrived c

abbrev onto : Text → Text × PrefixConn → Text × PrefixConn
onto got (more, c) = (got ++ more, c)

-- What a sequence of reads gives together.
pub read_all : List (ℕ × ℕ) → PrefixConn → Text × PrefixConn
read_all [] c = ([], c)
read_all ((n, arrived) ∷ reads) c = let (got, c') = read n arrived c in onto got (read_all reads c')

split_at-append : (n : ℕ) (s : Text) → (split_at n s).0 ++ (split_at n s).1 ≡ s
unfolding split_at
split_at-append zero s = refl
split_at-append (suc n) [] = refl
split_at-append (suc n) (c ∷ s) = ap (λ (t : Text). c ∷ t) (split_at-append n s)

abbrev pub stream : PrefixConn → Text
stream c = c.prefix ++ c.unread

read_from-stream :
    (p : Text) (n arrived : ℕ) (c : PrefixConn)
    → c.prefix ≡ p
    → (read_from p n arrived c).0 ++ stream (read_from p n arrived c).1 ≡ stream c
unfolding read_from
read_from-stream [] n arrived c e =
    let (a, b) = split_at (min n arrived) c.unread in
    ap (λ (q : Text). a ++ (q ++ b)) e
    ∙ split_at-append (min n arrived) c.unread
    ∙ ap (λ (q : Text). q ++ c.unread) (sym e)
read_from-stream (d ∷ p) n arrived c e =
    let (a, b) = split_at n (d ∷ p) in
    sym (append_assoc a b c.unread)
    ∙ ap (λ (q : Text). q ++ c.unread) (split_at-append n (d ∷ p) ∙ sym e)

-- What any reads give, and what is left then, is the prefix and the rest of the connection, in order.
pub read_all-stream :
    (reads : List (ℕ × ℕ)) (c : PrefixConn)
    → (read_all reads c).0 ++ stream (read_all reads c).1 ≡ stream c
unfolding read_all read
read_all-stream [] c = refl
read_all-stream ((n, arrived) ∷ reads) c =
    let (got, c') = read n arrived c in
    let (more, left) = read_all reads c' in
    append_assoc got more (stream left)
    ∙ ap (λ (q : Text). got ++ q) (read_all-stream reads c')
    ∙ read_from-stream c.prefix n arrived c refl
