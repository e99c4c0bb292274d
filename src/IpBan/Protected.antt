-- ===== src/IpBan/Protected.antt =====
-- sbc/ip_ban.go: `Fail` on sources that neverBan protects.
use comcent_ce.Common.{
  ℕ, ◌≡◌, ◌≢◌, refl, true, false, ◌||◌, List, [], ◌∷◌, Option, none, some, arith, Text, Dict,
  lookup, lookup-store, text_eq, text_eq_iff, Bool-cases, inl, inr, All,
}
use comcent_ce.IpBan.Record.{BanRecord, Limits}
use comcent_ce.IpBan.{IpBan, banned, forget, sweep, count_failure, fail}
use comcent_ce.IpBan.Unswept.{Failure, fail_all}

forget_unlisted :
    (l : Limits) (now : ℕ) (k : Text) (m : Dict BanRecord)
    → lookup k m ≡ none
    → lookup k (forget l now m) ≡ none
unfolding forget lookup
forget_unlisted l now k [] e = refl
forget_unlisted l now k ((ip, r) ∷ m) e = ground (arith, forget_unlisted l now k m)

sweep_unlisted :
    (b : IpBan) (now : ℕ) (k : Text)
    → lookup k b.sources ≡ none
    → lookup k (sweep b now).sources ≡ none
unfolding sweep
sweep_unlisted b now k e = ground (arith, forget_unlisted b.limits now k b.sources)

count_unlisted :
    (b : IpBan) (now : ℕ) (k ip : Text)
    → ip ≢ k
    → lookup k b.sources ≡ none
    → lookup k (count_failure b now ip).sources ≡ none
unfolding count_failure
count_unlisted b now k ip n e =
    rw (lookup-store ip k _ b.sources) (ground (arith, text_eq_iff ip k))

-- A source that is protected at every failure of it is never banned: from a list that has no record of
-- it, for every sequence of failures, at every moment.
fail_all-protected :
    (fs : List Failure) (b : IpBan) (now : ℕ) (ip : Text)
    → lookup ip b.sources ≡ none
    → All (λ (f : Failure). f.ip ≡ ip → f.never ≡ true) fs
    → banned (fail_all (some b) fs) now ip ≡ false
unfolding fail_all banned fail
fail_all-protected [] b now ip e p = rw e
fail_all-protected (f ∷ fs) b now ip e p = elim (Bool-cases (text_eq f.ip [] || f.never)) [
  | inl g ↦ rw g (fail_all-protected fs b now ip e p.1)
  | inr g ↦ rw g (
      fail_all-protected fs (count_failure (sweep b f.time) f.time f.ip) now ip
        (count_unlisted (sweep b f.time) f.time ip f.ip
          (λ q. let n : f.never ≡ true = p.0 q in ground arith) (sweep_unlisted b f.time ip e))
        p.1)
]

-- A protected source is not counted.
pub fail_never : (b : Option IpBan) (now : ℕ) (ip : Text) → fail b now true ip ≡ b
unfolding fail
fail_never none now ip = refl
fail_never (some b) now ip = ground arith
