-- ===== src/Forward/Cseq.antt =====
-- sbc/proxy.go: `digestCSeqOffset` and `shiftCSeq`.
use comcent_ce.Common.{
  ℕ, ◌+◌, ◌-◌, ◌%◌, ◌^◌, ◌≤◌, ◌<◌, ◌≡◌, refl, List, [], ◌∷◌, Option, none, some, arith,
}
use comcent_ce.Sip.{
  Header, Request, from_header, to_header, call_id_header, cseq_header, max_forwards_header,
  generic_header, first, cseq_number,
}
use comcent_ce.Forward.{digest_cseq_offset, shift_first, shift_cseq}

abbrev shifted : ℕ → Option ℕ → Option ℕ
shifted offset none = none
shifted offset (some n) = some ((n + offset) % 2 ^ 32)

cseq-shift_first :
    (offset : ℕ) (hs : List Header)
    → cseq_number (shift_first offset hs) ≡ shifted offset (cseq_number hs)
unfolding shift_first first
cseq-shift_first offset [] = refl
cseq-shift_first offset (cseq_header n m ∷ hs) = refl
cseq-shift_first offset (from_header a ∷ hs) = cseq-shift_first offset hs
cseq-shift_first offset (to_header a ∷ hs) = cseq-shift_first offset hs
cseq-shift_first offset (call_id_header a ∷ hs) = cseq-shift_first offset hs
cseq-shift_first offset (max_forwards_header n ∷ hs) = cseq-shift_first offset hs
cseq-shift_first offset (generic_header n v ∷ hs) = cseq-shift_first offset hs

-- After the trunk answered an INVITE that FreeSWITCH numbered `f` with the number `a`, where `f` is not
-- above `a`, the request that FreeSWITCH numbers `d` higher goes out with the trunk's number `d` higher,
-- in a uint32: the ACK, for which `d` is 0, carries `a` itself.
shift-digest_cseq_offset :
    (req : Request) (a f d : ℕ)
    → f ≤ a
    → a < 2 ^ 32
    → cseq_number req.headers ≡ some (f + d)
    → f + d < 2 ^ 32
    → cseq_number (shift_cseq req (digest_cseq_offset (some a) (some f))).headers
      ≡ some ((a + d) % 2 ^ 32)
unfolding shift_cseq digest_cseq_offset
shift-digest_cseq_offset req a f d h w e v = ground (arith, cseq-shift_first (a - f) req.headers)

pub destination-shift_cseq :
    (fwd : Request) (offset : ℕ) → (shift_cseq fwd offset).destination ≡ fwd.destination
unfolding shift_cseq
destination-shift_cseq fwd offset = ground arith

pub cseq-shift_zero :
    (req : Request) → cseq_number (shift_cseq req 0).headers ≡ cseq_number req.headers
unfolding shift_cseq
cseq-shift_zero req = refl

-- The ACK goes out with the trunk's number.
pub shift-digest_ack :
    (req : Request) (n f : ℕ)
    → f ≤ n
    → n < 2 ^ 32
    → cseq_number req.headers ≡ some f
    → cseq_number (shift_cseq req (digest_cseq_offset (some n) (some f))).headers ≡ some n
unfolding shift_cseq digest_cseq_offset
shift-digest_ack req n f h w e = ground (arith, cseq-shift_first (n - f) req.headers)
