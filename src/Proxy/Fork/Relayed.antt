-- ===== src/Proxy/Fork/Relayed.antt =====
-- sbc/proxy.go: the status of a relayed response, and of the responses that the handlers tell apart by it.
use comcent_ce.Common.{◌≡◌, true, false, leb, arith, ℕ}
use comcent_ce.Sip.{Sipgo, Request, Response}
use comcent_ce.Proxy.Calls.{is_success}
use comcent_ce.Proxy.Calls.Recorded.{KeepsStatus}
use comcent_ce.Proxy.Fork.{
  is_global_failure, trying, provisional, declined, succeeded, refused, kind_of, relayed_response,
}

pub status-relayed_response :
    (sip : Sipgo) (keeps : KeepsStatus sip) (req : Request) (r : Response)
    → (relayed_response sip req r).status ≡ r.status
unfolding relayed_response
status-relayed_response sip keeps req r = keeps req r.status r.reason r.body

pub kind_final :
    (n : ℕ)
    → (kind_of n ≡ trying → leb 200 n ≡ false)
      × (kind_of n ≡ provisional → leb 200 n ≡ false)
      × (kind_of n ≡ declined → leb 200 n ≡ true)
      × (kind_of n ≡ succeeded → leb 200 n ≡ true)
      × (kind_of n ≡ refused → leb 200 n ≡ true)
unfolding kind_of
kind_final n = ground arith

pub kind_success :
    (n : ℕ)
    → (kind_of n ≡ declined → is_success n ≡ false)
      × (kind_of n ≡ provisional → is_success n ≡ false)
      × (kind_of n ≡ refused → is_success n ≡ false)
unfolding kind_of is_global_failure
kind_success n = ground arith
