-- ===== src/Proxy/Calls/Acks.antt =====
-- sbc/proxy.go: where the ACK of FreeSWITCH goes.
use comcent_ce.Common.{
  ◌≡◌, inl, inr, refl, sym, ◌∙◌, true, false, [], some, Text, text, text_eq, text_eq_iff, lookup,
  if◌then◌else◌, Bool-cases,
}
use comcent_ce.Sip.{Sipgo, Request, cseq_number}
use comcent_ce.Forward.{shift_cseq, too_many_hops}
use comcent_ce.Forward.Cseq.{destination-shift_cseq}
use comcent_ce.Forward.Hops.{
  build_in_dialog_sent, destination-build_in_dialog, cseq-build_in_dialog,
}
use comcent_ce.Forward.Route.{RouteConfig}
use comcent_ce.Proxy.Calls.{CallState, Calls, dialog_from_fs, handle_ack}

-- An ACK of FreeSWITCH for a call in the table is sent on to the address of the call's user, with the
-- headers of a request that has the ACK's number, shifted.
pub ack_from_fs :
    (sip : Sipgo) (cfg : RouteConfig) (s : Calls) (c : CallState) (id : Text) (a : Request)
    → lookup id s.calls ≡ some c
    → too_many_hops a ≡ false
    → (fwd : Request) × (handle_ack sip cfg s true id a ≡ some fwd)
      × (fwd.destination ≡ c.user_addr)
      × (b : Request) × (cseq_number b.headers ≡ cseq_number a.headers)
      × (fwd.headers ≡ (shift_cseq b c.fs_cseq_offset).headers)
unfolding handle_ack dialog_from_fs
ack_from_fs sip cfg s c id a e h =
    let (fwd, b) = build_in_dialog_sent sip cfg a c.user_uri [] h in
    let same = cseq-build_in_dialog sip cfg a c.user_uri [] fwd b in
    elim (Bool-cases (text_eq c.user_addr [])) [
      | inl f ↦ (
        shift_cseq fwd c.fs_cseq_offset,
        rw (e, handle_ack, dialog_from_fs, b, f) refl,
        destination-shift_cseq fwd c.fs_cseq_offset
            ∙ destination-build_in_dialog sip cfg a c.user_uri [] fwd b
            ∙ sym ((text_eq_iff c.user_addr []).0 f),
        fwd,
        same,
        refl,
      )
      | inr f ↦
          let shifted = shift_cseq fwd c.fs_cseq_offset in
          (
            record shifted {
              destination = c.user_addr;
              transport = if c.is_webrtc then text "ws" else shifted.transport;
            },
            rw (e, handle_ack, dialog_from_fs, b, f) refl,
            refl,
            fwd,
            same,
            refl,
          )
    ]
