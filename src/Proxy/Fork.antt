-- ===== src/Proxy/Fork.antt =====
-- sbc/proxy.go: the INVITE of FreeSWITCH to a registered user, which goes to all of the user's contacts.
-- A branch's goroutine hands what it got to the handler; the handler takes the results one at a time.
mod Tests
pub mod Relayed
pub mod Answer
pub mod Ended
pub mod Best
pub mod Recorded
pub mod Settled
pub mod CalledOff
pub mod Siblings
pub mod Matching
pub mod Frame
use comcent_ce.Common.{
  ℕ, zero, suc, Bool, true, false, not, ◌&&◌, List, [], ◌∷◌, ◌++◌, Option, none, some, Text, text,
  Dict, store, delete, length, get_elem?, leb, ltb, ◌==◌, if◌then◌else◌,
}
use comcent_ce.Sip.{Sipgo, Uri, Request, Response}
use comcent_ce.Contact.Targets.{
  before_colon, parse_port, is_webrtc_sdp, message_contact_uri, contact_destination_uri,
}
use comcent_ce.Registrar.{Registrar, lookup_by_type, unregister_contact}
use comcent_ce.Registrar.Contacts.{Contact}
use comcent_ce.Forward.{build_forward, Ports, add_record_route, copy_response_headers}
use comcent_ce.Forward.Route.{RouteConfig}
use comcent_ce.Proxy.Affinity.{save_affinity, delete_affinity}
use comcent_ce.Proxy.Calls.{CallState, Calls, Status, waiting, ended}
use comcent_ce.Proxy.Cancel.{cancel_request}

-- A contact with the request that is sent to it.
pub record Branch : Type 0 where
  pub contact : Contact
  pub request : Request

pub data Report : Type 0 where
  answered : Response → Report
  errored : Report
  nothing : Report
  withdrawn : Report

-- What comes to the handler: the branch, its report, and which branches are set and without a final
-- response at that moment. A CANCEL of FreeSWITCH, which runs OnCancel, stands among them where it comes
-- in; it has no branch, and its `idx` says nothing.
pub record Result : Type 0 where
  pub idx : ℕ
  pub report : Report
  pub is_open : ℕ → Bool

-- What the handler does, in order: a response, with the table at that moment, a CANCEL, and the start of
-- registrationLapsed.
pub data Action : Type 0 where
  replies : Calls → Response → Action
  cancels : Request → Action
  lapses : Text → Action

pub record Shared : Type 0 where
  pub table : Calls
  pub reg : Registrar

abbrev pub Trace : Type 0
Trace = Shared × List Action × Status

abbrev pub before_trace : Action → Trace → Trace
before_trace a (s, rest, status) = (s, a ∷ rest, status)

abbrev pub before_all : List Action → Trace → Trace
before_all acts (s, rest, status) = (s, acts ++ rest, status)

pub is_global_failure : ℕ → Bool
is_global_failure n = leb 600 n && ltb n 700

-- The cases that the loop tells apart.
pub data Kind : Type 0 where
  trying provisional declined succeeded refused : Kind

pub kind_of : ℕ → Kind
unfolding is_global_failure
kind_of n =
    if n == 100
    then trying
    else if ltb n 200
    then provisional
    else if is_global_failure n
    then declined
    else if ltb n 300
    then succeeded
    else refused

-- bestFinal after another final response.
pub better : Option Response → Response → Response
better none resp = resp
better (some best) resp = if ltb resp.status best.status then resp else best

-- The CANCELs to the branches that are chosen, which are counted from `i` on.
pub cancel_branches : (ℕ → Bool) → ℕ → List Branch → List Action
cancel_branches chosen i [] = []
cancel_branches chosen i (b ∷ bs) =
    let rest = cancel_branches chosen (suc i) bs in
    if chosen i then cancels (cancel_request b.request b.request.transport) ∷ rest else rest

-- The branches that are open at a result, without its own.
pub is_sibling : Result → ℕ → Bool
is_sibling r i = not (i == r.idx) && r.is_open i

module _ (sip : Sipgo) (req : Request) where
  abbrev pub plain : ℕ → Text → Response
  plain status reason = sip.new_response req status reason []

  unfoldable pub relayed_response : Response → Response
  relayed_response resp =
      let relay = sip.new_response req resp.status resp.reason resp.body in
      record relay { headers = copy_response_headers sip resp.headers relay.headers }

  -- When no branch is pending.
  pub conclude : Option Response → Response
  conclude none = plain 480 (text "Temporarily Unavailable")
  conclude (some best) = relayed_response best

  pub won_call : Text → Contact → CallState
  won_call aor winner = record {
    fs_addr = req.source;
    fs_uri = message_contact_uri sip req.headers (record {
      user = [];
      host = before_colon req.source;
      port = parse_port req.source;
      params = [];
    });
    user_addr = winner.address;
    user_uri = winner.uri;
    user_aors = aor ∷ [];
    is_webrtc = winner.is_webrtc;
    spoofed_user = [];
    fs_cseq_offset = 0;
  }

  -- The request of one contact. The Via is sipgo's to add.
  pub branch_request : RouteConfig → Ports → Text → Text → Contact → Option Request
  branch_request cfg ports user domain c =
      elim (build_forward sip cfg req (contact_destination_uri c user domain) []) [
        | none ↦ none
        | some fwd ↦ some (
            add_record_route ports
              (record fwd {
                destination = c.address;
                transport = if c.is_webrtc then text "ws" else fwd.transport;
              })
              false)
      ]

  pub prepare : RouteConfig → Ports → Text → Text → List Contact → List Branch
  unfolding branch_request
  prepare cfg ports user domain [] = []
  prepare cfg ports user domain (c ∷ cs) = elim (branch_request cfg ports user domain c) [
    | none ↦ prepare cfg ports user domain cs
    | some fwd ↦ record { contact = c; request = fwd } ∷ prepare cfg ports user domain cs
  ]

module _ (sip : Sipgo) (req : Request) (id aor : Text) where
  module _ (branches : List Branch) where
    -- A result names a branch that was started.
    unregister_branch : ℕ → Shared → Shared
    unregister_branch i s = elim (get_elem? branches i) [
      | none ↦ s
      | some b ↦ record s { reg = unregister_contact s.reg aor b.contact.address }
    ]

    -- The table with the winner's call.
    win_call : ℕ → Shared → Shared
    unfolding won_call
    win_call i s = elim (get_elem? branches i) [
      | none ↦ s
      | some b ↦ record s {
        table = record s.table { calls = store id (won_call sip req aor b.contact) s.table.calls };
      }
    ]

    -- The rest of the loop, for the branches that are pending then.
    abbrev Rest : Type 0
    Rest = ℕ → Bool → Option Response → Shared → Trace

    -- One response. `n` branches are pending without this one.
    on_response : Kind → ℕ → Bool → Option Response → Shared → Result → Response → Rest → Trace
    unfolding win_call
    on_response trying n relayed best s r resp rest = rest (suc n) relayed best s
    on_response provisional n relayed best s r resp rest =
        if relayed
        then rest (suc n) relayed best s
        else before_trace (replies s.table (relayed_response sip req resp))
            (rest (suc n) true best s)
    on_response declined n relayed best s r resp rest = (
      s,
      cancel_branches (is_sibling r) 0 branches
          ++ replies s.table (plain sip req resp.status resp.reason) ∷ [],
      ended false,
    )
    on_response succeeded n relayed best s r resp rest = (
      win_call r.idx s,
      replies (win_call r.idx s).table (relayed_response sip req resp)
          ∷ cancel_branches (is_sibling r) 0 branches,
      ended true,
    )
    on_response refused n relayed best s r resp rest = rest n relayed (some (better best resp)) s

    on_report : ℕ → Bool → Option Response → Shared → Result → Report → Rest → Trace
    unfolding on_response unregister_branch
    on_report n relayed best s r errored rest =
        before_trace (lapses aor) (rest n relayed best (unregister_branch r.idx s))
    on_report n relayed best s r nothing rest = rest n relayed best s
    on_report n relayed best s r withdrawn rest =
        before_all (cancel_branches r.is_open 0 branches) (rest (suc n) relayed best s)
    on_report n relayed best s r (answered resp) rest =
        on_response (kind_of resp.status) n relayed best s r resp rest

    -- The loop of handleInviteFromFSToUser.
    pub gather : List Result → ℕ → Bool → Option Response → Shared → Trace
    unfolding on_report conclude
    gather results zero relayed best s =
        (s, replies s.table (conclude sip req best) ∷ [], ended false)
    gather [] (suc n) relayed best s = (s, [], waiting)
    gather (r ∷ results) (suc n) relayed best s =
        on_report n relayed best s r r.report (gather results)

    -- The deferred calls, last first.
    pub leave : Trace → Trace
    leave (s, acts, waiting) = (s, acts, waiting)
    leave (s, acts, ended established) =
        let t = record s.table { active = delete id s.table.active } in
        (
          record s {
            table =
                if established
                then t
                else record t { affinity = delete_affinity id (aor ∷ []) t.affinity };
          },
          acts,
          ended established,
        )

  -- From the branches on; the transaction is stored with FreeSWITCH's own request.
  pub fork : List Branch → List Result → Shared → Trace
  unfolding gather leave
  fork [] results s = (
    record s {
      table = record s.table { affinity = delete_affinity id (aor ∷ []) s.table.affinity };
    },
    replies s.table (plain sip req 480 (text "Temporarily Unavailable")) ∷ [],
    ended false,
  )
  fork (b ∷ bs) results s = leave (b ∷ bs) (
      gather (b ∷ bs) results (suc (length bs)) false none
        (record s { table = record s.table { active = store id req s.table.active } }))

  -- saveAffinity on the shared state.
  abbrev pub saved : Shared → Shared
  saved s = record s {
    table = record s.table { affinity = save_affinity id req.source (aor ∷ []) s.table.affinity };
  }

  -- From where the contacts are found.
  pub fork_contacts :
      RouteConfig → Ports → Text → Text → List Contact → List Result → Shared → Trace
  unfolding fork prepare
  fork_contacts cfg ports user domain [] results s =
      (s, replies s.table (plain sip req 480 (text "Temporarily Unavailable")) ∷ [], ended false)
  fork_contacts cfg ports user domain (c ∷ cs) results s =
      let t = saved s in
      before_trace (replies t.table (plain sip req 100 (text "Trying")))
        (fork (prepare sip req cfg ports user domain (c ∷ cs)) results t)

-- handleInviteFromFSToUser
pub invite_to_user :
    Sipgo → RouteConfig → Ports → ℕ → Request → Text → Text → Text → List Result → Shared → Trace
unfolding fork_contacts
invite_to_user sip cfg ports now req id user domain results s =
    let aor = user ++ (b'@' ∷ domain) in
    fork_contacts sip req id aor cfg ports user domain
      (lookup_by_type s.reg now aor (is_webrtc_sdp req.body)) results s
