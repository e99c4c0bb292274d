-- ===== src/Sip.antt =====
-- The messages of sipgo's package sip, as the controller reads and writes them. sipgo keeps a header
-- either in a type of its own or as a name and a text; the accessors answer from the first header of
-- their type. What sipgo computes (parsing and printing, building a response) is the record `Sipgo`.
use comcent_ce.Common.{ℕ, List, [], ◌∷◌, Option, none, some, Text, text, if◌then◌else◌}
use comcent_ce.Common.Int.{ℤ}
use comcent_ce.Go.Strings.{equal_fold}

-- sip.Uri. `params` stands for the fields that the controller copies and never reads.
pub record Uri : Type 0 where
  pub user : Text
  pub host : Text
  pub port : ℤ
  pub params : Text

-- A From or To header: its URI, and its tag, which is empty where there is none.
pub record Address : Type 0 where
  pub uri : Uri
  pub tag : Text

pub data Header : Type 0 where
  from_header : Address → Header
  to_header : Address → Header
  call_id_header : Text → Header
  cseq_header : ℕ → Text → Header
  max_forwards_header : ℕ → Header
  generic_header : Text → Text → Header

-- Header.Name()
abbrev pub name : Header → Text
name (from_header a) = text "From"
name (to_header a) = text "To"
name (call_id_header id) = text "Call-ID"
name (cseq_header n m) = text "CSeq"
name (max_forwards_header n) = text "Max-Forwards"
name (generic_header n v) = n

pub record Request : Type 0 where
  pub method : Text
  pub recipient : Uri
  pub headers : List Header
  pub body : Text
  pub source : Text
  pub destination : Text
  pub transport : Text

pub record Response : Type 0 where
  pub status : ℕ
  pub reason : Text
  pub headers : List Header
  pub body : Text
  pub destination : Text

-- What the controller takes from sipgo.
pub record Sipgo : Type 0 where
  -- Header.Value() of a header in a type of sipgo's own
  pub print : Header → Text
  -- Request.StartLine() and Response.StartLine()
  pub request_line : Request → Text
  pub status_line : Response → Text
  -- sip.ParseUri and Uri.String()
  pub parse_uri : Text → Option Uri
  pub uri_text : Uri → Text
  -- sip.NewResponseFromRequest(req, status, reason, body)
  pub new_response : Request → ℕ → Text → Text → Response
  -- RemoveHeader(name)
  pub remove_header : Text → List Header → List Header

-- Header.Value()
unfoldable pub value : Sipgo → Header → Text
value sip (generic_header n v) = v
value sip h = sip.print h

-- The first header that an accessor reads.
unfoldable pub first {ℓ} : {A : Type ℓ} → (Header → Option A) → List Header → Option A
first pick [] = none
first pick (h ∷ hs) = elim (pick h) [ some a ↦ some a | none ↦ first pick hs ]

abbrev pick_max_forwards : Header → Option ℕ
pick_max_forwards (max_forwards_header n) = some n
pick_max_forwards _ = none

abbrev pub pick_from : Header → Option Address
pick_from (from_header a) = some a
pick_from _ = none

abbrev pub pick_to : Header → Option Address
pick_to (to_header a) = some a
pick_to _ = none

abbrev pub pick_call_id : Header → Option Text
pick_call_id (call_id_header id) = some id
pick_call_id _ = none

abbrev pub pick_cseq : Header → Option ℕ
pick_cseq (cseq_header n m) = some n
pick_cseq _ = none

-- MaxForwards(), From(), To(), CallID(), and the number of CSeq()
abbrev pub max_forwards : List Header → Option ℕ
max_forwards = first pick_max_forwards

abbrev pub from_address : List Header → Option Address
from_address = first pick_from

abbrev pub to_address : List Header → Option Address
to_address = first pick_to

abbrev pub call_id : List Header → Option Text
call_id = first pick_call_id

abbrev pub cseq_number : List Header → Option ℕ
cseq_number = first pick_cseq

-- GetHeader(name), with its value
unfoldable pub get_header : Sipgo → Text → List Header → Option Text
unfolding value
get_header sip n [] = none
get_header sip n (h ∷ hs) =
    if equal_fold (name h) n then some (value sip h) else get_header sip n hs

-- The methods that the code names.
abbrev pub invite : Text
invite = text "INVITE"

abbrev pub ack : Text
ack = text "ACK"

abbrev pub bye : Text
bye = text "BYE"

abbrev pub cancel : Text
cancel = text "CANCEL"

abbrev pub options : Text
options = text "OPTIONS"
