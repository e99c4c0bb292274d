-- ===== src/Lib.antt =====
-- Verification of the session border controller (SBC) of Comcent, the Go program in sbc/.
--
-- The controller stands between the phones, browsers and trunks of the public network and the
-- FreeSWITCH servers of the private one. It keeps the registrations of users, authenticates requests
-- with digests that it checks against the passwords of the web server, picks a FreeSWITCH for each
-- call, forwards SIP requests and responses with their routes rewritten, and bans sources that fail
-- too often.
--
-- The parts and where they are modelled:
--   Registrar   sbc/registrar.go and the registrar's part of sbc/nat_keepalive.go: the contacts of each
--               address of record. Register, Unregister, UnregisterContact, LookupAll, LookupByType,
--               IsRegistered, HasSourceIP, reap, pingAnswered, pingMissed, natContacts are the
--               functions of the same names, in the spelling register, unregister_contact and so on.
--   IpBan       sbc/ip_ban.go: Banned, Fail and sweep on the records of the sources; IpBan/Rejected has
--               the calls that were turned away.
--   Dispatcher  sbc/dispatcher.go: the targets, SelectTarget, the RPC handler; Dispatcher/Discovery has
--               the loop of sbc/main.go that looks FreeSWITCH up by name.
--   Auth        sbc/auth.go: validateDigestAuth, parseDigestParams, sendAuthChallenge.
--   Wrap        sbc/crlf_validation.go, sbc/symmetric_responses.go, dropBanned of sbc/ip_ban.go, and
--               their order in sbc/main.go.
--   Api         sbc/api.go: the caches in front of the web server, and the networks of trunks.
--   Contact     sbc/proxy.go: Contact values and URIs as text (splitContact, contactWithExpires,
--               parseContactURI and others).
--   Forward     sbc/proxy.go: the request that is sent on for a request, Max-Forwards, Route and
--               Record-Route, CSeq numbers, and the headers of responses.
--   Proxy       sbc/proxy.go with neverBan and failed of sbc/ip_ban.go: the state that ties the parts
--               together. Proxy/Register is handleRegister, Proxy/Access authenticateExternalRequest,
--               Proxy/Affinity the choice of FreeSWITCH for users with calls, Proxy/Keepalive the rounds of
--               sbc/nat_keepalive.go.
--               Proxy/Calls is handleInviteToFS behind its authentication, with handleAck; Proxy/Fork the
--               INVITE of FreeSWITCH to the contacts of a user, Proxy/Trunk the one to a trunk with its
--               digest retry, Proxy/Dialog relayInDialog with cleanupCall, Proxy/Cancel handleCancel with
--               cancelOutgoing, and Proxy/Incoming the choice between the handlers; Proxy/Isolation has the
--               handlers of several calls one after another. A client transaction is the list of its
--               events; each response stands beside the call table at the moment it is sent.
--               What the branches of a fork report, and the CANCEL of FreeSWITCH, come to the handler as one
--               list, in order.
--   Config      sbc/config.go: the settings; Config/Start has newProxy of sbc/proxy.go.
--   CertReloader
--               sbc/cert_reloader.go: the certificate that is read again while it is used.
--   PipeListener
--               sbc/pipe_listener.go: the listener as a step relation between goroutines, and
--               PipeListener/Prefix the connection with bytes put back in front.
--   Mux         sbc/main.go: handleTCPConn, which tells WebSocket upgrades from plain HTTP, and the writer
--               of raw responses with the health answer.
--   Common, Go, Clock and Sip are shared: Boolean tests, lists, texts and maps; the functions of Go's
--   strings, strconv and net that the code calls; times; the messages of the package sip. Fixtures and
--   the modules named Tests hold concrete runs.
--
-- How they interact: the proxy asks the caches of Api for passwords and trunks, Auth for the digest and
-- the registrar, the dispatcher and the trunk networks for whether a source may be banned; a request
-- passes Wrap before it reaches a handler. A handler is a function of the proxy, the time, and what the
-- web server would answer; it returns the new proxy and the effects in order.
--
-- Conventions. Text is a list of character codes, and the comparisons of Go's strings are by code. A
-- time is a number of nanoseconds since the zero time of Go; a duration that the code computes in an
-- int64 keeps its wrap-around (Clock). A map is an association list, and a range over a map whose order
-- matters takes the entry to begin with as an argument. A method that holds a lock for its whole body
-- is one step. A number of type int is an integer of any size except where it is printed, read or
-- multiplied. The decimal printer of Go/Strconv runs on fuel n + 1 for the number n, which has no
-- more digits than that, and the doubling of a ban runs on the number of earlier bans, as the loop does.
--
-- Taken as parameters: what sipgo computes (the record Sipgo: printing, parsing a URI, building a
-- response, removing a header; the result of DoDigestAuth), MD5, package net's addresses (the record
-- IpNet), name lookup, os.Getenv, the results of tls.LoadX509KeyPair and http.ReadRequest, and the answers
-- of the web server.
--
-- Not modelled: the opening of sockets and servers, the signals and the tickers of sbc/main.go, which are
-- calls of the operating system and of sipgo; logging, with the log filter of sbc/ip_ban.go; the Via that
-- sipgo adds when it sends; and the parts of the repository in other languages.
pub mod Common
pub mod Fixtures
pub mod Go
pub mod Clock
pub mod Config
pub mod Sip
pub mod Wrap
pub mod Contact
pub mod Forward
pub mod Registrar
pub mod IpBan
pub mod Dispatcher
pub mod Auth
pub mod Api
pub mod Proxy
pub mod CertReloader
pub mod PipeListener
pub mod Mux
