-- ===== src/Ctrl/Gate/Redeemed.antt =====
-- internal/agent/ctrlfilter/server.go: the requests that a gate serves one after another, with what
-- the agent installs in between.
use poolpilot_relay.Prelude.{
  Bool, List, Option, arith, false, if◌then◌else◌, none, not, some, true, ◌<◌, ◌≡◌, ◌≤◌,
}
use poolpilot_relay.Ctrl.Burn.Once.{burn-holds, holds_beyond}
use poolpilot_relay.Ctrl.Gate.{
  GateReply, Server, WebRequest, authorized, forbidden, handle, lookup_target, pass_on, redeem,
  serve_session, session_path, turned_away,
}
use poolpilot_relay.Ctrl.Hosts.{guid_from_host}
use poolpilot_relay.Ctrl.Paths.{is_canonical_path}
use poolpilot_relay.Ctrl.Session.{Codec, token_ttl, verify_signed}
use poolpilot_relay.Go.Text.{Text, codes, is_empty, same_text}
use poolpilot_relay.Go.Time.{Time, add_time}

abbrev pub served : Codec → (Text → Bool) → Text → Server → WebRequest → Time → Option Text → Server
served c parses agent srv r now random = (handle c parses agent srv r now random).0

-- From a gate and an instant to a later one.
pub data Serving (c : Codec) (parses : Text → Bool) (agent : Text) (s : Server) (start : Time)
    : Server → Time → Type 0 where
  begun : Serving c parses agent s start s start
  serves :
      {s' : Server} {last : Time} (r : WebRequest) (now : Time) (random : Option Text)
      → Serving c parses agent s start s' last
      → last ≤ now
      → Serving c parses agent s start (served c parses agent s' r now random) now
  set_targets :
      {s' : Server} {last : Time} (targets : List (Text × Text))
      → Serving c parses agent s start s' last
      → Serving c parses agent s start (record s' { targets = targets }) last
  set_session_key :
      {s' : Server} {last : Time} (key : Text)
      → Serving c parses agent s start s' last
      → Serving c parses agent s start (record s' { key = key }) last
  set_bearer_authorizer :
      {s' : Server} {last : Time} (fn : Option (Text → Bool))
      → Serving c parses agent s start s' last
      → Serving c parses agent s start (record s' { authorize_bearer = fn }) last

redeem-holds :
    (c : Codec) (srv : Server) (guid : Text) (now : Time) (random presented : Option Text)
    (nonce : Text) (until : Time)
    → now < until
    → holds_beyond nonce until srv.burned ≡ true
    → holds_beyond nonce until (redeem c srv guid now random presented).0.burned ≡ true
unfolding redeem
redeem-holds c srv guid now random none nonce until l h = h
redeem-holds c srv guid now random (some other) nonce until l h =
    burn-holds nonce other until (add_time now token_ttl) now srv.burned l h

branch-burned :
    (srv : Server) (unknown canonical bootstrap keyless paired_app : Bool) (a b d e : GateReply)
    (session : Server × GateReply) (nonce : Text) (until : Time)
    → holds_beyond nonce until srv.burned ≡ true
    → holds_beyond nonce until session.0.burned ≡ true
    → holds_beyond nonce until
        (if unknown
          then (srv, a)
          else if not canonical
          then (srv, b)
          else if bootstrap
          then (if keyless then (srv, forbidden) else session)
          else if not paired_app
          then (srv, d)
          else (srv, e)).0.burned
      ≡ true
branch-burned srv true canonical bootstrap keyless paired_app a b d e session nonce until h k = h
branch-burned srv false false bootstrap keyless paired_app a b d e session nonce until h k = h
branch-burned srv false true true true paired_app a b d e session nonce until h k = h
branch-burned srv false true true false paired_app a b d e session nonce until h k = k
branch-burned srv false true false keyless false a b d e session nonce until h k = h
branch-burned srv false true false keyless true a b d e session nonce until h k = h

served-holds :
    (c : Codec) (parses : Text → Bool) (agent : Text) (srv : Server) (r : WebRequest) (now : Time)
    (random : Option Text) (nonce : Text) (until : Time)
    → now < until
    → holds_beyond nonce until srv.burned ≡ true
    → holds_beyond nonce until (served c parses agent srv r now random).burned ≡ true
unfolding handle serve_session
served-holds c parses agent srv r now random nonce until l h =
    let guid : Text = guid_from_host r.host in
    let presented : Option Text = verify_signed c srv.key r.token guid now in
    branch-burned srv (is_empty (lookup_target guid srv.targets))
      (is_canonical_path r.raw_path r.path) (same_text r.path session_path) (is_empty srv.key)
      (authorized c srv r guid now) (turned_away 404 (codes "unknown controller"))
      (turned_away 400 (codes "bad request: non-canonical path")) forbidden
      (pass_on parses agent (lookup_target guid srv.targets) r)
      (redeem c srv guid now random presented) nonce until h
      (redeem-holds c srv guid now random presented nonce until l h)

pub Serving-holds :
    {c : Codec} {parses : Text → Bool} {agent : Text} {s : Server} {start : Time} {s' : Server}
    {last : Time} (nonce : Text) (until : Time)
    → Serving c parses agent s start s' last
    → last < until
    → holds_beyond nonce until s.burned ≡ true
    → holds_beyond nonce until s'.burned ≡ true
Serving-holds nonce until begun l h = h
Serving-holds {c = c} {parses = parses} {agent = agent} nonce until
      (serves {s' = s'} {last = last} r now random earlier le) l h =
    served-holds c parses agent s' r now random nonce until l
      (Serving-holds nonce until earlier (ground (arith, le, l)) h)
Serving-holds nonce until (set_targets targets earlier) l h = Serving-holds nonce until earlier l h
Serving-holds nonce until (set_session_key key earlier) l h = Serving-holds nonce until earlier l h
Serving-holds nonce until (set_bearer_authorizer fn earlier) l h =
    Serving-holds nonce until earlier l h

pub Serving-le :
    {c : Codec} {parses : Text → Bool} {agent : Text} {s : Server} {start : Time} {s' : Server}
    {last : Time}
    → Serving c parses agent s start s' last
    → start ≤ last
Serving-le begun = ground arith
Serving-le (serves r now random earlier le) = ground (arith, le, Serving-le earlier)
Serving-le (set_targets targets earlier) = Serving-le earlier
Serving-le (set_session_key key earlier) = Serving-le earlier
Serving-le (set_bearer_authorizer fn earlier) = Serving-le earlier
