-- ===== src/Ctrl/Gate/Passed.antt =====
-- internal/agent/ctrlfilter/server.go: what reaches a controller.
use poolpilot_relay.Prelude.{
  Bool, Option, arith, false, if◌then◌else◌, inl, inr, none, not, refl, some, subst, true, ◌≡◌, ◌≢◌,
  ◌⊎◌,
}
use poolpilot_relay.Ctrl.Gate.{
  GateReply, Server, WebRequest, authorized, cookie_reply, forbidden, forwarded, handle,
  lookup_target, pass_on, proxy, redeem, rewrite_headers, serve_session, session_path,
  strip_relay_credentials, turned_away,
}
use poolpilot_relay.Ctrl.Gate.Stripped.{Discreet, stripped-Discreet}
use poolpilot_relay.Ctrl.Hosts.{guid_from_host}
use poolpilot_relay.Ctrl.Paths.{is_canonical_path}
use poolpilot_relay.Ctrl.Session.{Codec, MintError, cookie_ttl, mint, verify_signed}
use poolpilot_relay.Ctrl.UserAgent.{get_header}
use poolpilot_relay.Go.Text.{Text, codes, is_empty, same_text}
use poolpilot_relay.Go.Time.{Time}
use poolpilot_relay.Update.Version.Order.{base}

-- A request that came through the gate at an instant.
pub record Admitted (c : Codec) (srv : Server) (r : WebRequest) (now : Time) (base : Text)
    : Type 0 where
  pub is_target : lookup_target (guid_from_host r.host) srv.targets ≡ base
  pub is_known : is_empty base ≡ false
  pub is_canonical : is_canonical_path r.raw_path r.path ≡ true
  pub no_bootstrap : same_text r.path session_path ≡ false
  pub is_authorized : authorized c srv r (guid_from_host r.host) now ≡ true
  pub same_site :
      same_text (get_header (codes "Sec-Fetch-Site") r.headers) (codes "cross-site") ≡ false

proxy-forwarded :
    (agent base base' : Text) (r out : WebRequest)
    → proxy agent base r ≡ forwarded base' out
    → (base ≡ base') × (record r { headers = rewrite_headers agent r.headers } ≡ out)
unfolding proxy
proxy-forwarded agent base base' r out h = (ground (arith, h), ground (arith, h))

pass_on-forwarded :
    (parses : Text → Bool) (agent base base' : Text) (r out : WebRequest)
    → pass_on parses agent base r ≡ forwarded base' out
    → (same_text (get_header (codes "Sec-Fetch-Site") r.headers) (codes "cross-site") ≡ false)
      × (proxy agent base (strip_relay_credentials r) ≡ forwarded base' out)
unfolding pass_on
pass_on-forwarded parses agent base base' r out h = (ground (arith, h), ground (arith, h))

cookie_reply-answers :
    (m : Text ⊎ MintError) (base : Text) (out : WebRequest) → cookie_reply m ≢ forwarded base out
cookie_reply-answers (inl v) base out e = ground (arith, e)
cookie_reply-answers (inr v) base out e = ground (arith, e)

redeem-answers :
    (c : Codec) (srv : Server) (guid : Text) (now : Time) (random nonce : Option Text) (base : Text)
    (out : WebRequest)
    → (redeem c srv guid now random nonce).1 ≢ forwarded base out
unfolding redeem
redeem-answers c srv guid now random none base out e = ground (arith, e)
redeem-answers c srv guid now random (some n) base out e =
    ground (arith, e, cookie_reply-answers (mint c srv.key guid now cookie_ttl random) base out)

serve_session-answers :
    (c : Codec) (srv : Server) (r : WebRequest) (guid : Text) (now : Time) (random : Option Text)
    (base : Text) (out : WebRequest)
    → (serve_session c srv r guid now random).1 ≢ forwarded base out
unfolding serve_session
serve_session-answers c srv r guid now random base out e = ground (
  arith,
  e,
  redeem-answers c srv guid now random (verify_signed c srv.key r.token guid now) base out,
)

branch-handle :
    (srv : Server) (unknown canonical bootstrap paired_app : Bool) (a b : GateReply)
    (session : Server × GateReply) (onward : GateReply) (base : Text) (out : WebRequest)
    → a ≢ forwarded base out
    → b ≢ forwarded base out
    → session.1 ≢ forwarded base out
    → (if unknown
        then (srv, a)
        else if not canonical
        then (srv, b)
        else if bootstrap
        then session
        else if not paired_app
        then (srv, forbidden)
        else (srv, onward)).1
      ≡ forwarded base out
    → (unknown ≡ false)
      × (canonical ≡ true)
      × (bootstrap ≡ false)
      × (paired_app ≡ true)
      × (onward ≡ forwarded base out)
branch-handle srv true canonical bootstrap paired_app a b session onward base out x y z h =
    absurd (x h)
branch-handle srv false false bootstrap paired_app a b session onward base out x y z h =
    absurd (y h)
branch-handle srv false true true paired_app a b session onward base out x y z h = absurd (z h)
branch-handle srv false true false false a b session onward base out x y z h =
    absurd (ground (arith, h))
branch-handle srv false true false true a b session onward base out x y z h =
    (refl, refl, refl, refl, h)

handle-branches :
    (c : Codec) (parses : Text → Bool) (agent : Text) (srv : Server) (r : WebRequest) (now : Time)
    (random : Option Text) (base : Text) (out : WebRequest)
    → (handle c parses agent srv r now random).1 ≡ forwarded base out
    → let guid = guid_from_host r.host in
      let target = lookup_target guid srv.targets in
      (is_empty target ≡ false)
      × (is_canonical_path r.raw_path r.path ≡ true)
      × (same_text r.path session_path ≡ false)
      × (authorized c srv r guid now ≡ true)
      × (pass_on parses agent target r ≡ forwarded base out)
unfolding handle
handle-branches c parses agent srv r now random base out h =
    let guid : Text = guid_from_host r.host in
    let target : Text = lookup_target guid srv.targets in
    branch-handle srv (is_empty target) (is_canonical_path r.raw_path r.path)
      (same_text r.path session_path) (authorized c srv r guid now)
      (turned_away 404 (codes "unknown controller"))
      (turned_away 400 (codes "bad request: non-canonical path"))
      (serve_session c srv r guid now random) (pass_on parses agent target r) base out
      (λ e. ground (arith, e)) (λ e. ground (arith, e))
      (serve_session-answers c srv r guid now random base out) h

-- What reaches a controller passed every check: its host names a target, which is where it goes;
-- its path is canonical and not the bootstrap's; it proved that it comes from a paired app; and no
-- browser tagged it as cross-site. It carries no credential of the relay and no trace of a proxy,
-- and keeps its path, its other cookies and its own Authorization.
pub handle_forwards :
    (c : Codec) (parses : Text → Bool) (agent : Text) (srv : Server) (r : WebRequest) (now : Time)
    (random : Option Text) (base : Text) (out : WebRequest)
    → (handle c parses agent srv r now random).1 ≡ forwarded base out
    → Admitted c srv r now base × Discreet r out
handle_forwards c parses agent srv r now random base out h =
    let (known, canonical, other, paired_app, passed) =
      handle-branches c parses agent srv r now random base out h in
    let target : Text = lookup_target (guid_from_host r.host) srv.targets in
    let (same, proxied) = pass_on-forwarded parses agent target base r out passed in
    let (at, is_out) = proxy-forwarded agent target base (strip_relay_credentials r) out proxied in
    (
      record {
        is_target = at;
        is_known = subst (λ b. is_empty b ≡ false) at known;
        is_canonical = canonical;
        no_bootstrap = other;
        is_authorized = paired_app;
        same_site = same;
      },
      subst (Discreet r) is_out (stripped-Discreet agent r),
    )
