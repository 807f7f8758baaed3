-- ===== src/Ctrl/Gate/Started.antt =====
-- internal/agent/ctrlfilter/server.go: how a session starts.
use poolpilot_relay.Prelude.{
  Bool, Option, arith, false, if◌then◌else◌, inl, inr, none, not, refl, some, true, ◌≡◌, ◌≢◌, ◌⊎◌,
}
use poolpilot_relay.Alert.Engine.{fresh}
use poolpilot_relay.Ctrl.Burn.{burn}
use poolpilot_relay.Ctrl.Gate.{
  GateReply, Server, WebRequest, authorized, cookie_reply, forbidden, forwarded, handle,
  lookup_target, pass_on, proxy, redeem, rewrite_headers, serve_session, session_path,
  session_started, strip_relay_credentials, turned_away,
}
use poolpilot_relay.Ctrl.Hosts.{guid_from_host}
use poolpilot_relay.Ctrl.Paths.{is_canonical_path}
use poolpilot_relay.Ctrl.Session.{Codec, MintError, cookie_ttl, mint, token_ttl, verify_signed}
use poolpilot_relay.Go.Text.{Text, codes, is_empty, same_text}
use poolpilot_relay.Go.Time.{Time, add_time, after}
use poolpilot_relay.Update.Version.Order.{base}

-- A session that the request starts: its token is good, its nonce fresh, and the cookie minted.
pub record Starts (c : Codec) (srv : Server) (r : WebRequest) (now : Time) (random : Option Text)
    (value : Text) : Type 0 where
  pub nonce : Text
  pub is_good : verify_signed c srv.key r.token (guid_from_host r.host) now ≡ some nonce
  pub is_fresh : (burn nonce (add_time now token_ttl) now srv.burned).1 ≡ true
  pub is_minted : mint c srv.key (guid_from_host r.host) now cookie_ttl random ≡ inl value

abbrev pub StartsAt : Codec → Server → WebRequest → Time → Option Text → Text → Server → Type 0
StartsAt c srv r now random value after =
    (s : Starts c srv r now random value) × (after.burned
      ≡ (burn s.nonce (add_time now token_ttl) now srv.burned).0)

cookie_reply-started :
    (m : Text ⊎ MintError) (v : Text) → cookie_reply m ≡ session_started v → m ≡ inl v
cookie_reply-started (inl w) v h = ground (arith, h)
cookie_reply-started (inr e) v h = absurd (ground (arith, h))

branch-fresh :
    (fresh : Bool) (m : Text ⊎ MintError) (v : Text)
    → (if fresh then cookie_reply m else forbidden) ≡ session_started v
    → (fresh ≡ true) × (m ≡ inl v)
branch-fresh true m v h = (refl, cookie_reply-started m v h)
branch-fresh false m v h = absurd (ground (arith, h))

redeem-Starts :
    (c : Codec) (srv : Server) (r : WebRequest) (now : Time) (random presented : Option Text)
    (value : Text)
    → verify_signed c srv.key r.token (guid_from_host r.host) now ≡ presented
    → (redeem c srv (guid_from_host r.host) now random presented).1 ≡ session_started value
    → StartsAt c srv r now random value
        (redeem c srv (guid_from_host r.host) now random presented).0
unfolding redeem
redeem-Starts c srv r now random none value e h = absurd (ground (arith, h))
redeem-Starts c srv r now random (some nonce) value e h =
    let (fresh, minted) =
      branch-fresh (burn nonce (add_time now token_ttl) now srv.burned).1
        (mint c srv.key (guid_from_host r.host) now cookie_ttl random) value h in
    (record { nonce = nonce; is_good = e; is_fresh = fresh; is_minted = minted }, refl)

branch-started :
    (P : Server → Type 0) (srv : Server) (unknown canonical bootstrap keyless paired_app : Bool)
    (a b e : GateReply) (session : Server × GateReply) (value : Text)
    → a ≢ session_started value
    → b ≢ session_started value
    → e ≢ session_started value
    → (session.1 ≡ session_started value → P session.0)
    → let out =
        if unknown
        then (srv, a)
        else if not canonical
        then (srv, b)
        else if bootstrap
        then (if keyless then (srv, forbidden) else session)
        else if not paired_app
        then (srv, forbidden)
        else (srv, e) in
      out.1 ≡ session_started value → P out.0
branch-started P srv true canonical bootstrap keyless paired_app a b e session v x y z k h =
    absurd (x h)
branch-started P srv false false bootstrap keyless paired_app a b e session v x y z k h =
    absurd (y h)
branch-started P srv false true true true paired_app a b e session v x y z k h =
    absurd (ground (arith, h))
branch-started P srv false true true false paired_app a b e session v x y z k h = k h
branch-started P srv false true false keyless false a b e session v x y z k h =
    absurd (ground (arith, h))
branch-started P srv false true false keyless true a b e session v x y z k h = absurd (z h)

branch-proxy :
    (canonical : Bool) (a b : GateReply) (v : Text)
    → a ≢ session_started v
    → b ≢ session_started v
    → (if canonical then a else b) ≢ session_started v
branch-proxy true a b v x y = x
branch-proxy false a b v x y = y

proxy-started :
    (agent base : Text) (r : WebRequest) (v : Text) → proxy agent base r ≢ session_started v
unfolding proxy
proxy-started agent base r v =
    branch-proxy (is_canonical_path r.raw_path r.path)
      (forwarded base (record r { headers = rewrite_headers agent r.headers }))
      (turned_away 400 (codes "bad request: non-canonical path")) v (λ e. ground (arith, e))
      (λ e. ground (arith, e))

pass_on-started :
    (parses : Text → Bool) (agent base : Text) (r : WebRequest) (v : Text)
    → pass_on parses agent base r ≢ session_started v
unfolding pass_on
pass_on-started parses agent base r v e =
    ground (arith, e, proxy-started agent base (strip_relay_credentials r) v)

-- A session starts only for a good token whose nonce is fresh, and the nonce is burned with it.
pub handle-Starts :
    (c : Codec) (parses : Text → Bool) (agent : Text) (srv : Server) (r : WebRequest) (now : Time)
    (random : Option Text) (value : Text)
    → (handle c parses agent srv r now random).1 ≡ session_started value
    → StartsAt c srv r now random value (handle c parses agent srv r now random).0
unfolding handle serve_session
handle-Starts c parses agent srv r now random value h =
    let guid : Text = guid_from_host r.host in
    let presented : Option Text = verify_signed c srv.key r.token guid now in
    let target : Text = lookup_target guid srv.targets in
    branch-started (StartsAt c srv r now random value) srv (is_empty target)
      (is_canonical_path r.raw_path r.path) (same_text r.path session_path) (is_empty srv.key)
      (authorized c srv r guid now) (turned_away 404 (codes "unknown controller"))
      (turned_away 400 (codes "bad request: non-canonical path")) (pass_on parses agent target r)
      (redeem c srv guid now random presented) value (λ e. ground (arith, e))
      (λ e. ground (arith, e)) (pass_on-started parses agent target r value)
      (redeem-Starts c srv r now random presented value refl) h
