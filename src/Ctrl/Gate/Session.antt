-- ===== src/Ctrl/Gate/Session.antt =====
-- internal/agent/ctrlfilter/server.go: from a signed value to a session, and to the controller.
use poolpilot_relay.Prelude.{
  Bool, Option, [], ap, false, if◌then◌else◌, inl, not, refl, some, subst, sym, true, ◌∙◌, ◌≡◌,
}
use poolpilot_relay.Ctrl.Burn.{burn}
use poolpilot_relay.Ctrl.Gate.{
  GateReply, Server, WebRequest, authorized, find_cookie, forbidden, forwarded, handle,
  has_valid_session, lookup_target, pass_on, proxy, redeem, serve_session, session_path,
  session_started, strip_relay_credentials, turned_away, valid_cookie,
}
use poolpilot_relay.Ctrl.Gate.Stripped.{stripped}
use poolpilot_relay.Ctrl.Hosts.{guid_from_host}
use poolpilot_relay.Ctrl.Paths.{
  clean_path, clean_segment, clean_segments, is_allowed, is_canonical_path,
}
use poolpilot_relay.Ctrl.Paths.Canonical.{same_text_refl}
use poolpilot_relay.Ctrl.Session.{Codec, cookie_ttl, mint, token_ttl, verify_signed}
use poolpilot_relay.Ctrl.UserAgent.{get_header}
use poolpilot_relay.Go.Text.{Text, codes, is_empty, same_text, split_on}
use poolpilot_relay.Go.Time.{Time, add_time}
use poolpilot_relay.Update.Version.Order.{base}

-- A request to the bootstrap route of a known controller, with a value as its token.
pub record Bootstraps (srv : Server) (r : WebRequest) (value : Text) : Type 0 where
  pub is_known : is_empty (lookup_target (guid_from_host r.host) srv.targets) ≡ false
  pub is_default : r.raw_path ≡ []
  pub is_route : r.path ≡ session_path
  pub presents : r.token ≡ value

-- A request to a known controller, with a value as its session cookie.
pub record Browses (srv : Server) (r : WebRequest) (value : Text) : Type 0 where
  pub is_known : is_empty (lookup_target (guid_from_host r.host) srv.targets) ≡ false
  pub is_canonical : is_canonical_path r.raw_path r.path ≡ true
  pub no_bootstrap : same_text r.path session_path ≡ false
  pub has_cookie : find_cookie r.cookies ≡ some value
  pub same_site :
      same_text (get_header (codes "Sec-Fetch-Site") r.headers) (codes "cross-site") ≡ false

branch-bootstrap :
    (srv : Server) (unknown canonical bootstrap : Bool) (a b : GateReply)
    (session rest : Server × GateReply)
    → unknown ≡ false
    → canonical ≡ true
    → bootstrap ≡ true
    → (if unknown
        then (srv, a)
        else if not canonical
        then (srv, b)
        else if bootstrap
        then session
        else rest)
      ≡ session
branch-bootstrap srv unknown canonical bootstrap a b session rest x y z = rw (x, y, z) refl

branch-onward :
    (srv : Server) (unknown canonical bootstrap paired_app : Bool) (a b d e : GateReply)
    (session : Server × GateReply)
    → unknown ≡ false
    → canonical ≡ true
    → bootstrap ≡ false
    → paired_app ≡ true
    → (if unknown
        then (srv, a)
        else if not canonical
        then (srv, b)
        else if bootstrap
        then session
        else if not paired_app
        then (srv, d)
        else (srv, e))
      ≡ (srv, e)
branch-onward srv unknown canonical bootstrap paired_app a b d e session x y z w =
    rw (x, y, z, w) refl

session_path_passes : is_canonical_path [] session_path ≡ true
unfolding is_canonical_path clean_path clean_segments clean_segment split_on same_text is_allowed
session_path_passes = refl

session_path_canonical :
    (raw p : Text) → raw ≡ [] → p ≡ session_path → is_canonical_path raw p ≡ true
session_path_canonical raw p x y =
    subst (λ q. is_canonical_path q p ≡ true) (sym x)
      (subst (λ q. is_canonical_path [] q ≡ true) (sym y) session_path_passes)

redeem-fresh :
    (c : Codec) (srv : Server) (guid nonce value : Text) (now : Time)
    (random presented : Option Text)
    → presented ≡ some nonce
    → (burn nonce (add_time now token_ttl) now srv.burned).1 ≡ true
    → mint c srv.key guid now cookie_ttl random ≡ inl value
    → (redeem c srv guid now random presented).1 ≡ session_started value
unfolding redeem
redeem-fresh c srv guid nonce value now random presented v f m = rw (v, f, m) refl

-- A good value whose nonce is fresh starts a session, with a cookie.
pub bootstrap_starts :
    (c : Codec) (parses : Text → Bool) (agent : Text) (srv : Server) (r : WebRequest) (now : Time)
    (random : Option Text) (token nonce value : Text)
    → Bootstraps srv r token
    → is_empty srv.key ≡ false
    → verify_signed c srv.key token (guid_from_host r.host) now ≡ some nonce
    → (burn nonce (add_time now token_ttl) now srv.burned).1 ≡ true
    → mint c srv.key (guid_from_host r.host) now cookie_ttl random ≡ inl value
    → (handle c parses agent srv r now random).1 ≡ session_started value
unfolding handle serve_session
bootstrap_starts c parses agent srv r now random token nonce value b k v f m =
    let guid : Text = guid_from_host r.host in
    let target : Text = lookup_target guid srv.targets in
    let presented : Option Text = verify_signed c srv.key r.token guid now in
    let same : (presented ≡ some nonce) =
      subst (λ w. verify_signed c srv.key w guid now ≡ some nonce) (sym b.presents) v in
    ap (λ p. p.1)
      (branch-bootstrap srv (is_empty target) (is_canonical_path r.raw_path r.path)
        (same_text r.path session_path) (turned_away 404 (codes "unknown controller"))
        (turned_away 400 (codes "bad request: non-canonical path"))
        (if is_empty srv.key then (srv, forbidden) else redeem c srv guid now random presented)
        (if not (authorized c srv r guid now)
          then (srv, forbidden)
          else (srv, pass_on parses agent target r))
        b.is_known (session_path_canonical r.raw_path r.path b.is_default b.is_route)
        (same_text_refl r.path session_path b.is_route))
    ∙ ap (λ e. (if e then (srv, forbidden) else redeem c srv guid now random presented).1) k
    ∙ redeem-fresh c srv guid nonce value now random presented same f m

cookie_authorized :
    (c : Codec) (srv : Server) (r : WebRequest) (guid value nonce : Text) (now : Time)
    → is_empty srv.key ≡ false
    → find_cookie r.cookies ≡ some value
    → verify_signed c srv.key value guid now ≡ some nonce
    → authorized c srv r guid now ≡ true
unfolding authorized has_valid_session valid_cookie
cookie_authorized c srv r guid value nonce now k f v = rw (k, f, v) refl

pass_on-stripped :
    (parses : Text → Bool) (agent base : Text) (r : WebRequest)
    → is_canonical_path r.raw_path r.path ≡ true
    → same_text (get_header (codes "Sec-Fetch-Site") r.headers) (codes "cross-site") ≡ false
    → parses base ≡ true
    → pass_on parses agent base r ≡ forwarded base (stripped agent r)
unfolding pass_on proxy strip_relay_credentials
pass_on-stripped parses agent base r k s p = rw (s, p, k) refl

-- With a cookie that verifies, the request reaches the controller.
pub cookie_passes :
    (c : Codec) (parses : Text → Bool) (agent : Text) (srv : Server) (r : WebRequest) (now : Time)
    (random : Option Text) (value nonce : Text)
    → Browses srv r value
    → is_empty srv.key ≡ false
    → verify_signed c srv.key value (guid_from_host r.host) now ≡ some nonce
    → parses (lookup_target (guid_from_host r.host) srv.targets) ≡ true
    → (handle c parses agent srv r now random).1
      ≡ forwarded (lookup_target (guid_from_host r.host) srv.targets) (stripped agent r)
unfolding handle
cookie_passes c parses agent srv r now random value nonce b k v p =
    let guid : Text = guid_from_host r.host in
    let base : Text = lookup_target guid srv.targets in
    ap (λ out. out.1)
      (branch-onward srv (is_empty base) (is_canonical_path r.raw_path r.path)
        (same_text r.path session_path) (authorized c srv r guid now)
        (turned_away 404 (codes "unknown controller"))
        (turned_away 400 (codes "bad request: non-canonical path")) forbidden
        (pass_on parses agent base r) (serve_session c srv r guid now random) b.is_known
        b.is_canonical b.no_bootstrap
        (cookie_authorized c srv r guid value nonce now k b.has_cookie v))
    ∙ pass_on-stripped parses agent base r b.is_canonical b.same_site p
