-- ===== src/Ctrl/Gate.antt =====
-- internal/agent/ctrlfilter/server.go: the gate. A request is what the code reads of it: its Cookie
-- header is the list that `r.Cookies()` parses it to, the other headers have their canonical names,
-- and `token` is the query's `t`. `parses` is whether url.Parse takes a base URL.
pub mod Stripped
pub mod Passed
pub mod Started
pub mod Redeemed
pub mod Once
pub mod Session
pub mod Opened
use poolpilot_relay.Prelude.{
  Bool, List, Option, [], false, filter, if◌then◌else◌, inl, inr, is_some, none, not, some, ℕ, ◌&&◌,
  ◌||◌, ◌∷◌, ◌⊎◌,
}
use poolpilot_relay.Alert.Engine.{fresh}
use poolpilot_relay.Ctrl.Burn.{BurnList, burn}
use poolpilot_relay.Ctrl.Hosts.{guid_from_host}
use poolpilot_relay.Ctrl.Paths.{is_canonical_path}
use poolpilot_relay.Ctrl.Session.{
  Codec, MintError, cookie_name, cookie_ttl, mint, token_ttl, verify_signed,
}
use poolpilot_relay.Ctrl.UserAgent.{Headers, del_header, get_header, set_default_agent}
use poolpilot_relay.Go.Text.{Text, codes, cut_prefix, is_empty, same_text}
use poolpilot_relay.Go.Time.{Time, add_time}
use poolpilot_relay.Update.Version.Order.{base}

abbrev pub bearer_header : Text
bearer_header = codes "X-Poolpilot-Bearer"

abbrev pub session_path : Text
session_path = codes "/__session"

abbrev pub forbidden_body : Text
forbidden_body = codes "forbidden"

pub record WebRequest : Type 0 where
  pub host : Text
  pub raw_path : Text
  pub path : Text
  pub token : Text
  pub headers : Headers
  pub cookies : List (Text × Text)

-- A target is its base URL.
pub record Server : Type 0 where
  pub targets : List (Text × Text)
  pub key : Text
  pub burned : BurnList
  pub authorize_bearer : Option (Text → Bool)

-- What the gate answers: an error, the redirect that sets the session cookie, or what the
-- controller at the base URL answers to the request.
pub data GateReply : Type 0 where
  turned_away : ℕ → Text → GateReply
  session_started : Text → GateReply
  forwarded : Text → WebRequest → GateReply

-- `Lookup`, with the empty text for no target.
unfoldable pub lookup_target : Text → List (Text × Text) → Text
lookup_target guid [] = []
lookup_target guid ((g, base) ∷ more) =
    let rest = lookup_target guid more in if same_text g guid then base else rest

-- `r.Cookie(name)`.
unfoldable pub find_cookie : List (Text × Text) → Option Text
find_cookie [] = none
find_cookie ((n, v) ∷ more) =
    let rest = find_cookie more in if same_text n cookie_name then some v else rest

-- `stripRelayCredentials`.
unfoldable pub strip_relay_credentials : WebRequest → WebRequest
strip_relay_credentials r = record r {
  headers = del_header bearer_header r.headers;
  cookies = filter (λ k. not (same_text k.0 cookie_name)) r.cookies;
}

-- The headers that `New`'s Rewrite deletes.
unfoldable pub is_forwarding : Text → Bool
is_forwarding name =
    is_some (cut_prefix (codes "X-Forwarded-") name)
    || same_text name (codes "X-Real-Ip")
    || same_text name (codes "Forwarded")
    || same_text name (codes "Via")

unfoldable pub rewrite_headers : Text → Headers → Headers
rewrite_headers agent headers =
    set_default_agent agent (filter (λ h. not (is_forwarding h.0)) headers)

-- The handler that `New` returns, for the controller at `base`.
unfoldable pub proxy : Text → Text → WebRequest → GateReply
unfolding rewrite_headers
proxy agent base r =
    if is_canonical_path r.raw_path r.path
    then forwarded base (record r { headers = rewrite_headers agent r.headers })
    else turned_away 400 (codes "bad request: non-canonical path")

unfoldable pub valid_cookie : Codec → Text → Text → Time → Option Text → Bool
valid_cookie c key guid now none = false
valid_cookie c key guid now (some value) = is_some (verify_signed c key value guid now)

unfoldable pub has_valid_session : Codec → Text → WebRequest → Text → Time → Bool
unfolding valid_cookie
has_valid_session c key r guid now =
    if is_empty key then false else valid_cookie c key guid now (find_cookie r.cookies)

unfoldable pub bearer_authorized : Option (Text → Bool) → Text → Bool
bearer_authorized none token = false
bearer_authorized (some fn) token = not (is_empty token) && fn token

unfoldable pub authorized : Codec → Server → WebRequest → Text → Time → Bool
unfolding has_valid_session bearer_authorized
authorized c srv r guid now =
    has_valid_session c srv.key r guid now
    || bearer_authorized srv.authorize_bearer (get_header bearer_header r.headers)

abbrev pub forbidden : GateReply
forbidden = turned_away 403 forbidden_body

-- The end of `serveSession`, for a cookie that was minted or not.
abbrev pub cookie_reply : Text ⊎ MintError → GateReply
cookie_reply (inl value) = session_started value
cookie_reply (inr e) = forbidden

-- Its middle, by the nonce of the token.
unfoldable pub redeem :
    Codec → Server → Text → Time → Option Text → Option Text → Server × GateReply
redeem c srv guid now random none = (srv, forbidden)
redeem c srv guid now random (some nonce) =
    let (burned, fresh) = burn nonce (add_time now token_ttl) now srv.burned in
    (
      record srv { burned = burned },
      if fresh then cookie_reply (mint c srv.key guid now cookie_ttl random) else forbidden,
    )

unfoldable pub serve_session :
    Codec → Server → WebRequest → Text → Time → Option Text → Server × GateReply
unfolding redeem
serve_session c srv r guid now random =
    if is_empty srv.key
    then (srv, forbidden)
    else redeem c srv guid now random (verify_signed c srv.key r.token guid now)

-- The end of `Handler`, for an authorized request.
unfoldable pub pass_on : (Text → Bool) → Text → Text → WebRequest → GateReply
unfolding proxy strip_relay_credentials
pass_on parses agent base r =
    if same_text (get_header (codes "Sec-Fetch-Site") r.headers) (codes "cross-site")
    then forbidden
    else if not (parses base)
    then turned_away 500 (codes "bad controller target")
    else proxy agent base (strip_relay_credentials r)

-- `Handler`: `random` is what crypto/rand yields, if the request comes to mint.
unfoldable pub handle :
    Codec → (Text → Bool) → Text → Server → WebRequest → Time → Option Text → Server × GateReply
unfolding guid_from_host authorized serve_session pass_on lookup_target
handle c parses agent srv r now random =
    let guid = guid_from_host r.host in
    let base = lookup_target guid srv.targets in
    if is_empty base
    then (srv, turned_away 404 (codes "unknown controller"))
    else if not (is_canonical_path r.raw_path r.path)
    then (srv, turned_away 400 (codes "bad request: non-canonical path"))
    else if same_text r.path session_path
    then serve_session c srv r guid now random
    else if not (authorized c srv r guid now)
    then (srv, forbidden)
    else (srv, pass_on parses agent base r)
