-- ===== src/Ctrl/Gate/Stripped.antt =====
-- internal/agent/ctrlfilter/server.go: what the gate takes from a request before it passes it on.
use poolpilot_relay.Prelude.{List, [], arith, false, filter, none, not, refl, true, ◌∙◌, ◌∷◌, ◌≡◌}
use poolpilot_relay.Ctrl.Gate.{
  WebRequest, bearer_header, find_cookie, is_forwarding, rewrite_headers, strip_relay_credentials,
}
use poolpilot_relay.Ctrl.Session.{cookie_name}
use poolpilot_relay.Ctrl.UserAgent.{Headers, del_header, get_header, user_agent}
use poolpilot_relay.Ctrl.UserAgent.Kept.{
  Without, filter-Without, get_header-dropped, get_header-kept, set_default_agent-Without,
  set_default_agent-other,
}
use poolpilot_relay.Go.Text.{Text, codes, cut_prefix, same_text}

-- A request that carries no credential of the relay and no trace of a proxy, but the rest of what
-- came: the path, the other cookies, and the controller's own Authorization.
pub record Discreet (r out : WebRequest) : Type 0 where
  pub same_path : out.path ≡ r.path
  pub no_bearer : get_header bearer_header out.headers ≡ []
  pub no_session : find_cookie out.cookies ≡ none
  pub untraced : Without is_forwarding out.headers
  pub other_cookies : out.cookies ≡ filter (λ k. not (same_text k.0 cookie_name)) r.cookies
  pub own_login :
      get_header (codes "Authorization") out.headers ≡ get_header (codes "Authorization") r.headers

find_cookie-filter :
    (cookies : List (Text × Text))
    → find_cookie (filter (λ k. not (same_text k.0 cookie_name)) cookies) ≡ none
unfolding find_cookie
find_cookie-filter [] = refl
find_cookie-filter ((n, v) ∷ more) = ground (arith, find_cookie-filter more)

-- What the gate makes of the request.
abbrev pub stripped : Text → WebRequest → WebRequest
stripped agent r = record (strip_relay_credentials r) {
  headers = rewrite_headers agent (strip_relay_credentials r).headers;
}

stripped-own_login :
    (agent : Text) (r : WebRequest) (name : Text)
    → same_text user_agent name ≡ false
    → same_text name user_agent ≡ false
    → not (is_forwarding name) ≡ true
    → get_header name (stripped agent r).headers
      ≡ get_header name (strip_relay_credentials r).headers
unfolding rewrite_headers
stripped-own_login agent r name h k f =
    set_default_agent-other agent name
      (filter (λ e. not (is_forwarding e.0)) (strip_relay_credentials r).headers) h k
    ∙ get_header-kept (λ n. not (is_forwarding n)) name (strip_relay_credentials r).headers f

stripped-untraced : (agent : Text) (hs : Headers) → Without is_forwarding (rewrite_headers agent hs)
unfolding rewrite_headers is_forwarding cut_prefix same_text
stripped-untraced agent hs =
    set_default_agent-Without is_forwarding agent (filter (λ e. not (is_forwarding e.0)) hs) refl
      (filter-Without is_forwarding hs)

pub stripped-Discreet : (agent : Text) (r : WebRequest) → Discreet r (stripped agent r)
unfolding strip_relay_credentials del_header is_forwarding cut_prefix same_text
stripped-Discreet agent r = record {
  same_path = refl;
  no_bearer =
      stripped-own_login agent r bearer_header refl refl refl
      ∙ get_header-dropped (λ n. not (same_text n bearer_header)) bearer_header r.headers refl;
  no_session = find_cookie-filter r.cookies;
  untraced = stripped-untraced agent (strip_relay_credentials r).headers;
  other_cookies = refl;
  own_login =
      stripped-own_login agent r (codes "Authorization") refl refl refl
      ∙ get_header-kept (λ n. not (same_text n bearer_header)) (codes "Authorization") r.headers
          refl;
}
