-- ===== src/Ctrl/UserAgent.antt =====
-- internal/useragent/useragent.go: the User-Agent of outgoing requests, on header lists of names in
-- their canonical form and values.
pub mod Kept
use poolpilot_relay.Prelude.{
  Bool, List, [], all, any, eqb, filter, if◌then◌else◌, is_some, leb, not, ℕ, ◌&&◌, ◌++◌, ◌||◌, ◌∷◌,
}
use poolpilot_relay.Go.Text.{Text, codes, cut_prefix, is_empty, same_text, trim_space}

abbrev pub Headers : Type 0
Headers = List (Text × Text)

-- `h.Get(name)`: the first value, or the empty text.
unfoldable pub get_header : Text → Headers → Text
get_header name [] = []
get_header name ((n, v) ∷ more) =
    let rest = get_header name more in if same_text n name then v else rest

-- `h.Del(name)`, and `h.Set(name, value)`.
unfoldable pub del_header : Text → Headers → Headers
del_header name headers = filter (λ h. not (same_text h.0 name)) headers

unfoldable pub set_header : Text → Text → Headers → Headers
unfolding del_header
set_header name value headers = (name, value) ∷ del_header name headers

abbrev pub dev_version : Text
dev_version = codes "dev"

abbrev pub user_agent : Text
user_agent = codes "User-Agent"

-- A character of an RFC 9110 token.
unfoldable pub token_mark : ℕ → Bool
token_mark c = any (eqb c) (codes "!#$%&'*+-.^_`|~")

unfoldable pub token_char : ℕ → Bool
token_char c =
    (leb b'0' c && leb c b'9')
    || (leb b'a' c && leb c b'z')
    || (leb b'A' c && leb c b'Z')
    || token_mark c

unfoldable pub is_token : Text → Bool
is_token s = not (is_empty s) && all token_char s

abbrev pub trim_v_prefix : Text → Text
trim_v_prefix [] = []
trim_v_prefix (c ∷ s) = if eqb c b'v' then s else c ∷ s

-- `SetVersion`, by the text that `String` returns afterwards.
unfoldable pub agent_text : Text → Text
agent_text version =
    let v = trim_v_prefix (trim_space version) in
    codes "PoolPilot-Relay"
    ++ codes "/"
    ++ (if is_token v then v else dev_version)
    ++ codes " (+"
    ++ codes "https://poolpilot.eu"
    ++ codes ")"

-- `Set`, and `SetDefault`.
unfoldable pub set_agent : Text → Headers → Headers
unfolding set_header
set_agent agent headers = set_header user_agent agent headers

unfoldable pub set_default_agent : Text → Headers → Headers
unfolding set_agent
set_default_agent agent headers =
    let ua = trim_space (get_header user_agent headers) in
    if is_empty ua || is_some (cut_prefix (codes "Go-http-client/") ua)
    then set_agent agent headers
    else headers
