-- ===== src/Examples/Gating.antt =====
-- A gate in front of one controller, a token for it, and the session that it opens.
use poolpilot_relay.Prelude.{
  Bool, Option, [], all, ap, arith, false, if◌then◌else◌, inl, none, refl, some, true, ◌&&◌, ◌++◌,
  ◌+◌, ◌-◌, ◌<◌, ◌↔◌, ◌∷◌, ◌≡◌, ◌≢◌,
}
use poolpilot_relay.Ctrl.Burn.{burn, is_burned, prune}
use poolpilot_relay.Ctrl.Gate.{
  Server, WebRequest, find_cookie, forwarded, handle, lookup_target, session_path, session_started,
}
use poolpilot_relay.Ctrl.Gate.Once.{redeemed_once}
use poolpilot_relay.Ctrl.Gate.Opened.{session_opens}
use poolpilot_relay.Ctrl.Gate.Passed.{Admitted, handle_forwards}
use poolpilot_relay.Ctrl.Gate.Redeemed.{begun, served, set_session_key}
use poolpilot_relay.Ctrl.Gate.Session.{Bootstraps, Browses}
use poolpilot_relay.Ctrl.Gate.Stripped.{Discreet, stripped}
use poolpilot_relay.Ctrl.Hosts.{guid_from_host, split_host_port, trim_suffix}
use poolpilot_relay.Ctrl.Paths.{
  clean_path, clean_segment, clean_segments, is_allowed, is_canonical_path,
}
use poolpilot_relay.Ctrl.Paths.Canonical.{IsResolved, is_canonical_path_iff}
use poolpilot_relay.Ctrl.Session.{
  Codec, cookie_name, cookie_ttl, hex, mint, sealed, session_payload, token_ttl, verify_signed,
}
use poolpilot_relay.Ctrl.Session.RoundTrip.{InRange, mint_verifies, to_second}
use poolpilot_relay.Ctrl.Session.Verified.{Verified, verify_signed-Verified}
use poolpilot_relay.Ctrl.UserAgent.{agent_text, get_header}
use poolpilot_relay.Examples.Data.{hour}
use poolpilot_relay.Go.Int64.{IsInt64}
use poolpilot_relay.Go.Text.{Text, codes, is_empty, same_text, split_on}
use poolpilot_relay.Go.Text.Split.{lacks}
use poolpilot_relay.Go.Time.{Duration, Time, add_time, before, unix}
use poolpilot_relay.Prelude.Int.{negsuc, pos, ℤ}

-- A codec: bytes are moved behind the dot, a decimal is one character, the MAC is the key and the
-- message.
abbrev shift : Text → Text
shift [] = []
shift (b ∷ bs) = (b + 47) ∷ shift bs

abbrev unshift : Text → Text
unshift [] = []
unshift (b ∷ bs) = (b - 47) ∷ unshift bs

abbrev one_char : ℤ → Text
one_char (pos n) = (n + 200) ∷ []
one_char (negsuc n) = (n + 200) ∷ 200 ∷ []

abbrev of_char : Text → Option ℤ
of_char [] = none
of_char (k ∷ []) = some (pos (k - 200))
of_char (k ∷ l ∷ more) = some (negsuc (k - 200))

abbrev codec : Codec
codec = record {
  hmac = λ key m. key ++ m;
  encode = shift;
  decode = λ m. some (unshift m);
  format_int = one_char;
  parse_int = of_char;
}

unshift-shift : (m : Text) → unshift (shift m) ≡ m
unshift-shift [] = refl
unshift-shift (b ∷ bs) = ground (arith, unshift-shift bs)

codec_decodes : (m : Text) → codec.decode (codec.encode m) ≡ some m
codec_decodes m = ap some (unshift-shift m)

codec_dotless : (m : Text) → lacks b'.' (codec.encode m) ≡ true
codec_dotless [] = refl
codec_dotless (b ∷ bs) = ground (arith, codec_dotless bs)

codec_parses : (n : ℤ) → IsInt64 n → codec.parse_int (codec.format_int n) ≡ some n
codec_parses (pos n) h = ground arith
codec_parses (negsuc n) h = ground arith

codec_barless : (n : ℤ) → lacks b'|' (codec.format_int n) ≡ true
codec_barless (pos n) = ground arith
codec_barless (negsuc n) = ground arith

abbrev gate_key : Text
gate_key = codes "secret"

abbrev pool : Text
pool = codes "a1"

abbrev pool_host : Text
pool_host = codes "a1-e2e.remote.example:443"

abbrev nonce_1 : Text
nonce_1 = 171 ∷ 205 ∷ []

abbrev nonce_2 : Text
nonce_2 = 18 ∷ 52 ∷ []

abbrev minted_value : Time → Duration → Text → Text
minted_value at ttl raw =
    sealed codec gate_key (session_payload pool (one_char (unix (add_time at ttl))) (hex raw))

abbrev token : Text
token = minted_value (hour 12) token_ttl nonce_1

abbrev cookie : Text
cookie = minted_value (hour 12) cookie_ttl nonce_2

token_minted : mint codec gate_key pool (hour 12) token_ttl (some nonce_1) ≡ inl token
unfolding mint
token_minted = refl

cookie_minted : mint codec gate_key pool (hour 12) cookie_ttl (some nonce_2) ≡ inl cookie
unfolding mint
cookie_minted = refl

token_range : InRange (add_time (hour 12) token_ttl)
unfolding add_time
token_range = omega arith

cookie_range : InRange (add_time (hour 12) cookie_ttl)
unfolding add_time
cookie_range = omega arith

token_lasts : hour 12 < to_second (add_time (hour 12) token_ttl)
unfolding add_time
token_lasts = omega arith

cookie_lasts : hour 13 < to_second (add_time (hour 12) cookie_ttl)
unfolding add_time
cookie_lasts = omega arith

mint_verifies_example : verify_signed codec gate_key token pool (hour 12) ≡ (
    if same_text pool pool && before (hour 12) (to_second (add_time (hour 12) token_ttl))
    then some (hex nonce_1)
    else none)
mint_verifies_example =
    mint_verifies codec codec_decodes codec_dotless codec_parses codec_barless gate_key pool pool
      (hour 12) (hour 12) token_ttl nonce_1 token refl token_range token_minted

token_good : verify_signed codec gate_key token pool (hour 12) ≡ some (hex nonce_1)
unfolding same_text add_time
token_good =
    mint_verifies codec codec_decodes codec_dotless codec_parses codec_barless gate_key pool pool
      (hour 12) (hour 12) token_ttl nonce_1 token refl token_range token_minted

verify_signed-Verified_example :
    (is_empty gate_key ≡ false) × Verified codec gate_key token pool (hex nonce_1) (hour 12)
verify_signed-Verified_example =
    verify_signed-Verified codec gate_key token pool (hex nonce_1) (hour 12) token_good

abbrev gate : Server
gate = record {
  targets = (pool, codes "http://10.0.0.5") ∷ [];
  key = gate_key;
  burned = [];
  authorize_bearer = none;
}

abbrev opening : WebRequest
opening = record {
  host = pool_host;
  raw_path = [];
  path = session_path;
  token = token;
  headers = [];
  cookies = [];
}

abbrev browsing : WebRequest
browsing = record {
  host = pool_host;
  raw_path = [];
  path = codes "/";
  token = [];
  headers = (codes "Via", codes "1.1 proxy") ∷ [];
  cookies = (cookie_name, cookie) ∷ (codes "lang", codes "de") ∷ [];
}

pool_named : guid_from_host pool_host ≡ pool
unfolding guid_from_host split_host_port split_on trim_suffix same_text
pool_named = refl

opening-Bootstraps : Bootstraps gate opening token
unfolding guid_from_host split_host_port split_on trim_suffix same_text lookup_target
opening-Bootstraps = record { is_known = refl; is_default = refl; is_route = refl; presents = refl }

browsing-Browses : Browses gate browsing cookie
unfolding guid_from_host split_host_port split_on trim_suffix same_text lookup_target
    is_canonical_path clean_path clean_segments clean_segment is_allowed find_cookie get_header
browsing-Browses = record {
  is_known = refl;
  is_canonical = refl;
  no_bootstrap = refl;
  has_cookie = refl;
  same_site = refl;
}

nonce_fresh : (burn (hex nonce_1) (add_time (hour 12) token_ttl) (hour 12) gate.burned).1 ≡ true
unfolding burn prune is_burned
nonce_fresh = refl

abbrev any_url : Text → Bool
any_url _ = true

abbrev agent : Text
agent = agent_text (codes "v0.14.0")

session_opens_example :
    ((handle codec any_url agent gate opening (hour 12) (some nonce_2)).1 ≡ session_started cookie)
    × ((handle codec any_url agent gate browsing (hour 13) none).1
        ≡ forwarded
            (lookup_target (guid_from_host pool_host) gate.targets)
            (stripped agent browsing))
session_opens_example =
    session_opens codec codec_decodes codec_dotless codec_parses codec_barless any_url agent gate
      opening (hour 12) (hour 12) token_ttl gate_key pool nonce_1 token nonce_2 cookie gate browsing
      (hour 13) none refl token_range cookie_range token_minted cookie_minted refl pool_named
      opening-Bootstraps token_lasts nonce_fresh refl pool_named browsing-Browses refl cookie_lasts

opened_once :
    ((handle codec any_url agent gate opening (hour 12) (some nonce_2)).1 ≡ session_started cookie)
    × ((handle codec any_url agent gate browsing (hour 13) none).1
        ≡ forwarded
            (lookup_target (guid_from_host pool_host) gate.targets)
            (stripped agent browsing))
opened_once =
    session_opens codec codec_decodes codec_dotless codec_parses codec_barless any_url agent gate
      opening (hour 12) (hour 12) token_ttl gate_key pool nonce_1 token nonce_2 cookie gate browsing
      (hour 13) none refl token_range cookie_range token_minted cookie_minted refl pool_named
      opening-Bootstraps token_lasts nonce_fresh refl pool_named browsing-Browses refl cookie_lasts

handle_forwards_example :
    Admitted codec gate browsing (hour 13) (lookup_target (guid_from_host pool_host) gate.targets)
    × Discreet browsing (stripped agent browsing)
handle_forwards_example =
    handle_forwards codec any_url agent gate browsing (hour 13) none
      (lookup_target (guid_from_host pool_host) gate.targets) (stripped agent browsing)
      opened_once.1

abbrev gate_later : Server
gate_later = record (served codec any_url agent gate opening (hour 12) (some nonce_2)) {
  key = gate_key;
}

redeemed_once_example :
    (handle codec any_url agent gate_later opening (hour 13) (some nonce_1)).1
    ≢ session_started token
redeemed_once_example =
    redeemed_once codec codec_decodes codec_dotless codec_parses codec_barless any_url agent gate
      opening (hour 12) (hour 12) (some nonce_2) gate_key pool nonce_1 token cookie gate_later
      (hour 12) opening (hour 13) (some nonce_1) token refl token_range token_minted (omega arith)
      refl refl opened_once.0 (set_session_key gate_key begun) (omega arith) refl refl

is_canonical_path_iff_example :
    (is_canonical_path (codes "") (codes "/page/") ≡ true)
    ↔ ((codes "" ≡ []) × (all is_allowed (codes "/page/") ≡ true) × IsResolved (codes "/page/"))
is_canonical_path_iff_example = is_canonical_path_iff (codes "") (codes "/page/")
