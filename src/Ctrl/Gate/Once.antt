-- ===== src/Ctrl/Gate/Once.antt =====
-- internal/agent/ctrlfilter/server.go: a token is redeemed once.
use poolpilot_relay.Prelude.{
  Bool, Option, arith, false, if◌then◌else◌, inl, none, some, subst, sym, true, ◌&&◌, ◌<◌, ◌∙◌, ◌≡◌,
  ◌≢◌, ◌≤◌,
}
use poolpilot_relay.Ctrl.Burn.{burn}
use poolpilot_relay.Ctrl.Burn.Once.{burn_fresh-holds, burned_refused, holds_beyond}
use poolpilot_relay.Ctrl.Gate.{Server, WebRequest, handle, session_started}
use poolpilot_relay.Ctrl.Gate.Redeemed.{Serving, Serving-holds, served}
use poolpilot_relay.Ctrl.Gate.Started.{Starts, handle-Starts}
use poolpilot_relay.Ctrl.Hosts.{guid_from_host}
use poolpilot_relay.Ctrl.Session.{Codec, hex, mint, token_ttl, verify_signed}
use poolpilot_relay.Ctrl.Session.RoundTrip.{InRange, mint_verifies, to_second}
use poolpilot_relay.Go.Int64.{IsInt64}
use poolpilot_relay.Go.Text.{Text, same_text}
use poolpilot_relay.Go.Text.Split.{lacks}
use poolpilot_relay.Go.Time.{Time, add_time, before}
use poolpilot_relay.Prelude.Int.{ℤ}

good_value :
    (same : Bool) (later end : Time) (n m : Text)
    → (if same && before later end then some n else none) ≡ some m
    → (n ≡ m) × (later < end)
good_value same later end n m h = (ground (arith, h), ground (arith, h))

to_second-le : (t : Time) → to_second t ≤ t
to_second-le t = ground arith

add_ttl-lt :
    (minted now at : Time)
    → minted ≤ now
    → at < add_time minted token_ttl
    → at < add_time now token_ttl
unfolding add_time
add_ttl-lt minted now at h l = ground (arith, h, l)

module _ (c : Codec) (decodes : (m : Text) → c.decode (c.encode m) ≡ some m)
    (dotless : (m : Text) → lacks b'.' (c.encode m) ≡ true)
    (parses : (n : ℤ) → IsInt64 n → c.parse_int (c.format_int n) ≡ some n)
    (barless : (n : ℤ) → lacks b'|' (c.format_int n) ≡ true) where
  -- The nonce that a redeemed token had, and when it was.
  started_nonce :
      (srv : Server) (r : WebRequest) (minted now : Time) (random : Option Text)
      (key guid raw value cookie : Text)
      → lacks b'|' guid ≡ true
      → InRange (add_time minted token_ttl)
      → mint c key guid minted token_ttl (some raw) ≡ inl value
      → srv.key ≡ key
      → r.token ≡ value
      → (s : Starts c srv r now random cookie)
      → (hex raw ≡ s.nonce) × (now < add_time minted token_ttl)
  started_nonce srv r minted now random key guid raw value cookie bars range h k e s =
      let verified =
        mint_verifies c decodes dotless parses barless key guid (guid_from_host r.host) minted now
          token_ttl raw value bars range h in
      let good =
        subst (λ v. verify_signed c key v (guid_from_host r.host) now ≡ some s.nonce) e
          (subst (λ w. verify_signed c w r.token (guid_from_host r.host) now ≡ some s.nonce) k
            s.is_good) in
      let (same, early) =
        good_value (same_text guid (guid_from_host r.host)) now
          (to_second (add_time minted token_ttl)) (hex raw) s.nonce (sym verified ∙ good) in
      (same, ground (arith, early, to_second-le (add_time minted token_ttl)))

  -- Once a bootstrap token has started a session, it starts no other, at whatever later instant it
  -- is presented and whatever the gate served, or had installed, in between, as long as the clock
  -- does not go back. The token was minted, for the usual time, before it was first presented.
  pub redeemed_once :
      (route : Text → Bool) (agent : Text) (srv : Server) (r : WebRequest) (minted now : Time)
      (random : Option Text) (key guid raw value cookie : Text) (srv' : Server) (last : Time)
      (r' : WebRequest) (now' : Time) (random' : Option Text) (cookie' : Text)
      → lacks b'|' guid ≡ true
      → InRange (add_time minted token_ttl)
      → mint c key guid minted token_ttl (some raw) ≡ inl value
      → minted ≤ now
      → srv.key ≡ key
      → r.token ≡ value
      → (handle c route agent srv r now random).1 ≡ session_started cookie
      → Serving c route agent (served c route agent srv r now random) now srv' last
      → last ≤ now'
      → srv'.key ≡ key
      → r'.token ≡ value
      → (handle c route agent srv' r' now' random').1 ≢ session_started cookie'
  redeemed_once route agent srv r minted now random key guid raw value cookie srv' last r' now'
        random' cookie' bars range h order k e first between later k' e' again =
      let (s, burned) = handle-Starts c route agent srv r now random cookie first in
      let (s', burned') = handle-Starts c route agent srv' r' now' random' cookie' again in
      let (same, early) =
        started_nonce srv r minted now random key guid raw value cookie bars range h k e s in
      let (same', early') =
        started_nonce srv' r' minted now' random' key guid raw value cookie' bars range h k' e'
          s' in
      let until : Time = add_time now token_ttl in
      let in_time : (now' < until) = add_ttl-lt minted now now' order early' in
      let held : (holds_beyond s.nonce until (served c route agent srv r now random).burned
          ≡ true) =
        subst (λ b. holds_beyond s.nonce until b ≡ true) (sym burned)
          (burn_fresh-holds s.nonce until until now srv.burned (ground arith) s.is_fresh) in
      let kept : (holds_beyond s.nonce until srv'.burned ≡ true) =
        Serving-holds s.nonce until between (ground (arith, in_time, later)) held in
      let spent : ((burn s'.nonce (add_time now' token_ttl) now' srv'.burned).1 ≡ false) =
        burned_refused s'.nonce until (add_time now' token_ttl) now' srv'.burned in_time
          (subst (λ n. holds_beyond n until srv'.burned ≡ true) (sym same ∙ same') kept) in
      ground (arith, spent, s'.is_fresh)
