-- ===== src/Ctrl/Gate/Opened.antt =====
-- internal/agent/ctrlfilter/server.go: a session, from the value that opens it to its requests.
use poolpilot_relay.Prelude.{
  Bool, Option, arith, false, if◌then◌else◌, inl, none, some, subst, sym, true, ◌&&◌, ◌<◌, ◌∙◌, ◌≡◌,
}
use poolpilot_relay.Alert.Engine.{fresh}
use poolpilot_relay.Ctrl.Burn.{burn}
use poolpilot_relay.Ctrl.Gate.{
  Server, WebRequest, forwarded, handle, lookup_target, session_started,
}
use poolpilot_relay.Ctrl.Gate.Session.{Bootstraps, Browses, bootstrap_starts, cookie_passes}
use poolpilot_relay.Ctrl.Gate.Stripped.{stripped}
use poolpilot_relay.Ctrl.Hosts.{guid_from_host}
use poolpilot_relay.Ctrl.Paths.Canonical.{same_text_refl}
use poolpilot_relay.Ctrl.Session.{Codec, cookie_ttl, hex, mint, token_ttl, verify_signed}
use poolpilot_relay.Ctrl.Session.RoundTrip.{InRange, mint-sealed, mint_verifies, to_second}
use poolpilot_relay.Go.Int64.{IsInt64}
use poolpilot_relay.Go.Text.{Text, is_empty, same_text}
use poolpilot_relay.Go.Text.Split.{lacks}
use poolpilot_relay.Go.Time.{Duration, Time, add_time, before}
use poolpilot_relay.Prelude.Int.{ℤ}

live_value :
    (same : Bool) (at end : Time) (n : Text)
    → same ≡ true
    → at < end
    → (if same && before at end then some n else none) ≡ some n
live_value same at end n s l = ground (arith, s, l)

module _ (c : Codec) (decodes : (m : Text) → c.decode (c.encode m) ≡ some m)
    (dotless : (m : Text) → lacks b'.' (c.encode m) ≡ true)
    (parses : (n : ℤ) → IsInt64 n → c.parse_int (c.format_int n) ≡ some n)
    (barless : (n : ℤ) → lacks b'|' (c.format_int n) ≡ true) where
  -- A minted value is good for its controller's host until it expires.
  minted_good :
      (key guid host : Text) (minted now : Time) (ttl : Duration) (raw value : Text)
      → lacks b'|' guid ≡ true
      → guid_from_host host ≡ guid
      → InRange (add_time minted ttl)
      → mint c key guid minted ttl (some raw) ≡ inl value
      → now < to_second (add_time minted ttl)
      → verify_signed c key value (guid_from_host host) now ≡ some (hex raw)
  minted_good key guid host minted now ttl raw value bars own range h l =
      mint_verifies c decodes dotless parses barless key guid (guid_from_host host) minted now ttl
        raw value bars range h
      ∙ live_value (same_text guid (guid_from_host host)) now (to_second (add_time minted ttl))
          (hex raw) (same_text_refl guid (guid_from_host host) (sym own)) l

  -- A value that was minted for a controller, with whatever lifetime, opens a session at that
  -- controller's host while it lasts and its nonce is not burned; and the cookie that it is answered
  -- with brings each request, until twelve hours after, to the controller. The value may itself be a
  -- cookie: nothing in it tells the two apart.
  pub session_opens :
      (route : Text → Bool) (agent : Text) (srv : Server) (r : WebRequest) (minted now : Time)
      (ttl : Duration) (key guid raw value raw' cookie : Text) (srv' : Server) (r' : WebRequest)
      (later : Time) (random : Option Text)
      → lacks b'|' guid ≡ true
      → InRange (add_time minted ttl)
      → InRange (add_time now cookie_ttl)
      → mint c key guid minted ttl (some raw) ≡ inl value
      → mint c key guid now cookie_ttl (some raw') ≡ inl cookie
      → srv.key ≡ key
      → guid_from_host r.host ≡ guid
      → Bootstraps srv r value
      → now < to_second (add_time minted ttl)
      → (burn (hex raw) (add_time now token_ttl) now srv.burned).1 ≡ true
      → srv'.key ≡ key
      → guid_from_host r'.host ≡ guid
      → Browses srv' r' cookie
      → route (lookup_target (guid_from_host r'.host) srv'.targets) ≡ true
      → later < to_second (add_time now cookie_ttl)
      → ((handle c route agent srv r now (some raw')).1 ≡ session_started cookie)
        × ((handle c route agent srv' r' later random).1
            ≡ forwarded (lookup_target (guid_from_host r'.host) srv'.targets) (stripped agent r'))
  session_opens route agent srv r minted now ttl key guid raw value raw' cookie srv' r' later random
        bars range range' h h' k own b l fresh k' own' b' p l' =
      let (full, _) =
        mint-sealed c decodes dotless parses barless key guid now cookie_ttl raw' cookie h' in
      let first = minted_good key guid r.host minted now ttl raw value bars own range h l in
      let second =
        minted_good key guid r'.host now later cookie_ttl raw' cookie bars own' range' h' l' in
      (
        bootstrap_starts c route agent srv r now (some raw') value (hex raw) cookie b
            (subst (λ w. is_empty w ≡ false) (sym k) full)
            (subst (λ w. verify_signed c w value (guid_from_host r.host) now ≡ some (hex raw))
              (sym k) first)
            fresh
            (subst (λ w. mint c w (guid_from_host r.host) now cookie_ttl (some raw') ≡ inl cookie)
              (sym k)
              (subst (λ g. mint c key g now cookie_ttl (some raw') ≡ inl cookie) (sym own) h')),
        cookie_passes c route agent srv' r' later random cookie (hex raw') b'
            (subst (λ w. is_empty w ≡ false) (sym k') full)
            (subst (λ w. verify_signed c w cookie (guid_from_host r'.host) later ≡ some (hex raw'))
              (sym k') second)
            p,
      )
