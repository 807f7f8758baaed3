-- ===== src/Ctrl/Session/RoundTrip.antt =====
-- internal/agent/ctrlfilter/session.go: minting a value and verifying it.
use poolpilot_relay.Prelude.{
  [], ap, arith, eqb, false, if◌then◌else◌, inl, none, refl, some, true, ℕ, ◌%◌, ◌&&◌, ◌*◌, ◌/◌,
  ◌<◌, ◌^◌, ◌∙◌, ◌∷◌, ◌≡◌,
}
use poolpilot_relay.Ctrl.Session.{
  Codec, from_unix, hex, hex_digit, mint, sealed, session_payload, token_version, verify_decoded,
  verify_fields, verify_parts, verify_signed,
}
use poolpilot_relay.Go.Int64.{IsInt64, add64, wrap64}
use poolpilot_relay.Go.Text.{Text, is_empty, same_text, same_text_iff, split_on}
use poolpilot_relay.Go.Text.Split.{lacks, split_on-three}
use poolpilot_relay.Go.Time.{Duration, Time, add_time, before, nanoseconds, unix}
use poolpilot_relay.Prelude.Int.{ℤ, ◌+ℤ◌}

hex_digit-lacks : (n : ℕ) → n < 16 → eqb (hex_digit n) b'|' ≡ false
unfolding hex_digit
hex_digit-lacks n h = ground arith

hex-lacks : (raw : Text) → lacks b'|' (hex raw) ≡ true
unfolding hex
hex-lacks [] = refl
hex-lacks (b ∷ bs) =
    ground (arith, hex_digit-lacks (b / 16 % 16), hex_digit-lacks (b % 16), hex-lacks bs)

-- An instant, down to whole seconds.
abbrev pub to_second : Time → Time
to_second t = t / nanoseconds * nanoseconds

-- Instants whose seconds are below 2⁶³.
abbrev pub InRange : Time → Type 0
InRange t = t / nanoseconds < 2 ^ 63

from_unix-unix : (t : Time) → InRange t → from_unix (unix t) ≡ to_second t
unfolding from_unix unix add64 wrap64 ◌+ℤ◌
from_unix-unix t h = ground arith

unix-IsInt64 : (t : Time) → InRange t → IsInt64 (unix t)
unfolding unix
unix-IsInt64 t h = ground arith

sealed-nonempty : (c : Codec) (key payload : Text) → is_empty (sealed c key payload) ≡ false
unfolding sealed
sealed-nonempty c key payload = refl

-- The codec's laws: base64 decodes what it encodes, to an alphabet without the dot, and so for
-- decimals of an int64, without the bar.
module _ (c : Codec) (decodes : (m : Text) → c.decode (c.encode m) ≡ some m)
    (dotless : (m : Text) → lacks b'.' (c.encode m) ≡ true)
    (parses : (n : ℤ) → IsInt64 n → c.parse_int (c.format_int n) ≡ some n)
    (barless : (n : ℤ) → lacks b'|' (c.format_int n) ≡ true) where
  split_on-sealed :
      (key payload : Text)
      → split_on b'.' (sealed c key payload)
        ≡ token_version ∷ c.encode payload ∷ c.encode (c.hmac key payload) ∷ []
  unfolding sealed
  split_on-sealed key payload =
      split_on-three b'.' token_version (c.encode payload) (c.encode (c.hmac key payload)) refl
        (dotless payload) (dotless (c.hmac key payload))

  -- A sealed payload is verified by its fields.
  pub verify_signed-sealed :
      (key payload guid : Text) (now : Time)
      → is_empty key ≡ false
      → verify_signed c key (sealed c key payload) guid now
        ≡ verify_fields c guid now (split_on b'|' payload)
  unfolding verify_signed verify_parts verify_decoded split_on same_text
  verify_signed-sealed key payload guid now h =
      rw
        (
          h,
          sealed-nonempty c key payload,
          split_on-sealed key payload,
          decodes payload,
          decodes (c.hmac key payload),
          (same_text_iff (c.hmac key payload) (c.hmac key payload)).1 refl,
        )
        refl

  verify_fields-unix :
      (guid guid' nonce : Text) (t later : Time)
      → InRange t
      → verify_fields c guid' later (guid ∷ c.format_int (unix t) ∷ nonce ∷ [])
        ≡ (if same_text guid guid' && before later (to_second t) then some nonce else none)
  unfolding verify_fields
  verify_fields-unix guid guid' nonce t later h =
      rw (parses (unix t) (unix-IsInt64 t h), from_unix-unix t h) (ground arith)

  -- What `mint` seals.
  pub mint-sealed :
      (key guid : Text) (now : Time) (ttl : Duration) (raw value : Text)
      → mint c key guid now ttl (some raw) ≡ inl value
      → (is_empty key ≡ false)
        × (value
            ≡ sealed c key
                (session_payload guid (c.format_int (unix (add_time now ttl))) (hex raw)))
  unfolding mint
  mint-sealed key guid now ttl raw value h = (ground (arith, h), ground (arith, h))

  -- A value that was minted for a controller verifies under the same key for exactly that
  -- controller, and at exactly the instants before the whole second of its expiry; what it yields
  -- is its nonce.
  pub mint_verifies :
      (key guid guid' : Text) (now later : Time) (ttl : Duration) (raw value : Text)
      → lacks b'|' guid ≡ true
      → InRange (add_time now ttl)
      → mint c key guid now ttl (some raw) ≡ inl value
      → verify_signed c key value guid' later ≡ (
          if same_text guid guid' && before later (to_second (add_time now ttl))
          then some (hex raw)
          else none)
  mint_verifies key guid guid' now later ttl raw value bars range h =
      let t : Time = add_time now ttl in
      let exp : Text = c.format_int (unix t) in
      let (k, e) = mint-sealed key guid now ttl raw value h in
      rw e (
        verify_signed-sealed key (session_payload guid exp (hex raw)) guid' later k
        ∙ ap (verify_fields c guid' later)
            (split_on-three b'|' guid exp (hex raw) bars (barless (unix t)) (hex-lacks raw))
        ∙ verify_fields-unix guid guid' (hex raw) t later range)
