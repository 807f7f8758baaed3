-- ===== src/Ctrl/Session.antt =====
-- internal/agent/ctrlfilter/session.go: the signed values of a web session. A codec is what the
-- code calls of other packages: HMAC-SHA256, base64's RawURLEncoding, and strconv's decimals.
pub mod RoundTrip
pub mod Verified
use poolpilot_relay.Prelude.{
  List, Option, [], if◌then◌else◌, inl, inr, ltb, none, not, some, ℕ, ◌%◌, ◌*◌, ◌++◌, ◌+◌, ◌-◌, ◌/◌,
  ◌||◌, ◌∷◌, ◌⊎◌,
}
use poolpilot_relay.Go.Int64.{add64}
use poolpilot_relay.Go.Text.{Text, codes, is_empty, same_text, split_on}
use poolpilot_relay.Go.Time.{Duration, Time, add_time, before, nanoseconds, unix, unix_epoch}
use poolpilot_relay.Prelude.Int.{pos, pos_part, ℤ}

pub record Codec : Type 0 where
  pub hmac : Text → Text → Text
  pub encode : Text → Text
  pub decode : Text → Option Text
  pub format_int : ℤ → Text
  pub parse_int : Text → Option ℤ

abbrev pub cookie_name : Text
cookie_name = codes "pp_ctrl"

abbrev pub token_ttl : Duration
token_ttl = pos (120 * nanoseconds)

abbrev pub cookie_ttl : Duration
cookie_ttl = pos (43200 * nanoseconds)

abbrev pub token_version : Text
token_version = codes "v1"

-- `hex.EncodeToString`.
unfoldable pub hex_digit : ℕ → ℕ
hex_digit n = if ltb n 10 then b'0' + n else b'a' + (n - 10)

unfoldable pub hex : Text → Text
unfolding hex_digit
hex [] = []
hex (b ∷ bs) = hex_digit (b / 16 % 16) ∷ hex_digit (b % 16) ∷ hex bs

pub data MintError : Type 0 where
  no_session_key no_randomness : MintError

-- `time.Unix(n, 0)`: its seconds since the zero Time are an int64 sum.
unfoldable pub from_unix : ℤ → Time
from_unix n = pos_part (add64 n (pos unix_epoch)) * nanoseconds

-- A payload, `<guid>|<exp unix>|<nonce>`, and the value that carries it with its MAC.
abbrev pub session_payload : Text → Text → Text → Text
session_payload guid exp nonce = guid ++ (b'|' ∷ exp ++ (b'|' ∷ nonce))

unfoldable pub sealed : Codec → Text → Text → Text
sealed c key payload =
    token_version ++ (b'.' ∷ c.encode payload ++ (b'.' ∷ c.encode (c.hmac key payload)))

-- `mint`: `random` is what crypto/rand yields, `none` where it errs.
unfoldable pub mint : Codec → Text → Text → Time → Duration → Option Text → Text ⊎ MintError
unfolding sealed hex
mint c key guid now ttl random = if is_empty key then inr no_session_key else elim random [
  | none ↦ inr no_randomness
  | some raw ↦
      inl (sealed c key (session_payload guid (c.format_int (unix (add_time now ttl))) (hex raw)))
]

-- The end of `VerifySigned`, by the fields of a payload whose MAC is right.
unfoldable pub verify_fields : Codec → Text → Time → List Text → Option Text
unfolding from_unix
verify_fields c guid now (owner ∷ exp ∷ nonce ∷ []) =
    if not (same_text owner guid) then none else elim (c.parse_int exp) [
      | none ↦ none
      | some n ↦ if before now (from_unix n) then some nonce else none
    ]
verify_fields c guid now [] = none
verify_fields c guid now (x ∷ []) = none
verify_fields c guid now (x ∷ y ∷ []) = none
verify_fields c guid now (x ∷ y ∷ z ∷ w ∷ more) = none

-- Its middle, by what the two encoded parts decode to.
unfoldable pub verify_decoded : Codec → Text → Text → Time → Option Text → Option Text → Option Text
unfolding verify_fields
verify_decoded c key guid now none got = none
verify_decoded c key guid now (some payload) none = none
verify_decoded c key guid now (some payload) (some got) =
    if same_text got (c.hmac key payload)
    then verify_fields c guid now (split_on b'|' payload)
    else none

unfoldable pub verify_parts : Codec → Text → Text → Time → List Text → Option Text
unfolding verify_decoded
verify_parts c key guid now (version ∷ body ∷ mac ∷ []) =
    if same_text version token_version
    then verify_decoded c key guid now (c.decode body) (c.decode mac)
    else none
verify_parts c key guid now [] = none
verify_parts c key guid now (x ∷ []) = none
verify_parts c key guid now (x ∷ y ∷ []) = none
verify_parts c key guid now (x ∷ y ∷ z ∷ w ∷ more) = none

-- `VerifySigned`: the nonce of a good value.
unfoldable pub verify_signed : Codec → Text → Text → Text → Time → Option Text
unfolding verify_parts
verify_signed c key value guid now =
    if is_empty key || is_empty value
    then none
    else verify_parts c key guid now (split_on b'.' value)
