-- ===== src/Ctrl/Session/Verified.antt =====
-- internal/agent/ctrlfilter/session.go: what a value that verifies is.
use poolpilot_relay.Prelude.{
  List, Option, Option-cases, [], ap, arith, false, inl, inr, none, refl, some, subst, sym, ◌++◌,
  ◌<◌, ◌∙◌, ◌∷◌, ◌≡◌,
}
use poolpilot_relay.Ctrl.Session.{
  Codec, from_unix, session_payload, token_version, verify_decoded, verify_fields, verify_parts,
  verify_signed,
}
use poolpilot_relay.Go.Text.{Text, is_empty, same_text_iff, split_on}
use poolpilot_relay.Go.Text.Split.{join_on, join_on-split_on}
use poolpilot_relay.Go.Time.{Time}
use poolpilot_relay.Prelude.Int.{ℤ}

-- A value that was signed with the key: three parts, of which the second decodes to the payload and
-- the third to the payload's MAC.
pub record IsSigned (c : Codec) (key value payload : Text) : Type 0 where
  pub body : Text
  pub mac : Text
  pub is_value : value ≡ token_version ++ (b'.' ∷ body ++ (b'.' ∷ mac))
  pub is_body : c.decode body ≡ some payload
  pub is_mac : c.decode mac ≡ some (c.hmac key payload)

-- A payload that names the controller, with the nonce, and an expiry after `now`.
pub record IsLive (c : Codec) (guid nonce : Text) (now : Time) (payload : Text) : Type 0 where
  pub exp : Text
  pub seconds : ℤ
  pub is_payload : payload ≡ session_payload guid exp nonce
  pub is_exp : c.parse_int exp ≡ some seconds
  pub is_before : now < from_unix seconds

fields-IsLive :
    (c : Codec) (guid nonce payload : Text) (now : Time) (parts : List Text)
    → payload ≡ join_on b'|' parts
    → verify_fields c guid now parts ≡ some nonce
    → IsLive c guid nonce now payload
unfolding verify_fields
fields-IsLive c guid nonce payload now (owner ∷ exp ∷ last ∷ []) j h =
    elim (Option-cases (c.parse_int exp)) [
      | inl e ↦ absurd (ground (arith, e, h))
      | inr (n, e) ↦
          let own : owner ≡ guid = (same_text_iff owner guid).0 (ground (arith, e, h)) in
          let end : last ≡ nonce = ground (arith, e, h) in
          record {
            exp = exp;
            seconds = n;
            is_payload = rw (sym own, sym end) j;
            is_exp = e;
            is_before = ground (arith, e, h);
          }
    ]
fields-IsLive c guid nonce payload now [] j h = absurd (ground (arith, h))
fields-IsLive c guid nonce payload now (x ∷ []) j h = absurd (ground (arith, h))
fields-IsLive c guid nonce payload now (x ∷ y ∷ []) j h = absurd (ground (arith, h))
fields-IsLive c guid nonce payload now (x ∷ y ∷ z ∷ w ∷ more) j h = absurd (ground (arith, h))

-- The value was signed, and its payload is live.
abbrev pub Verified : Codec → Text → Text → Text → Text → Time → Type 0
Verified c key value guid nonce now =
    (payload : Text) × IsSigned c key value payload × IsLive c guid nonce now payload

decoded-Verified :
    (c : Codec) (key value guid nonce body mac : Text) (now : Time) (o p : Option Text)
    → value ≡ token_version ++ (b'.' ∷ body ++ (b'.' ∷ mac))
    → c.decode body ≡ o
    → c.decode mac ≡ p
    → verify_decoded c key guid now o p ≡ some nonce
    → Verified c key value guid nonce now
unfolding verify_decoded
decoded-Verified c key value guid nonce body mac now none p v b m h = absurd (ground (arith, h))
decoded-Verified c key value guid nonce body mac now (some payload) none v b m h =
    absurd (ground (arith, h))
decoded-Verified c key value guid nonce body mac now (some payload) (some got) v b m h =
    let same : got ≡ c.hmac key payload =
      (same_text_iff got (c.hmac key payload)).0 (ground (arith, h)) in
    (
      payload,
      record { body = body; mac = mac; is_value = v; is_body = b; is_mac = m ∙ ap some same },
      fields-IsLive c guid nonce payload now (split_on b'|' payload)
          (sym (join_on-split_on b'|' payload)) (ground (arith, h)),
    )

parts-Verified :
    (c : Codec) (key value guid nonce : Text) (now : Time) (parts : List Text)
    → value ≡ join_on b'.' parts
    → verify_parts c key guid now parts ≡ some nonce
    → Verified c key value guid nonce now
unfolding verify_parts
parts-Verified c key value guid nonce now (version ∷ body ∷ mac ∷ []) j h =
    let same : version ≡ token_version =
      (same_text_iff version token_version).0 (ground (arith, h)) in
    decoded-Verified c key value guid nonce body mac now (c.decode body) (c.decode mac)
      (subst (λ v. value ≡ v ++ (b'.' ∷ body ++ (b'.' ∷ mac))) same j) refl refl (ground (arith, h))
parts-Verified c key value guid nonce now [] j h = absurd (ground (arith, h))
parts-Verified c key value guid nonce now (x ∷ []) j h = absurd (ground (arith, h))
parts-Verified c key value guid nonce now (x ∷ y ∷ []) j h = absurd (ground (arith, h))
parts-Verified c key value guid nonce now (x ∷ y ∷ z ∷ w ∷ more) j h = absurd (ground (arith, h))

-- Whatever verifies carries the MAC of its payload under a key that is not empty, and its payload
-- names the controller, the nonce that comes back, and an expiry that has not come.
pub verify_signed-Verified :
    (c : Codec) (key value guid nonce : Text) (now : Time)
    → verify_signed c key value guid now ≡ some nonce
    → (is_empty key ≡ false) × Verified c key value guid nonce now
unfolding verify_signed
verify_signed-Verified c key value guid nonce now h = (
  ground (arith, h),
  parts-Verified c key value guid nonce now (split_on b'.' value)
      (sym (join_on-split_on b'.' value)) (ground (arith, h)),
)
