-- ===== src/Cloud/Removals/Backoff.antt =====
-- How long a device removal waits for its next attempt.
use poolpilot_relay.Prelude.{
  Bool-cases, String, ap, arith, eqb, false, inl, inr, min, refl, some, suc, zero, ℕ, ◌*◌, ◌+◌, ◌-◌,
  ◌<◌, ◌^◌, ◌∙◌, ◌≡◌, ◌≢◌, ◌≤◌, ◌⊎◌,
}
use poolpilot_relay.Cloud.Calls.{
  CloudAnswer, CloudError, by_class, err_household_device_cap, err_not_supported,
  err_quota_exceeded, err_rejected, err_subscription_inactive, err_unavailable, err_unknown_token,
  err_voucher_cap_reached, is_rejected, no_answer, revoke_push_result, status,
}
use poolpilot_relay.Cloud.Removals.{
  doubled, removal_backoff, removal_backoff_base, removal_backoff_max,
}
use poolpilot_relay.Cloud.Removals.Pass.{retry_delay}
use poolpilot_relay.Go.Int64.{add64, add64_one}
use poolpilot_relay.Go.Time.{nanoseconds}
use poolpilot_relay.Prelude.Int.{pos, pos_part}

-- A time that is doubled a number of times, without a bound.
abbrev pub twice : ℕ → ℕ → ℕ
twice zero d = d
twice (suc rounds) d = twice rounds (d * 2)

le-twice : (rounds d : ℕ) → d ≤ twice rounds d
le-twice zero d = omega arith
le-twice (suc rounds) d = omega (arith, le-twice rounds (d * 2))

doubled_min :
    (rounds d : ℕ)
    → min (doubled rounds d) removal_backoff_max ≡ min (twice rounds d) removal_backoff_max
unfolding doubled
doubled_min zero d = refl
doubled_min (suc rounds) d = ground (arith, doubled_min rounds (d * 2), le-twice rounds (d * 2))

-- The backoff of an attempt is a minute, doubled once for every earlier one, and at most an
-- hour.
pub removal_backoff_lem :
    (earlier : ℕ)
    → (removal_backoff (earlier + 1) ≡ min (twice earlier removal_backoff_base) removal_backoff_max)
      × (removal_backoff_base ≤ removal_backoff (earlier + 1))
      × (removal_backoff (earlier + 1) ≤ removal_backoff_max)
unfolding removal_backoff
removal_backoff_lem earlier =
    let index : (earlier + 1) - 1 ≡ earlier = omega arith in
    let same : removal_backoff (earlier + 1)
        ≡ min (twice earlier removal_backoff_base) removal_backoff_max =
      ap (λ n. min (doubled n removal_backoff_base) removal_backoff_max) index
      ∙ doubled_min earlier removal_backoff_base in
    (same, ground (arith, same, le-twice earlier removal_backoff_base), ground (arith, same))

transient_delay :
    (e : CloudError) (earlier : ℕ)
    → earlier + 1 < 2 ^ 63
    → e ≢ err_subscription_inactive
    → retry_delay (pos earlier) e ≡ min (twice earlier removal_backoff_base) removal_backoff_max
unfolding retry_delay
transient_delay e earlier h n =
    let next : removal_backoff (suc earlier) ≡ removal_backoff (earlier + 1) =
      ap removal_backoff (omega arith) in
    let counted : removal_backoff (pos_part (add64 (pos earlier) (pos 1)))
        ≡ min (twice earlier removal_backoff_base) removal_backoff_max =
      ap (λ z. removal_backoff (pos_part z)) (add64_one earlier (omega (arith, h)))
      ∙ next
      ∙ (removal_backoff_lem earlier).0 in
    elim e
        as (λ k.
          k ≢ err_subscription_inactive
          → retry_delay (pos earlier) k
            ≡ min (twice earlier removal_backoff_base) removal_backoff_max) [
              | err_subscription_inactive ↦ λ m. absurd (m refl)
              | err_unavailable ↦ λ m. counted
              | err_rejected ↦ λ m. counted
              | err_quota_exceeded ↦ λ m. counted
              | err_voucher_cap_reached ↦ λ m. counted
              | err_household_device_cap ↦ λ m. counted
              | err_unknown_token ↦ λ m. counted
              | err_not_supported ↦ λ m. counted
            ]
      n

forbidden_or_not :
    (reply : CloudAnswer {0} Unit) (e : CloudError)
    → revoke_push_result reply ≡ some e
    → (((code : String) × (reply ≡ status 403 code tt)) × (e ≡ err_subscription_inactive))
      ⊎ (((code : String) → reply ≢ status 403 code tt) × (e ≢ err_subscription_inactive))
unfolding revoke_push_result by_class
forbidden_or_not no_answer e p =
    inr (λ code q. absurd (ground (arith, q)), λ q. absurd (ground (arith, p, q)))
forbidden_or_not (status n code tt) e p = elim (Bool-cases (eqb n 403)) [
  | inl f ↦ inl ((code, ground (arith, f)), ground (arith, f, p))
  | inr f ↦ inr (λ c q. absurd (ground (arith, q, f)), λ q. absurd (ground (arith, p, q, f)))
]

-- The wait of an entry whose report failed without being refused for good, with fewer than 2⁶³ - 1
-- attempts before, is six hours where the cloud answered 403, and otherwise a minute, doubled once
-- for every attempt before and cut to an hour.
pub retry_delay_lem :
    (reply : CloudAnswer {0} Unit) (e : CloudError) (earlier : ℕ)
    → earlier + 1 < 2 ^ 63
    → revoke_push_result reply ≡ some e
    → is_rejected e ≡ false
    → (((code : String) × (reply ≡ status 403 code tt))
        × (retry_delay (pos earlier) e ≡ 6 * 3600 * nanoseconds))
      ⊎ (((code : String) → reply ≢ status 403 code tt)
          × (retry_delay (pos earlier) e
              ≡ min (twice earlier (60 * nanoseconds)) (3600 * nanoseconds)))
unfolding retry_delay
retry_delay_lem reply e earlier h p _ = elim (forbidden_or_not reply e p) [
  | inl (f, same) ↦ inl (f, ap (retry_delay (pos earlier)) same)
  | inr (f, other) ↦ inr (f, transient_delay e earlier h other)
]
