-- ===== src/Publisher/Failures.antt =====
-- How internal/app/app.go reads a failed send: permanent rejections, the closed reasons that are
-- reported, and the delay before the next flush.
use overgent.Prelude.{
  ℕ, zero, suc, ◌+◌, ◌-◌, ◌*◌, ◌/◌, ◌%◌, min, String, Bool, false, ◌&&◌, ◌||◌, not, Option, none,
  some, ltb, leb, ◌==◌, if◌then◌else◌, is_some,
}
use text.Mathlib.Text.{find?}

-- `hosted.APIError` of internal/hosted/client.go, as far as the publisher reads it.
pub record ApiError : Type 0 where
  pub status : ℕ
  pub retryable : Bool

-- A Go error: what `errors.As` finds in its chain, whether `context.Canceled` or
-- `context.DeadlineExceeded` is there, and its text in lower case.
pub record Failure : Type 0 where
  pub api : Option ApiError
  pub is_canceled : Bool
  pub lowered : String

unfoldable pub permanent_rejection : Failure → Bool
permanent_rejection f = elim f.api [
  | none ↦ false
  | some api ↦
      if api.retryable
      then false
      else leb 400 api.status
        && ltb api.status 500
        && not (api.status == 401)
        && not (api.status == 408)
        && not (api.status == 429)
]

abbrev pub mentions : String → String → Bool
mentions text part = is_some (find? text part)

abbrev pub quota_words : String → Bool
quota_words m =
    mentions m "rate_limited" || mentions m "rate limited" || mentions m "429" || mentions m "quota"

abbrev pub offline_words : String → Bool
offline_words m =
    mentions m "timeout"
    || mentions m "unavailable"
    || mentions m "connection"
    || mentions m "no such host"
    || mentions m "network"

-- `none` is a nil error.
unfoldable pub publish_failure_reason : Option Failure → String
publish_failure_reason none = ""
publish_failure_reason (some f) =
    if f.is_canceled
    then "offline"
    else if quota_words f.lowered
    then "quota"
    else if mentions f.lowered "paused"
    then "paused"
    else if offline_words f.lowered
    then "offline"
    else "provider_error"

-- Durations are nanoseconds.
abbrev pub first_delay : ℕ
first_delay = 500000000

abbrev pub longest_delay : ℕ
longest_delay = 30000000000

-- `for i := 1; i < failures && base < 30s; i++ { base *= 2 }`, by the rounds left
unfoldable pub double_delay : ℕ → ℕ → ℕ
double_delay zero base = base
double_delay (suc rounds) base =
    double_delay rounds (if ltb base longest_delay then base * 2 else base)

-- `random` is none when the system gives no random bytes. `failures` is a count from 0 up.
unfoldable pub retry_delay : ℕ → Option ℕ → ℕ
unfolding double_delay
retry_delay failures random =
    let base = min (double_delay (failures - 1) first_delay) longest_delay in
    if failures == 0
    then first_delay
    else elim random [ none ↦ base | some r ↦ base * (800 + r % 401) / 1000 ]
