-- ===== src/Policy/UrlAuth/Time.antt =====
-- src/policy/UrlAuthenticator.cpp: the time of a credential.
use model_lib.Base.{ℕ, ◌+◌, ◌-◌, ◌^◌, Bool, false, not, ◌&&◌, ◌||◌, ltb}

-- A `std::int64_t`; `negsuc n` is -(n + 1).
pub data ℤ : Type 0 where
  pos : ℕ → ℤ
  negsuc : ℕ → ℤ

unfoldable pub fresh : ℕ → ℕ → ℤ → Bool
fresh timestamp validity (negsuc n) = false
fresh timestamp validity (pos now) = not (
    (ltb now timestamp && ltb 300 (timestamp - now))
    || ltb (2 ^ 63 - 1 - validity) timestamp
    || ltb (timestamp + validity) now)
