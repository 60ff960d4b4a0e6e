-- ===== src/RateLimit/Window.antt =====
-- How many attempts the limiter of apps/accounts/ratelimit.py lets through.
use tucano.Prelude.{
  ℕ, ◌+◌, ◌≤◌, ◌<◌, suc, ◌≡◌, some, String, List, [], ◌∷◌, leb, arith, Bool-cases, inl, inr,
}
use tucano.RateLimit.Backend.{Cache, or_zero, enforce_rate_limit, passed}

-- The instants are in order, none before `from`, and all before `until`.
abbrev pub Within : ℕ → ℕ → List ℕ → Type 0
Within from until [] = Unit
Within from until (at ∷ later) = (from ≤ at) × (at < until) × Within at until later

module _ (cache : Cache) where
  -- The key holds the value `n` at each instant from `from` on, up to `until`.
  abbrev Holds : String → ℕ → ℕ → ℕ → cache.Store → Type 0
  Holds key n from until s = (at : ℕ) → from ≤ at → at < until → cache.get key at s ≡ some n

  passed-Holds :
      (key : String) (limit window n from until : ℕ) (attempts : List ℕ) (s : cache.Store)
      → n ≤ limit
      → until ≤ from + window
      → Holds key n from until s
      → Within from until attempts
      → passed cache key limit window attempts s + n ≤ limit
  unfolding passed enforce_rate_limit
  passed-Holds key limit window n from until [] s le wide holds in_order = omega arith
  passed-Holds key limit window n from until (now ∷ later) s le wide holds in_order =
      let here : cache.get key now s ≡ some n = holds now in_order.0 in_order.1 in
      let after = in_order.2 in
      elim (Bool-cases (leb limit n)) [
        | inl full ↦
            let rest =
              passed-Holds key limit window n now until later s le (omega arith)
                (λ at le₁ lt. holds at (omega arith) lt) after in
            rw here (rw full rest)
        | inr room ↦
            let s' = cache.set key (suc n) window now s in
            let rest =
              passed-Holds key limit window (suc n) now until later s' (ground arith) (omega arith)
                (λ at le₁ lt. cache.get-set key (suc n) window now at s le₁ (omega arith)) after in
            rw here (rw room (omega arith))
      ]

  passed-until :
      (key : String) (limit window from until : ℕ) (attempts : List ℕ) (s : cache.Store)
      → until ≤ from + window
      → Within from until attempts
      → passed cache key limit window attempts s ≤ limit
  unfolding passed enforce_rate_limit
  passed-until key limit window from until [] s wide in_order = omega arith
  passed-until key limit window from until (now ∷ later) s wide in_order =
      let after = in_order.2 in
      let n = or_zero (cache.get key now s) in
      elim (Bool-cases (leb limit n)) [
        | inl full ↦ rw full (passed-until key limit window now until later s (omega arith) after)
        | inr room ↦
            let s' = cache.set key (suc n) window now s in
            let rest =
              passed-Holds key limit window (suc n) now until later s' (ground arith) (omega arith)
                (λ at le₁ lt. cache.get-set key (suc n) window now at s le₁ (omega arith)) after in
            rw room (omega arith)
      ]

  -- Whatever the cache holds, of the attempts under one key, in order of time, within any stretch
  -- of time as long as the window, at most `limit` pass.
  pub passed-le :
      (key : String) (limit window from : ℕ) (attempts : List ℕ) (s : cache.Store)
      → Within from (from + window) attempts
      → passed cache key limit window attempts s ≤ limit
  passed-le key limit window from attempts s in_order =
      passed-until key limit window from (from + window) attempts s (omega arith) in_order
