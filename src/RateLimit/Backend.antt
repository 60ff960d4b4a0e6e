-- ===== src/RateLimit/Backend.antt =====
-- apps/accounts/ratelimit.py and config/middleware.py. The cache is Django's, kept in Redis: an
-- interface, with what its documentation promises of `get` and `set`.
use tucano.Prelude.{
  ℕ, ◌+◌, ◌≤◌, ◌<◌, suc, ◌≡◌, ◌≢◌, Bool, true, false, Option, none, some, String, List, [], ◌∷◌,
  ◌&&◌, leb, ◌+++◌, if◌then◌else◌,
}

-- `django.core.cache.cache`: a value that was set is there until its timeout has passed, and
-- setting a key leaves the others alone. Instants are seconds.
pub record Cache : Type 1 where
  pub Store : Type 0
  pub get : String → ℕ → Store → Option ℕ
  pub set : String → ℕ → ℕ → ℕ → Store → Store
  pub get-set :
      (key : String) (value timeout now at : ℕ) (s : Store)
      → now ≤ at
      → at < now + timeout
      → get key at (set key value timeout now s) ≡ some value
  pub get-set_expired :
      (key : String) (value timeout now at : ℕ) (s : Store)
      → now + timeout ≤ at
      → get key at (set key value timeout now s) ≡ none
  pub get-set_other :
      (key other : String) (value timeout now at : ℕ) (s : Store)
      → key ≢ other
      → get other at (set key value timeout now s) ≡ get other at s

-- `cache.get(key, 0)`
abbrev pub or_zero : Option ℕ → ℕ
or_zero none = 0
or_zero (some n) = n

module _ (cache : Cache) where
  -- `enforce_rate_limit` at the instant `now`: whether it lets the attempt pass, or raises.
  unfoldable pub enforce_rate_limit : String → ℕ → ℕ → ℕ → cache.Store → Bool × cache.Store
  enforce_rate_limit key limit window now s =
      let counted = or_zero (cache.get key now s) in
      if leb limit counted then (false, s) else (true, cache.set key (suc counted) window now s)

  -- `RateLimitMixin.dispatch`: whether the view runs. The identity is the user's key, or the
  -- address.
  unfoldable pub dispatch : Bool → String → String → ℕ → ℕ → ℕ → cache.Store → Bool × cache.Store
  dispatch is_post view_class identity limit window now s =
      if is_post
      then enforce_rate_limit ("ratelimit:" +++ view_class +++ ":" +++ identity) limit window now s
      else (true, s)

  -- `AdminLoginRateLimitMiddleware.__call__`: whether the request is passed on.
  unfoldable pub admin_login : Bool → Bool → String → ℕ → cache.Store → Bool × cache.Store
  admin_login is_login_path is_post address now s =
      if is_login_path && is_post
      then enforce_rate_limit ("ratelimit:admin-login:" +++ address) 10 300 now s
      else (true, s)

  -- How many of the attempts at these instants pass.
  unfoldable pub passed : String → ℕ → ℕ → List ℕ → cache.Store → ℕ
  passed key limit window [] s = 0
  passed key limit window (now ∷ later) s =
      let (pass, s') = enforce_rate_limit key limit window now s in
      let rest = passed key limit window later s' in if pass then suc rest else rest
