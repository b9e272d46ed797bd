-- ===== src/Backend/Auth/Handler.antt =====
-- Code: Handler of internal/auth/middleware.go.
-- Which requests reach the next handler, and as which user.
use vps_dashboard.Common.{
  ◌≡◌, ◌↔◌, refl, subst, Bool, true, false, not, Option, none, some, Text, codes, if◌then◌else◌,
}
use vps_dashboard.Format.{text_eq}
use vps_dashboard.Backend.Auth.{
  Config, Reply, served, unauthorized, is_empty, validate_basic_auth, reply_of, handler,
}
use vps_dashboard.Backend.Auth.Granted.{
  HasNoColon, HasPassword, Accepted, validate-Accepted, validate-eq-some,
}

module _ (decode : Text → Option Text) (matches : Text → Text → Bool) where
  -- A request is let through by the header that the proxy sets; without it by the password, if one
  -- is configured; without both in development only.
  pub data IsGranted (cfg : Config) (header : Text → Text) : Option Text → Type 0 where
    by_header :
        is_empty (header cfg.authelia_user_header) ≡ false
        → IsGranted cfg header (some (header cfg.authelia_user_header))
    by_password :
        {user : Text}
        → is_empty (header cfg.authelia_user_header) ≡ true
        → is_empty cfg.dashboard_password_hash ≡ false
        → HasPassword decode matches cfg (header (codes "Authorization")) user
        → IsGranted cfg header (some user)
    in_development :
        is_empty (header cfg.authelia_user_header) ≡ true
        → is_empty cfg.dashboard_password_hash ≡ true
        → text_eq cfg.app_env (codes "development") ≡ true
        → IsGranted cfg header none

  abbrev Sound : Config → (Text → Text) → Reply → Type 0
  Sound cfg header unauthorized = Unit
  Sound cfg header (served who) = IsGranted cfg header who

  reply-Sound :
      (cfg : Config) (header : Text → Text) (found : Option Text)
      → is_empty (header cfg.authelia_user_header) ≡ true
      → is_empty cfg.dashboard_password_hash ≡ false
      → Accepted decode matches cfg (header (codes "Authorization")) found
      → Sound cfg header (reply_of decode matches found)
  reply-Sound cfg header none e k a = tt
  reply-Sound cfg header (some user) e k a = by_password e k a

  choice-Sound :
      (cfg : Config) (header : Text → Text) (no_user no_hash development : Bool)
      (found : Option Text)
      → is_empty (header cfg.authelia_user_header) ≡ no_user
      → is_empty cfg.dashboard_password_hash ≡ no_hash
      → text_eq cfg.app_env (codes "development") ≡ development
      → Accepted decode matches cfg (header (codes "Authorization")) found
      → Sound cfg header (
          if not no_user
          then served (some (header cfg.authelia_user_header))
          else if not no_hash
          then reply_of decode matches found
          else if development
          then served none
          else unauthorized)
  choice-Sound cfg header false no_hash development found e k d a = by_header e
  choice-Sound cfg header true false development found e k d a = reply-Sound cfg header found e k a
  choice-Sound cfg header true true true found e k d a = in_development e k d
  choice-Sound cfg header true true false found e k d a = tt

  handler-Sound :
      (cfg : Config) (header : Text → Text) → Sound cfg header (handler decode matches cfg header)
  unfolding handler
  handler-Sound cfg header =
      choice-Sound cfg header (is_empty (header cfg.authelia_user_header))
        (is_empty cfg.dashboard_password_hash) (text_eq cfg.app_env (codes "development"))
        (validate_basic_auth decode matches cfg (header (codes "Authorization"))) refl refl refl
        (validate-Accepted decode matches cfg (header (codes "Authorization")))

  granted-served :
      (cfg : Config) (header : Text → Text) (who : Option Text)
      → HasNoColon cfg.dashboard_username
      → IsGranted cfg header who
      → handler decode matches cfg header ≡ served who
  unfolding handler
  granted-served cfg header who colonless (by_header e) = rw e refl
  granted-served cfg header who colonless (by_password {user} e k p) =
      let found =
        validate-eq-some decode matches cfg (header (codes "Authorization")) user colonless p in
      rw (e, k, found) refl
  granted-served cfg header who colonless (in_development e k d) = rw (e, k, d) refl

  -- If the name in the configuration holds no colon, the middleware runs the next handler for
  -- exactly these requests: as the user whom the proxy's header names; without that header,
  -- where a password hash is set, as the user from the configuration with a password that the
  -- hash is of; and as nobody in development, without that header and where no hash is set.
  pub handler_lem :
      (cfg : Config) (header : Text → Text) (who : Option Text)
      → HasNoColon cfg.dashboard_username
      → (handler decode matches cfg header ≡ served who) ↔ IsGranted cfg header who
  handler_lem cfg header who colonless = (
    λ e. subst (Sound cfg header) e (handler-Sound cfg header),
    granted-served cfg header who colonless,
  )
