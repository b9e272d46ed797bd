-- ===== src/Backend/Auth.antt =====
-- internal/auth/middleware.go. Base64 and the comparison with a bcrypt hash are parameters; text is a
-- list of bytes.
pub mod Granted
pub mod Handler
mod Tests
use vps_dashboard.Common.{
  ℕ, Bool, true, false, not, ◌&&◌, ◌==◌, Option, none, some, List, [], ◌∷◌, Text, codes,
  if◌then◌else◌,
}
use vps_dashboard.Format.{text_eq}
use vps_dashboard.LogStream.{strip_prefix}

-- The part of the configuration that the middleware reads.
pub record Config : Type 0 where
  pub authelia_user_header : Text
  pub dashboard_username : Text
  pub dashboard_password_hash : Text
  pub app_env : Text

-- What the middleware does: the next handler runs, with the user in its context if there is one.
pub data Reply : Type 0 where
  served : Option Text → Reply
  unauthorized : Reply

abbrev pub is_empty : Text → Bool
is_empty [] = true
is_empty (c ∷ s) = false

abbrev pub basic : Text
basic = codes "Basic "

abbrev add_first : ℕ → Option (Text × Text) → Option (Text × Text)
add_first c none = none
add_first c (some (a, b)) = some (c ∷ a, b)

-- `strings.SplitN(payload, ":", 2)`, if it has two parts.
abbrev pub split_colon : Text → Option (Text × Text)
split_colon [] = none
split_colon (c ∷ s) =
    let rest = split_colon s in if c == b':' then some ([], s) else add_first c rest

module _ (decode : Text → Option Text) (matches : Text → Text → Bool) where
  abbrev check_parts : Config → Option (Text × Text) → Option Text
  check_parts cfg none = none
  check_parts cfg (some (username, password)) =
      if not (text_eq username cfg.dashboard_username)
      then none
      else if not (matches cfg.dashboard_password_hash password)
      then none
      else some username

  abbrev check_payload : Config → Option Text → Option Text
  check_payload cfg none = none
  check_payload cfg (some payload) = check_parts cfg (split_colon payload)

  abbrev check_encoded : Config → Option Text → Option Text
  check_encoded cfg none = none
  check_encoded cfg (some encoded) = check_payload cfg (decode encoded)

  -- The argument is the header Authorization.
  unfoldable pub validate_basic_auth : Config → Text → Option Text
  validate_basic_auth cfg auth = check_encoded cfg (strip_prefix basic auth)

  abbrev reply_of : Option Text → Reply
  reply_of none = unauthorized
  reply_of (some user) = served (some user)

  -- The function gives the header of a name, and the empty text where there is none.
  unfoldable pub handler : Config → (Text → Text) → Reply
  handler cfg header =
      let user = header cfg.authelia_user_header in
      if not (is_empty user)
      then served (some user)
      else if not (is_empty cfg.dashboard_password_hash)
      then reply_of (validate_basic_auth cfg (header (codes "Authorization")))
      else if text_eq cfg.app_env (codes "development")
      then served none
      else unauthorized
