-- ===== src/Backend/Auth/Tests.antt =====
-- Code: internal/auth/middleware.go.
-- A server with a password, where encoding and hashing change nothing.
use vps_dashboard.Common.{◌≡◌, ◌↔◌, refl, Option, some, [], ◌++◌, Text, codes, if◌then◌else◌}
use vps_dashboard.Format.{text_eq}
use vps_dashboard.Backend.Auth.{Config, served, unauthorized, basic, validate_basic_auth, handler}
use vps_dashboard.Backend.Auth.Handler.{IsGranted, handler_lem}

abbrev decode : Text → Option Text
decode encoded = some encoded

abbrev cfg : Config
cfg = record {
  authelia_user_header = codes "Remote-User";
  dashboard_username = codes "ada";
  dashboard_password_hash = codes "a:b";
  app_env = codes "development";
}

abbrev with_auth : Text → Text → Text
with_auth auth name = if text_eq name (codes "Authorization") then auth else []

abbrev right : Text → Text
right = with_auth (basic ++ codes "ada:a:b")

let_in : handler decode text_eq cfg right ≡ served (some (codes "ada"))
unfolding handler validate_basic_auth
let_in = refl

refused : handler decode text_eq cfg (with_auth (codes "Bearer ada:a:b")) ≡ unauthorized
unfolding handler validate_basic_auth
refused = refl

-- Without any header a server that has a password does not fall back on development.
not_free : handler decode text_eq cfg (with_auth []) ≡ unauthorized
unfolding handler validate_basic_auth
not_free = refl

handler_lem_example :
    (handler decode text_eq cfg right ≡ served (some (codes "ada")))
    ↔ IsGranted decode text_eq cfg right (some (codes "ada"))
handler_lem_example =
    handler_lem decode text_eq cfg right (some (codes "ada")) (refl, (refl, (refl, tt)))
