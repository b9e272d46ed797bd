-- ===== src/Backend/Auth/Granted.antt =====
-- Code: internal/auth/middleware.go.
-- The header Authorization: which names and passwords are accepted.
use vps_dashboard.Common.{
  ℕ, ◌≡◌, refl, ap, ◌∙◌, arith, Bool, true, false, not, ◌==◌, Option, none, some, [], ◌∷◌, ◌++◌,
  Text, if◌then◌else◌, All,
}
use vps_dashboard.Format.{text_eq}
use vps_dashboard.LogStream.{strip_prefix}
use vps_dashboard.Backend.Auth.{
  Config, basic, split_colon, add_first, check_parts, check_payload, check_encoded,
  validate_basic_auth,
}

text_eq-eq : (s t : Text) → text_eq s t ≡ true → s ≡ t
text_eq-eq [] [] h = refl
text_eq-eq [] (d ∷ t) h = ground (arith, h)
text_eq-eq (c ∷ s) [] h = ground (arith, h)
text_eq-eq (c ∷ s) (d ∷ t) h = ground (arith, h, text_eq-eq s t)

text_eq_refl : (s : Text) → text_eq s s ≡ true
text_eq_refl [] = refl
text_eq_refl (c ∷ s) = ground (arith, text_eq_refl s)

strip_prefix-eq : (p s rest : Text) → strip_prefix p s ≡ some rest → s ≡ p ++ rest
strip_prefix-eq [] s rest h = ground (arith, h)
strip_prefix-eq (d ∷ p) [] rest h = ground (arith, h)
strip_prefix-eq (d ∷ p) (c ∷ s) rest h = ground (arith, h, strip_prefix-eq p s rest)

strip_prefix-append : (p rest : Text) → strip_prefix p (p ++ rest) ≡ some rest
strip_prefix-append [] rest = refl
strip_prefix-append (d ∷ p) rest = ground (arith, strip_prefix-append p rest)

-- No byte is a colon.
abbrev pub HasNoColon : Text → Type 0
HasNoColon s = All (λ c. (c == b':') ≡ false) s

split_colon-append : (a b : Text) → HasNoColon a → split_colon (a ++ b':' ∷ b) ≡ some (a, b)
split_colon-append [] b h = refl
split_colon-append (c ∷ a) b h = rw (h.0, split_colon-append a b h.1) refl

-- The parts are those of the payload at a colon.
abbrev Joins : Text → Option (Text × Text) → Type 0
Joins s none = Unit
Joins s (some (a, b)) = s ≡ a ++ b':' ∷ b

add_first-Joins :
    (c : ℕ) (s : Text) (o : Option (Text × Text)) → Joins s o → Joins (c ∷ s) (add_first c o)
add_first-Joins c s none h = tt
add_first-Joins c s (some (a, b)) h = ap (λ t. c ∷ t) h

at_colon :
    (here : Bool) (c : ℕ) (s : Text) (o : Option (Text × Text))
    → (here ≡ true → c ≡ b':')
    → Joins (c ∷ s) o
    → Joins (c ∷ s) (if here then some ([], s) else o)
at_colon true c s o colon h = ap (λ d. d ∷ s) (colon refl)
at_colon false c s o colon h = h

split_colon-Joins : (s : Text) → Joins s (split_colon s)
split_colon-Joins [] = tt
split_colon-Joins (c ∷ s) =
    at_colon (c == b':') c s (add_first c (split_colon s)) (λ e. ground (arith, e))
      (add_first-Joins c s (split_colon s) (split_colon-Joins s))

module _ (decode : Text → Option Text) (matches : Text → Text → Bool) where
  -- The header holds the name from the configuration and a password that the hash is of.
  pub record HasPassword (cfg : Config) (auth user : Text) : Type 0 where
    pub encoded : Text
    pub password : Text
    pub sent : auth ≡ basic ++ encoded
    pub decoded : decode encoded ≡ some (user ++ b':' ∷ password)
    pub named : user ≡ cfg.dashboard_username
    pub proved : matches cfg.dashboard_password_hash password ≡ true

  abbrev pub Accepted : Config → Text → Option Text → Type 0
  Accepted cfg auth none = Unit
  Accepted cfg auth (some user) = HasPassword cfg auth user

  both :
      (cfg : Config) (auth user : Text) (a b : Bool)
      → (a ≡ true → b ≡ true → HasPassword cfg auth user)
      → Accepted cfg auth (if not a then none else if not b then none else some user)
  both cfg auth user true true h = h refl refl
  both cfg auth user true false h = tt
  both cfg auth user false b h = tt

  parts-Accepted :
      (cfg : Config) (auth encoded payload : Text) (parts : Option (Text × Text))
      → auth ≡ basic ++ encoded
      → decode encoded ≡ some payload
      → Joins payload parts
      → Accepted cfg auth (check_parts decode matches cfg parts)
  parts-Accepted cfg auth encoded payload none sent d j = tt
  parts-Accepted cfg auth encoded payload (some (user, password)) sent d j =
      both cfg auth user (text_eq user cfg.dashboard_username)
        (matches cfg.dashboard_password_hash password)
        (λ e k. record {
          encoded = encoded;
          password = password;
          sent = sent;
          decoded = d ∙ ap some j;
          named = text_eq-eq user cfg.dashboard_username e;
          proved = k;
        })

  payload-Accepted :
      (cfg : Config) (auth encoded : Text) (payload : Option Text)
      → auth ≡ basic ++ encoded
      → decode encoded ≡ payload
      → Accepted cfg auth (check_payload decode matches cfg payload)
  payload-Accepted cfg auth encoded none sent d = tt
  payload-Accepted cfg auth encoded (some payload) sent d =
      parts-Accepted cfg auth encoded payload (split_colon payload) sent d
        (split_colon-Joins payload)

  encoded-Accepted :
      (cfg : Config) (auth : Text) (encoded : Option Text)
      → strip_prefix basic auth ≡ encoded
      → Accepted cfg auth (check_encoded decode matches cfg encoded)
  encoded-Accepted cfg auth none e = tt
  encoded-Accepted cfg auth (some encoded) e =
      payload-Accepted cfg auth encoded (decode encoded) (strip_prefix-eq basic auth encoded e) refl

  pub validate-Accepted :
      (cfg : Config) (auth : Text) → Accepted cfg auth (validate_basic_auth decode matches cfg auth)
  unfolding validate_basic_auth
  validate-Accepted cfg auth = encoded-Accepted cfg auth (strip_prefix basic auth) refl

  pub validate-eq-some :
      (cfg : Config) (auth user : Text)
      → HasNoColon cfg.dashboard_username
      → HasPassword cfg auth user
      → validate_basic_auth decode matches cfg auth ≡ some user
  unfolding validate_basic_auth
  validate-eq-some cfg auth user colonless p =
      let decoded : decode p.encoded ≡ some (cfg.dashboard_username ++ b':' ∷ p.password) =
        p.decoded ∙ ap (λ u. some (u ++ b':' ∷ p.password)) p.named in
      let stripped = strip_prefix-append basic p.encoded in
      let parted = split_colon-append cfg.dashboard_username p.password colonless in
      let same = text_eq_refl cfg.dashboard_username in
      ap (λ a. check_encoded decode matches cfg (strip_prefix basic a)) p.sent
      ∙ ap (check_encoded decode matches cfg) stripped
      ∙ ap (check_payload decode matches cfg) decoded
      ∙ ap (check_parts decode matches cfg) parted
      ∙ rw (same, p.proved, p.named) refl
