-- ===== src/Config/Redact.antt =====
-- `Redacted` and `redactURL` of internal/config/config.go.
use keychain.Base.{
  String, String-Comparable, Bool, true, false, ◌||◌, Option, none, some, List, [], ◌∷◌, map, ok,
  err, ◌==◌, if◌then◌else◌,
}
use keychain.Base.Map.{Map}
use keychain.Config.{Config, Url, Userinfo, Urls}

abbrev pub redacted_text : String
redacted_text = "REDACTED"

-- The user with the password scrubbed, and whether there was one.
abbrev pub redact_password : Userinfo → Option String → Option Userinfo × Bool
redact_password u none = (some u, false)
redact_password u (some p) = (some (record u { password = some redacted_text }), true)

unfoldable pub redact_user : Option Userinfo → Option Userinfo × Bool
redact_user none = (none, false)
redact_user (some u) = redact_password u u.password

module _ (to_lower : String → String) where
  unfoldable pub is_secret : String → Bool
  is_secret key = to_lower key == "password" || to_lower key == "sslpassword"

  -- The loop over the query; a value in it is overwritten in place.
  unfoldable pub redact_query : Map String (List String) → Map String (List String) × Bool
  unfolding is_secret
  redact_query [] = ([], false)
  redact_query ((key, values) ∷ q) =
      let rest = redact_query q in
      if is_secret key
      then ((key, map (λ v. redacted_text) values) ∷ rest.0, true)
      else ((key, values) ∷ rest.0, rest.1)

  module _ (urls : Urls) where
    unfoldable pub redact_parsed : String → Url → String
    unfolding redact_user redact_query
    redact_parsed raw u =
        let user = redact_user u.user in
        let query = redact_query (urls.parse_query u.raw_query) in
        if user.1 || query.1
        then urls.string (record u { user = user.0; raw_query = urls.encode query.0 })
        else raw

    unfoldable pub redact_url : String → String
    unfolding redact_parsed
    redact_url raw =
        if raw == "" then "" else elim (urls.parse raw) [ err e ↦ raw | ok u ↦ redact_parsed raw u ]

    unfoldable pub redacted : Config → Config
    unfolding redact_url
    redacted c = record c { postgres_url = redact_url c.postgres_url }
