-- ===== src/Config/Secrets.antt =====
-- What `redactURL` leaves of the secrets of a URL.
use keychain.Base.{
  String, String-Comparable, ◌≡◌, ◌≢◌, ◌⊎◌, inl, inr, refl, ap, Bool, true, false, ◌||◌, Option,
  none, some, List, [], ◌∷◌, map, ok, if◌then◌else◌, equal_ne, Bool-cases, arith, eq_iff,
}
use keychain.Base.Map.{Map}
use keychain.Base.Lists.{All}
use keychain.Config.{Url, Userinfo, Urls}
use keychain.Config.Redact.{
  redacted_text, redact_password, redact_user, is_secret, redact_query, redact_parsed, redact_url,
}

-- The user is kept, and a password is overwritten.
abbrev pub ScrubsUser : Option Userinfo → Option Userinfo → Type 0
ScrubsUser none v = v ≡ none
ScrubsUser (some u) v =
    ((u.password ≡ none) × (v ≡ some u))
    ⊎ ((p : String) × (u.password ≡ some p)
        × (v ≡ some (record u { password = some redacted_text })))

redact_user-Scrubs : (u : Option Userinfo) → ScrubsUser u (redact_user u).0
unfolding redact_user
redact_user-Scrubs none = refl
redact_user-Scrubs (some u) = by (u.password) refl
  where
    by : (p : Option String) → u.password ≡ p → ScrubsUser (some u) (redact_user (some u)).0
    by none e = inl (e, ap (λ p. (redact_password u p).0) e)
    by (some p) e = inr (p, e, ap (λ p. (redact_password u p).0) e)

-- There is no password.
abbrev pub NoPassword : Option Userinfo → Type 0
NoPassword none = Unit
NoPassword (some u) = u.password ≡ none

redact_user-NoPassword : (u : Option Userinfo) → (redact_user u).1 ≡ false → NoPassword u
unfolding redact_user
redact_user-NoPassword none h = tt
redact_user-NoPassword (some u) h = by u.password refl
  where
    by : (p : Option String) → u.password ≡ p → u.password ≡ none
    by none e = e
    by (some p) e = cc (h, e)

or_false : (a b : Bool) → (a || b) ≡ false → (a ≡ false) × (b ≡ false)
or_false a b e = ground arith

module _ (to_lower : String → String) where
  -- The two parameters of a connection that carry a password.
  abbrev pub IsSecret : String → Type 0
  IsSecret key = (to_lower key ≡ "password") ⊎ (to_lower key ≡ "sslpassword")

  is_secret-true : (key : String) → is_secret to_lower key ≡ true → IsSecret key
  unfolding is_secret
  is_secret-true key h =
      ground (arith, eq_iff (to_lower key) "password", eq_iff (to_lower key) "sslpassword")

  is_secret-false : (key : String) → is_secret to_lower key ≡ false → ¬ IsSecret key
  unfolding is_secret
  is_secret-false key h s =
      ground (arith, eq_iff (to_lower key) "password", eq_iff (to_lower key) "sslpassword")

  -- Each key is kept; the values of a secret one are overwritten, those of another are kept.
  abbrev pub ScrubsQuery : Map String (List String) → Map String (List String) → Type 0
  ScrubsQuery [] q' = q' ≡ []
  ScrubsQuery ((key, values) ∷ q) [] = ⊥
  ScrubsQuery ((key, values) ∷ q) ((key', values') ∷ q') =
      (key ≡ key')
      × ((IsSecret key × (values' ≡ map (λ v. redacted_text) values))
          ⊎ ((¬ IsSecret key) × (values' ≡ values)))
      × ScrubsQuery q q'

  redact_query-Scrubs : (q : Map String (List String)) → ScrubsQuery q (redact_query to_lower q).0
  unfolding redact_query
  redact_query-Scrubs [] = refl
  redact_query-Scrubs ((key, values) ∷ q) = elim (Bool-cases (is_secret to_lower key)) [
    | inl secret ↦ rw secret (refl, inl (is_secret-true key secret, refl), redact_query-Scrubs q)
    | inr plain ↦ rw plain (refl, inr (is_secret-false key plain, refl), redact_query-Scrubs q)
  ]

  abbrev pub NoSecret : Map String (List String) → Type 0
  NoSecret q = All (λ e. ¬ IsSecret e.0) q

  redact_query-NoSecret :
      (q : Map String (List String)) → (redact_query to_lower q).1 ≡ false → NoSecret q
  unfolding redact_query
  redact_query-NoSecret [] h = tt
  redact_query-NoSecret ((key, values) ∷ q) h = elim (Bool-cases (is_secret to_lower key)) [
    | inl secret ↦ cc (rw secret at h)
    | inr plain ↦ (is_secret-false key plain, redact_query-NoSecret q (rw plain at h))
  ]

  module _ (urls : Urls) (raw : String) (u : Url) (parses : urls.parse raw ≡ ok u) where
    -- The text is that of a URL whose secrets are scrubbed, and which is otherwise `u`.
    pub record Scrubs (text : String) : Type 0 where
      pub user : Option Userinfo
      pub query : Map String (List String)
      pub written : text ≡ urls.string (record u { user = user; raw_query = urls.encode query })
      pub user_scrubbed : ScrubsUser u.user user
      pub query_scrubbed : ScrubsQuery (urls.parse_query u.raw_query) query

    -- The URL carries no secret and is kept as it is.
    abbrev pub Keeps : String → Type 0
    Keeps text = (text ≡ raw) × NoPassword u.user × NoSecret (urls.parse_query u.raw_query)

    -- A URL that parses is shown as it is only if it has no password and net/url reads from its
    -- query no parameter named password or sslpassword in any case; otherwise the text shown is
    -- that of the URL with its password overwritten, if it has one, and with the query replaced by
    -- the encoding of the parameters that net/url reads from it, in which each value of such a
    -- parameter is overwritten and the others are kept; its other parts, the user name included,
    -- are those of the URL. What net/url does not read from the query, and the order in which it
    -- encodes the parameters, are outside this statement.
    pub redact_url-Scrubs :
        raw ≢ "" → Keeps (redact_url to_lower urls raw) ⊎ Scrubs (redact_url to_lower urls raw)
    unfolding redact_url redact_parsed
    redact_url-Scrubs given =
        rw (equal_ne raw "" given, parses, redact_url)
          (shown
            ((redact_user u.user).1 || (redact_query to_lower (urls.parse_query u.raw_query)).1)
            refl)
      where
        user : Option Userinfo × Bool
        user = redact_user u.user

        query : Map String (List String) × Bool
        query = redact_query to_lower (urls.parse_query u.raw_query)

        text : Bool → String
        text b =
            if b
            then urls.string (record u { user = user.0; raw_query = urls.encode query.0 })
            else raw

        shown : (b : Bool) → (user.1 || query.1) ≡ b → Keeps (text b) ⊎ Scrubs (text b)
        shown true e = inr (record {
          user = user.0;
          query = query.0;
          written = refl;
          user_scrubbed = redact_user-Scrubs u.user;
          query_scrubbed = redact_query-Scrubs (urls.parse_query u.raw_query);
        })
        shown false e =
            let (p, q) = or_false user.1 query.1 e in
            inl (
              refl,
              redact_user-NoPassword u.user p,
              redact_query-NoSecret (urls.parse_query u.raw_query) q,
            )
