-- ===== src/Command/Logger.antt =====
-- newLogger of cmd/keychain/main.go: the level of the logger. What it logs is left out.
use keychain.Base.{String, String-Comparable, ◌≡◌, refl, ◌==◌, if◌then◌else◌, none, inl, inr}
use keychain.Config.{Config, Urls, validate}
use keychain.Config.Validity.{IsLogLevel, validate_iff}

-- The levels of log/slog.
pub data Level : Type 0 where
  level_debug level_info level_warn level_error : Level

unfoldable pub logger_level : String → Level
logger_level level =
    if level == "debug"
    then level_debug
    else if level == "warn"
    then level_warn
    else if level == "error"
    then level_error
    else level_info

-- The name of a level in the configuration.
abbrev pub level_name : Level → String
level_name level_debug = "debug"
level_name level_info = "info"
level_name level_warn = "warn"
level_name level_error = "error"

IsLogLevel-level : (level : String) → IsLogLevel level → level_name (logger_level level) ≡ level
unfolding logger_level
IsLogLevel-level level (inl e) = rw e refl
IsLogLevel-level level (inr (inl e)) = rw e refl
IsLogLevel-level level (inr (inr (inl e))) = rw e refl
IsLogLevel-level level (inr (inr (inr e))) = rw e refl

-- For a configuration that Validate accepts, the logger of main.go has the level that the
-- configuration names: the default case of newLogger is taken for info only.
pub validate-level :
    (urls : Urls) (c : Config)
    → validate urls c ≡ none
    → level_name (logger_level c.log_level) ≡ c.log_level
validate-level urls c ok = IsLogLevel-level c.log_level ((validate_iff urls c).1 ok).level
