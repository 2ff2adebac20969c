-- ===== src/Postgres.antt =====
-- internal/connector/postgres/postgres.go: the Postgres backend.
pub mod Limit
pub mod Comments
pub mod Session
pub mod Catalog
pub mod Introspection
pub mod Backend
use querylynx.Base.{suc, not, Option, none, some, ◌++◌, if◌then◌else◌, Result, ok, err}
use querylynx.Base.Int.{ℤ, pos, negsuc, is_not_positive}
use querylynx.Strings.{Text, codes, trim_space, trim_suffix, print_int}
use querylynx.Regex.{Matcher, boundary, literal, ◌then_match◌, match_string}
use querylynx.Safety.{Violation, check}

abbrev pub default_row_cap : ℤ
default_row_cap = pos 1000

-- (?i)\blimit\b
unfoldable pub limit_re : Matcher
limit_re = boundary then_match literal (codes "limit") then_match boundary

pub record Config : Type 0 where
  pub dsn : Text
  pub row_cap : ℤ

-- `New` up to opening the pool: the configuration that the connector keeps.
unfoldable pub with_defaults : Config → Config
with_defaults cfg =
    if is_not_positive cfg.row_cap then record cfg { row_cap = default_row_cap } else cfg

inject_limit : ℤ → Text → Text
inject_limit row_cap q =
    if not (match_string limit_re q) then q ++ (codes " LIMIT " ++ print_int row_cap) else q

validate_checked : ℤ → Text → Option Violation → Result Violation Text
validate_checked row_cap query (some violation) = err violation
validate_checked row_cap query none =
    ok (inject_limit row_cap (trim_space (trim_suffix (trim_space query) b';')))

unfoldable pub validate : Config → Text → Result Violation Text
unfolding validate_checked inject_limit
validate cfg query = validate_checked cfg.row_cap query (check query)

-- The guard's error as a text.
unfoldable pub validated_text : (Violation → Text) → Result Violation Text → Result Text Text
validated_text message (ok safe) = ok safe
validated_text message (err v) = err (message v)
