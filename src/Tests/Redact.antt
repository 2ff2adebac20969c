-- ===== src/Tests/Redact.antt =====
-- Connection strings as they are shown.
use querylynx.Base.{Option, none, ◌++◌, ◌≡◌, refl, inr}
use querylynx.Strings.{Text, codes}
use querylynx.Connector.Redact.{Url, redact_pairs, redact_dsn}
use querylynx.Connector.Redact.Hides.{redact_dsn-pair}
use querylynx.Tests.Running.{run_redact}

abbrev no_url : Text → Option Url
no_url dsn = none

redact_dsn_pairs :
    redact_dsn no_url (codes "host=h PASSWORD=secret db=x password= y")
    ≡ codes "host=h PASSWORD=*** db=x password= y"
unfolding run_redact
redact_dsn_pairs = refl

redact_dsn-pair_example :
    redact_dsn no_url (codes "host=h Password=secret db=x")
    ≡ redact_pairs (codes "host=h ") ++ (codes "Password=***" ++ redact_pairs (codes " db=x"))
unfolding run_redact
redact_dsn-pair_example =
    redact_dsn-pair no_url (codes "host=h ") (codes "Password=") (codes "ecret") (codes " db=x")
      b's' tt (inr (codes "host=h", refl)) (inr (codes "db=x", refl)) refl refl
      (refl, (refl, (refl, (refl, (refl, tt)))))
