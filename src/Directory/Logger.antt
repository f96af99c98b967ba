-- ===== src/Directory/Logger.antt =====
-- testdirectory/testingt.go: a logger, a number here, in the place of a `testing.T`.
use gldap.Base.{Option, none, some, ℕ}
use gldap.Outcome.{Outcome, err, ok, panic, plain}

-- `NewLogger`
unfoldable pub new_logger : (logger : Option ℕ) → Outcome ℕ
new_logger none = err plain
new_logger (some l) = ok l

-- `FailNow`
abbrev pub fail_now : (logger : ℕ) → Outcome (Unit {0})
fail_now l = panic
