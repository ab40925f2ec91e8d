-- ===== src/Error.antt =====
-- src/error.rs: severities, error values and their chain, and the result type of fallible code.
-- A message is its fixed text, without the values that `format!` puts in, and the time stamp of an
-- error is left out: no code branches on either. A chain is a constructor of its own.
pub mod CatchFail
pub mod Results
use rusty_fusion.Prelude.{
  ℕ, String, Bool, true, false, ◌||◌, Option, none, some, if◌then◌else◌, leb,
}

pub data Severity : Type 0 where
  debug info warning fatal : Severity

-- The discriminants, by which the derived order compares: the lowest is the most severe.
unfoldable pub severity_code : Severity → ℕ
severity_code debug = 3
severity_code info = 2
severity_code warning = 1
severity_code fatal = 0

-- `std::cmp::min` returns its first argument on a tie.
unfoldable pub min_severity : Severity → Severity → Severity
unfolding severity_code
min_severity a b = if leb (severity_code a) (severity_code b) then a else b

-- `root` has no parent.
pub data FfError : Type 0 where
  root : Severity → String → Bool → FfError
  chained : Severity → String → Bool → FfError → FfError

abbrev pub build : Severity → String → FfError
build severity msg = root severity msg false

abbrev pub build_dc : Severity → String → FfError
build_dc severity msg = root severity msg true

-- The kinds of `std::io::ErrorKind` that the code names; `other_kind` is any other.
pub data IoErrorKind : Type 0 where
  unexpected_eof broken_pipe connection_reset connection_aborted would_block timed_out : IoErrorKind
  other_kind : IoErrorKind

io_severity : IoErrorKind → Severity
io_severity timed_out = warning
io_severity other_kind = warning
io_severity _ = debug

io_should_dc : IoErrorKind → Bool
io_should_dc would_block = false
io_should_dc timed_out = false
io_should_dc _ = true

unfoldable pub from_io_err : IoErrorKind → FfError
unfolding io_severity io_should_dc
from_io_err kind = root (io_severity kind) "I/O error" (io_should_dc kind)

-- The parent that the error had is replaced.
unfoldable pub chain : FfError → FfError → FfError
chain (root severity msg dc) other = chained severity msg dc other
chain (chained severity msg dc parent) other = chained severity msg dc other

unfoldable pub get_severity : FfError → Severity
unfolding min_severity
get_severity (root severity msg dc) = severity
get_severity (chained severity msg dc parent) = min_severity severity (get_severity parent)

unfoldable pub should_dc : FfError → Bool
should_dc (root severity msg dc) = dc
should_dc (chained severity msg dc parent) = dc || should_dc parent

-- `FFResult<T>`, with a third outcome for code that panics.
pub data Outcome {ℓ} (A : Type ℓ) : Type ℓ where
  ok : A → Outcome A
  err : FfError → Outcome A
  panics : Outcome A

infixl 5 ◌>>=◌ ◌>>◌
abbrev pub ◌>>=◌ {ℓ κ} : {A : Type ℓ} {B : Type κ} → Outcome A → (A → Outcome B) → Outcome B
ok a >>= f = f a
err e >>= f = err e
panics >>= f = panics

abbrev pub ◌>>◌ {ℓ} : {B : Type ℓ} → Outcome (Unit {0}) → Outcome B → Outcome B
m >> k = m >>= λ _. k

-- `if !test { return Err(e) }`
abbrev pub guard : Bool → FfError → Outcome (Unit {0})
guard true e = ok tt
guard false e = err e

-- `.ok_or(e)?`
abbrev pub ok_or {ℓ} : {A : Type ℓ} → Option A → FfError → Outcome A
ok_or none e = err e
ok_or (some a) e = ok a

-- `.unwrap()` of an option and of a result.
abbrev pub unwrap {ℓ} : {A : Type ℓ} → Option A → Outcome A
unwrap none = panics
unwrap (some a) = ok a

abbrev pub unwrap_result {ℓ} : {A : Type ℓ} → Outcome A → Outcome A
unwrap_result (ok a) = ok a
unwrap_result (err e) = panics
unwrap_result panics = panics

module _ {ℓ κ} {S : Type κ} {A : Type ℓ} where
  unfoldable pub report : FfError → Outcome (Unit {0}) × S → Outcome A × S
  report e (ok _, s) = (err e, s)
  report e (err ee, s) = (err (chain ee e), s)
  report e (panics, s) = (panics, s)

  -- `on_fail` is a closure that may change the state `S` that it captures.
  unfoldable pub catch_fail : Outcome A → (S → Outcome (Unit {0}) × S) → S → Outcome A × S
  unfolding report chain
  catch_fail (ok a) on_fail s = (ok a, s)
  catch_fail panics on_fail s = (panics, s)
  catch_fail (err e) on_fail s = report e (on_fail s)
