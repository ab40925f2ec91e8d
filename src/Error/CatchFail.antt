-- ===== src/Error/CatchFail.antt =====
-- src/error.rs: what `catch_fail` makes of an error.
use rusty_fusion.Prelude.{◌≤◌, ◌≡◌, true, refl, ◌⊎◌, inl, inr, arith}
use native.Mathlib.Nat.{le_refl}
use rusty_fusion.Error.{
  FfError, root, chained, Severity, severity_code, min_severity, get_severity, should_dc, chain,
  Outcome, ok, err, panics, report, catch_fail,
}

min_severity-le :
    (a b : Severity)
    → (severity_code (min_severity a b) ≤ severity_code a)
      × (severity_code (min_severity a b) ≤ severity_code b)
unfolding min_severity
min_severity-le a b = ground arith

-- A chained error is at least as severe as the error behind it, and disconnects if that one does.
abbrev pub IsReported : FfError → FfError → Type 0
IsReported e e' =
    (severity_code (get_severity e') ≤ severity_code (get_severity e))
    × (should_dc e ≡ true → should_dc e' ≡ true)

chain-IsReported : (ee e : FfError) → IsReported e (chain ee e)
unfolding chain get_severity should_dc
chain-IsReported (root s msg dc) e =
    (ground (arith, min_severity-le s (get_severity e)), λ h. ground arith)
chain-IsReported (chained s msg dc parent) e =
    (ground (arith, min_severity-le s (get_severity e)), λ h. ground arith)

report_lem {ℓ κ} :
    {S : Type κ} {A : Type ℓ} (e : FfError) (r : Outcome (Unit {0}) × S)
    → ((e' : FfError) × ((report {A = A} e r).0 ≡ err e') × IsReported e e')
      ⊎ ((report {A = A} e r).0 ≡ panics)
unfolding report
report_lem e (ok u, s) = inl (e, refl, (le_refl _, λ h. h))
report_lem e (err ee, s) = inl (chain ee e, refl, chain-IsReported ee e)
report_lem e (panics, s) = inr refl

-- Whatever the failure handler does, an error that comes out of `catch_fail` for the error `e` is
-- at least as severe as `e`, and asks for a disconnect if `e` does. A failure never turns into
-- a success: the outcome is an error or the handler's panic.
pub catch_fail-IsReported {ℓ κ} :
    {S : Type κ} {A : Type ℓ} (e : FfError) (on_fail : S → Outcome (Unit {0}) × S) (s : S)
    → ((e' : FfError) × ((catch_fail {A = A} (err e) on_fail s).0 ≡ err e') × IsReported e e')
      ⊎ ((catch_fail {A = A} (err e) on_fail s).0 ≡ panics)
unfolding catch_fail
catch_fail-IsReported e on_fail s = report_lem e (on_fail s)
