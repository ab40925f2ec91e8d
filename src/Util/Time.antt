-- ===== src/Util/Time.antt =====
-- src/util.rs: instants and durations. A `SystemTime` is its nanoseconds since the Unix epoch, none
-- being before it; a `Duration` is its whole seconds. Seconds and milliseconds are unsigned words.
use rusty_fusion.Error.{Outcome, ok, panics}
use rusty_fusion.Prelude.{if◌then◌else◌, ltb, ℕ, ◌%◌, ◌*◌, ◌+◌, ◌/◌, ◌^◌}

abbrev pub SystemTime : Type 0
SystemTime = ℕ

unfoldable pub get_timestamp_ms : SystemTime → ℕ
get_timestamp_ms time = time / 1000000 % 2 ^ 64

unfoldable pub get_timestamp_sec : SystemTime → ℕ
get_timestamp_sec time = time / 1000000000 % 2 ^ 32

unfoldable pub get_systime_from_ms : ℕ → SystemTime
get_systime_from_ms timestamp_ms = timestamp_ms * 1000000

unfoldable pub get_systime_from_sec : ℕ → SystemTime
get_systime_from_sec timestamp_sec = timestamp_sec * 1000000000

unfoldable pub make_duration : ℕ → ℕ → ℕ → ℕ → Outcome ℕ
make_duration days hours mins secs =
    let total =
      secs + mins * 60 % 2 ^ 64 + hours * 60 * 60 % 2 ^ 64 + days * 24 * 60 * 60 % 2 ^ 64 in
    if ltb total (2 ^ 64) then ok total else panics
