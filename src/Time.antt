-- ===== src/Time.antt =====
-- The clock. An instant is the number of microseconds since the first day that `datetime` has, a
-- `timedelta` a number of microseconds; `timezone.now()` is an argument `now` of what reads it.
use hamromentorback.Base.{ℕ, ◌*◌, Bool, true, Option, none, some, leb}

abbrev pub Time : Type 0
Time = ℕ

abbrev pub minutes : ℕ → ℕ
minutes n = 60_000_000 * n

abbrev pub days : ℕ → ℕ
days n = 86_400_000_000 * n

-- `Q(expires_at__isnull=True) | Q(expires_at__gte=now)`
abbrev pub is_unexpired : Time → Option Time → Bool
is_unexpired now none = true
is_unexpired now (some e) = leb now e
