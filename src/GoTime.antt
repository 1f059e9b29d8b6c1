-- ===== src/GoTime.antt =====
-- What the program uses of Go's time.Time: an instant in nanoseconds since the zero time
-- (January 1, year 1, 00:00 UTC) and a location, numbered with UTC as 0. Earlier instants do not
-- occur in the program and are not represented.
use billingrse_backend.Prelude.{ℕ, Bool, ltb, ◌==◌}

pub record Time : Type 0 where
  pub instant : ℕ
  pub location : ℕ

abbrev pub zero_time : Time
zero_time = record { instant = 0; location = 0 }

-- Time.IsZero, Time.Before, Time.After, Time.Equal compare instants; Time.UTC changes the location.
abbrev pub is_zero : Time → Bool
is_zero t = t.instant == 0

abbrev pub before : Time → Time → Bool
before t u = ltb t.instant u.instant

abbrev pub after : Time → Time → Bool
after t u = ltb u.instant t.instant

abbrev pub equal : Time → Time → Bool
equal t u = t.instant == u.instant

abbrev pub utc : Time → Time
utc t = record t { location = 0 }
