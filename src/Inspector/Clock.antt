-- ===== src/Inspector/Clock.antt =====
-- examples/test_app/handlers.rs: the clocks that the application reads, and `time_now_str`.
use hexbuffer_proxy.Prelude.{ℕ, suc, ◌-◌, ◌/◌, ◌%◌, ◌^◌, ◌++◌, ◌∷◌, Option, ltb, if◌then◌else◌}
use hexbuffer_proxy.Text.{Str, codes, to_string, unwrap_or}

-- What the clocks say at each reading: `Instant` in milliseconds, `SystemTime` in seconds since the epoch,
-- or none before it; and the number of readings so far.
pub record Clock : Type 0 where
  pub instants : ℕ → ℕ
  pub times : ℕ → Option ℕ
  pub readings : ℕ

-- `Instant::now()`.
abbrev pub instant_now : Clock → ℕ × Clock
instant_now c = (c.instants c.readings, record c { readings = suc c.readings })

-- `start.elapsed().as_millis() as u64`; `elapsed` is nothing where the clock went back.
abbrev pub elapsed_ms : ℕ → Clock → ℕ × Clock
elapsed_ms start c = let (now, c') = instant_now c in ((now - start) % 2 ^ 64, c')

-- `{:02}`.
unfoldable pub two_digits : ℕ → Str
two_digits n = if ltb n 10 then b'0' ∷ to_string n else to_string n

-- `time_now_str` at a reading.
unfoldable pub time_str : Option ℕ → Str
unfolding two_digits
time_str duration =
    let secs = unwrap_or duration 0 % 86400 in
    two_digits (secs / 3600)
    ++ codes ":"
    ++ two_digits (secs % 3600 / 60)
    ++ codes ":"
    ++ two_digits (secs % 60)

abbrev pub time_now_str : Clock → Str × Clock
time_now_str c = (time_str (c.times c.readings), record c { readings = suc c.readings })
