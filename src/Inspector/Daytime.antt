-- ===== src/Inspector/Daytime.antt =====
-- What `time_now_str` prints.
use hexbuffer_proxy.Prelude.{
  ℕ, zero, suc, ◌+◌, ◌*◌, ◌/◌, ◌%◌, ◌<◌, ◌≡◌, refl, ap₂, true, inl, inr, Option, [], ◌∷◌, ◌++◌,
  arith, ltb, Bool-cases,
}
use hexbuffer_proxy.Text.{Str, codes, to_string, digits_to_string, unwrap_or}
use hexbuffer_proxy.Inspector.Clock.{two_digits, time_str}

abbrev pub digits_of : ℕ → Str
digits_of n = (b'0' + n / 10) ∷ (b'0' + n % 10) ∷ []

two_digits-digits_of : (n : ℕ) → n < 100 → two_digits n ≡ digits_of n
unfolding two_digits to_string digits_to_string
two_digits-digits_of zero h = refl
two_digits-digits_of (suc zero) h = refl
two_digits-digits_of (suc (suc n)) h = elim (Bool-cases (ltb (suc (suc n)) 10)) [
  | inl small ↦
      let tens : b'0' ≡ b'0' + suc (suc n) / 10 = ground arith in
      let ones : b'0' + suc (suc n) ≡ b'0' + suc (suc n) % 10 = ground arith in
      rw small (ap₂ (λ x y. x ∷ y ∷ []) tens ones)
  | inr large ↦
      let front : ltb (suc (suc n) / 10) 10 ≡ true = ground arith in rw (large, front) refl
]

-- `time_now_str` prints a time of day: two digits each for the hours below 24, the minutes below 60 and the
-- seconds below 60, which together are the seconds since midnight, for every reading of the clock.
pub time_str_digits :
    (duration : Option ℕ)
    → (h m s : ℕ) × (h < 24)
      × (m < 60)
      × (s < 60)
      × (h * 3600 + m * 60 + s ≡ unwrap_or duration 0 % 86400)
      × (time_str duration ≡ digits_of h ++ codes ":" ++ digits_of m ++ codes ":" ++ digits_of s)
unfolding time_str
time_str_digits duration =
    let secs = unwrap_or duration 0 % 86400 in
    let h : secs / 3600 < 24 = omega arith in
    let m : secs % 3600 / 60 < 60 = omega arith in
    let s : secs % 60 < 60 = omega arith in
    (
      secs / 3600,
      secs % 3600 / 60,
      secs % 60,
      h,
      m,
      s,
      omega arith,
      rw
          (
            two_digits-digits_of (secs / 3600) (omega arith),
            two_digits-digits_of (secs % 3600 / 60) (omega arith),
            two_digits-digits_of (secs % 60) (omega arith),
          )
          refl,
    )
