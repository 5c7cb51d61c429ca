-- ===== src/Logger/Domains.antt =====
-- Which hosts `PassthroughHandler` leaves alone.
use hexbuffer_proxy.Prelude.{
  ◌≡◌, refl, ap, true, ◌⊎◌, inl, inr, ◌↔◌, List, [], ◌∷◌, ◌++◌, arith, Bool-cases,
}
use hexbuffer_proxy.Text.{Str, codes, equal, ends_with}
use hexbuffer_proxy.Text.Equal.{equal_iff, equal_self}
use hexbuffer_proxy.Logger.Handlers.{is_passed}

-- A text that ends in another.
abbrev pub EndsIn : Str → Str → Type 0
EndsIn suffix s = (front : Str) × (s ≡ front ++ suffix)

ends_with-EndsIn : (suffix s : Str) → ends_with suffix s ≡ true → EndsIn suffix s
unfolding ends_with
ends_with-EndsIn suffix [] h = ([], (equal_iff [] suffix).0 h)
ends_with-EndsIn suffix (c ∷ s) h = elim (Bool-cases (equal (c ∷ s) suffix)) [
  | inl same ↦ ([], (equal_iff (c ∷ s) suffix).0 same)
  | inr differ ↦
      let (front, e) = ends_with-EndsIn suffix s (ground arith) in (c ∷ front, ap (◌∷◌ c) e)
]

ends_with_self : (s : Str) → ends_with s s ≡ true
unfolding ends_with
ends_with_self [] = equal_self []
ends_with_self (c ∷ s) = rw (equal_self (c ∷ s)) refl

ends_with-append : (front suffix : Str) → ends_with suffix (front ++ suffix) ≡ true
unfolding ends_with
ends_with-append [] suffix = ends_with_self suffix
ends_with-append (c ∷ front) suffix = ground (arith, ends_with-append front suffix)

-- The host is one of the domains, or a name below one of them.
abbrev pub IsWithin : List Str → Str → Type 0
IsWithin [] host = ⊥
IsWithin (p ∷ ps) host = (host ≡ p) ⊎ EndsIn (codes "." ++ p) host ⊎ IsWithin ps host

is_passed-IsWithin : (ps : List Str) (host : Str) → is_passed ps host ≡ true → IsWithin ps host
unfolding is_passed
is_passed-IsWithin [] host h = cc
is_passed-IsWithin (p ∷ ps) host h = elim (Bool-cases (equal host p)) [
  | inl same ↦ inl ((equal_iff host p).0 same)
  | inr differ ↦ elim (Bool-cases (ends_with (codes "." ++ p) host)) [
    | inl below ↦ inr (inl (ends_with-EndsIn (codes "." ++ p) host below))
    | inr apart ↦ inr (inr (is_passed-IsWithin ps host (ground arith)))
  ]
]

IsWithin-is_passed : (ps : List Str) (host : Str) → IsWithin ps host → is_passed ps host ≡ true
unfolding is_passed
IsWithin-is_passed [] host h = elim h [ ]
IsWithin-is_passed (p ∷ ps) host (inl same) = ground (arith, equal_iff host p)
IsWithin-is_passed (p ∷ ps) host (inr (inl (front, e))) =
    let below : ends_with (codes "." ++ p) host ≡ true =
      rw e (ends_with-append front (codes "." ++ p)) in
    ground arith
IsWithin-is_passed (p ∷ ps) host (inr (inr more)) = ground (arith, IsWithin-is_passed ps host more)

pub is_passed_iff : (ps : List Str) (host : Str) → (is_passed ps host ≡ true) ↔ IsWithin ps host
is_passed_iff ps host = (is_passed-IsWithin ps host, IsWithin-is_passed ps host)
