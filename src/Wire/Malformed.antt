-- ===== src/Wire/Malformed.antt =====
-- Requests that `parse_raw_request` cannot build.
use hexbuffer_proxy.Prelude.{
  ◌≡◌, refl, true, List, [], ◌∷◌, ◌⊎◌, inl, inr, Option, none, some, Bool-cases, Option-cases, All,
  ok, panic,
}
use hexbuffer_proxy.Text.{
  Bytes, Str, codes, from_utf8_lossy, lines, split_whitespace, next, nth_1, unwrap_or,
}
use hexbuffer_proxy.Http.{HttpCrate}
use hexbuffer_proxy.Handler.Types.{Request, full}
use hexbuffer_proxy.Wire.Syntax.{HttpSyntax}
use hexbuffer_proxy.Wire.Parse.{
  header_lines, behind_next, body_bytes, add_headers, build_request, parse_raw_request,
}

abbrev Is : {A : Type 0} → Option A → Type 0
Is {A} o = (a : A) × (o ≡ some a)

-- The words of the first line.
abbrev pub first_words : Bytes → List Str
first_words raw = split_whitespace (unwrap_or (next (lines (from_utf8_lossy raw))) [])

module _ (http : HttpCrate) (syntax : HttpSyntax http) where
  -- A name and a value that the crate `http` takes.
  abbrev pub IsHeader : Str × Str → Type 0
  IsHeader (key, value) = Is (syntax.header_name key) × Is (syntax.header_value value)

  -- The first word is a method and the second a target, where there are such, and every header line with a colon is a
  -- header.
  pub record IsParsable (raw : Bytes) : Type 0 where
    pub method : syntax.is_method (unwrap_or (next (first_words raw)) (codes "GET")) ≡ true
    pub target : Is (syntax.parse_uri (unwrap_or (nth_1 (first_words raw)) (codes "/")))
    pub headers : All IsHeader (header_lines (behind_next (lines (from_utf8_lossy raw))))

  Is-none : {A : Type 0} (o : Option A) → o ≡ none → Is o → ⊥
  Is-none o e (a, same) = cc

  add_headers-cases :
      (hs : List (Str × Str)) (h : http.Headers)
      → (All IsHeader hs × Is (add_headers http syntax hs h))
        ⊎ ((All IsHeader hs → ⊥) × (add_headers http syntax hs h ≡ none))
  unfolding add_headers
  add_headers-cases [] h = inl (_, (h, refl))
  add_headers-cases ((key, value) ∷ hs) h = elim (Option-cases (syntax.header_name key)) [
    | inl no_name ↦ inr (λ a. Is-none _ no_name a.0.0, rw (add_headers, no_name) refl)
    | inr (k, name) ↦ elim (Option-cases (syntax.header_value value)) [
      | inl no_value ↦ inr (λ a. Is-none _ no_value a.0.1, rw (add_headers, name, no_value) refl)
      | inr (v, held) ↦ elim (add_headers-cases hs (syntax.append h k v)) [
        | inl (all, (h', e)) ↦
            inl ((((k, name), (v, held)), all), (h', rw (add_headers, name, held) e))
        | inr (no_all, e) ↦ inr (λ a. no_all a.1, rw (add_headers, name, held) e)
      ]
    ]
  ]

  abbrev request_of : Bytes → http.Uri → http.Headers → Request http
  request_of raw u h = record {
    method = unwrap_or (next (first_words raw)) (codes "GET");
    uri = u;
    headers = h;
    body = full (body_bytes raw);
  }

  -- What is made of a request's bytes, in either case.
  abbrev pub Parses : Bytes → Type 0
  Parses raw =
      (IsParsable raw × (req : Request http) × (parse_raw_request http syntax raw ≡ ok req))
      ⊎ ((IsParsable raw → ⊥) × (parse_raw_request http syntax raw ≡ panic))

  pub parse_raw_request-Parses : (raw : Bytes) → Parses raw
  unfolding parse_raw_request build_request
  parse_raw_request-Parses raw =
      elim (add_headers-cases (header_lines (behind_next (lines (from_utf8_lossy raw))))
        syntax.empty) [
          | inr (no_headers, e) ↦ inr (λ p. no_headers p.headers, rw e refl)
          | inl (all, (h, e)) ↦
              elim (Option-cases
                (syntax.parse_uri (unwrap_or (nth_1 (first_words raw)) (codes "/")))) [
                  | inl no_target ↦
                      inr (λ p. Is-none _ no_target p.target, rw (e, build_request, no_target) refl)
                  | inr (u, target) ↦
                      elim (Bool-cases
                        (syntax.is_method (unwrap_or (next (first_words raw)) (codes "GET")))) [
                          | inl method ↦ inl (
                            record { method = method; target = (u, target); headers = all },
                            request_of raw u h,
                            rw (e, build_request, target, method) refl,
                          )
                          | inr no_method ↦ inr (
                            λ p. cc (p.method, no_method),
                            rw (e, build_request, target, no_method) refl,
                          )
                        ]
                ]
        ]
