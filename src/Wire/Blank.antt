-- ===== src/Wire/Blank.antt =====
-- Where the body of a printed message starts.
use hexbuffer_proxy.Prelude.{
  ℕ, ◌≡◌, refl, ◌∙◌, false, [], ◌∷◌, ◌++◌, ◌==◌, arith, inl, inr, Option-cases,
}
use hexbuffer_proxy.Text.{Bytes, codes, contains_char, starts_with, position}
use hexbuffer_proxy.Reader.Response.{blank_line}
use hexbuffer_proxy.Wire.Parse.{body_bytes}

body_bytes_skip :
    (c : ℕ) (s : Bytes) → starts_with blank_line (c ∷ s) ≡ false → body_bytes (c ∷ s) ≡ body_bytes s
unfolding body_bytes position
body_bytes_skip c s h = elim (Option-cases (position blank_line s)) [
  | inl e ↦ ground arith
  | inr (i, e) ↦ ground arith
]

-- A line with no `\r` and its end, in front of something that is no blank line.
pub body_bytes_line :
    (l : Bytes) (c : ℕ) (rest : Bytes)
    → contains_char b'\r' l ≡ false
    → (c == b'\r') ≡ false
    → body_bytes (l ++ (codes "\r\n" ++ c ∷ rest)) ≡ body_bytes (c ∷ rest)
unfolding contains_char starts_with
body_bytes_line [] c rest h n =
    body_bytes_skip b'\r' (b'\n' ∷ c ∷ rest) (ground arith) ∙ body_bytes_skip b'\n' (c ∷ rest) refl
body_bytes_line (x ∷ l) c rest h n =
    body_bytes_skip x (l ++ (codes "\r\n" ++ c ∷ rest)) (ground arith)
    ∙ body_bytes_line l c rest (ground arith) n

-- The last line, and the body.
pub body_bytes_last :
    (l body : Bytes)
    → contains_char b'\r' l ≡ false
    → body_bytes (l ++ (codes "\r\n" ++ (codes "\r\n" ++ body))) ≡ body
unfolding contains_char starts_with
body_bytes_last [] body h = unfold body_bytes position in refl
body_bytes_last (x ∷ l) body h =
    body_bytes_skip x (l ++ (codes "\r\n" ++ (codes "\r\n" ++ body))) (ground arith)
    ∙ body_bytes_last l body (ground arith)
