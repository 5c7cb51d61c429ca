-- ===== src/Wire/HeaderLines.antt =====
-- The header lines and the body of a printed message are read back.
use hexbuffer_proxy.Prelude.{
  ℕ, ◌<◌, ◌≡◌, refl, ap, ◌∙◌, true, false, List, [], ◌∷◌, ◌++◌, append_assoc, some, arith, All,
  All-append,
}
use hexbuffer_proxy.Text.{
  Bytes, Str, codes, from_utf8_lossy, lines, is_whitespace, contains_char, is_empty, trim, before,
  after?,
}
use hexbuffer_proxy.Text.Ascii.{IsAscii}
use hexbuffer_proxy.Text.Search.{before-append, after?-append}
use hexbuffer_proxy.Text.Lines.{
  lines_crlf, trim-IsWord, trim_space, contains_char-IsWord, contains_char-append, is_empty-append,
}
use hexbuffer_proxy.Http.{HttpCrate}
use hexbuffer_proxy.Wire.Syntax.{HttpSyntax, append_all}
use hexbuffer_proxy.Wire.Parse.{header_lines, body_bytes, add_headers}
use hexbuffer_proxy.Wire.Serialize.{serialize_headers}
use hexbuffer_proxy.Wire.Blank.{body_bytes_line, body_bytes_last}
use hexbuffer_proxy.Wire.Laws.{IsToken, IsName, IsPlain}

pub newline-white : is_whitespace b'\n' ≡ true
unfolding is_whitespace
newline-white = refl

pub return-white : is_whitespace b'\r' ≡ true
unfolding is_whitespace
return-white = refl

-- A header line without its end.
abbrev header_line : Bytes → Bytes → Bytes
header_line k v = k ++ b':' ∷ b' ' ∷ v

serialize_headers-cons :
    (k v : Bytes) (rest : List (Bytes × Bytes)) (body : Bytes)
    → serialize_headers ((k, v) ∷ rest) ++ body
      ≡ header_line k v ++ (codes "\r\n" ++ (serialize_headers rest ++ body))
unfolding serialize_headers
serialize_headers-cons k v rest body = simp append_assoc

module _ (http : HttpCrate) (syntax : HttpSyntax http) where
  abbrev pub Good : Bytes × Bytes → Type 0
  Good kv = IsName http syntax kv.0 × IsPlain http syntax kv.1

  header_line-IsAscii : (k v : Bytes) → Good (k, v) → IsAscii (header_line k v)
  header_line-IsAscii k v (n, p) =
      All-append (λ b. b < 128) k (b':' ∷ b' ' ∷ v) n.token.ascii
        (omega arith, (omega arith, p.ascii))

  header_line-without :
      (x : ℕ) (k v : Bytes)
      → contains_char x k ≡ false
      → contains_char x (b':' ∷ b' ' ∷ []) ≡ false
      → contains_char x v ≡ false
      → contains_char x (header_line k v) ≡ false
  header_line-without x k v hk hs hv =
      contains_char-append x k (b':' ∷ b' ' ∷ v) hk
        (contains_char-append x (b':' ∷ b' ' ∷ []) v hs hv)

  header_line-one : (k v : Bytes) → Good (k, v) → contains_char b'\n' (header_line k v) ≡ false
  header_line-one k v (n, p) =
      header_line-without b'\n' k v (contains_char-IsWord b'\n' k newline-white n.token.word)
        (unfold contains_char in refl) p.one_line

  header_line-return : (k v : Bytes) → Good (k, v) → contains_char b'\r' (header_line k v) ≡ false
  header_line-return k v (n, p) =
      header_line-without b'\r' k v (contains_char-IsWord b'\r' k return-white n.token.word)
        (unfold contains_char in refl) p.no_return

  header_lines-header_line :
      (k v : Bytes) (ls : List Str)
      → Good (k, v)
      → header_lines (header_line k v ∷ ls) ≡ (k, v) ∷ header_lines ls
  unfolding header_lines
  header_lines-header_line k v ls (n, p) =
      let found : after? b':' (header_line k v) ≡ some (b' ' ∷ v) =
        after?-append b':' k (b' ' ∷ v) n.no_colon in
      let front : before b':' (header_line k v) ≡ k = before-append b':' k (b' ' ∷ v) n.no_colon in
      let name : trim k ≡ k = trim-IsWord k n.token.word in
      let value : trim (b' ' ∷ v) ≡ v = trim_space v ∙ p.trimmed in
      let ne : is_empty (header_line k v) ≡ false =
        is_empty-append k (b':' ∷ b' ' ∷ v) n.token.nonempty in
      rw (ne, found, front, name, value) refl

  -- The header lines come back.
  pub header_lines-serialize_headers :
      (hs : List (Bytes × Bytes)) (body : Bytes)
      → All Good hs
      → header_lines (lines (from_utf8_lossy (serialize_headers hs ++ body))) ≡ hs
  unfolding header_lines
  header_lines-serialize_headers [] body g =
      unfold serialize_headers in
      ap header_lines (lines_crlf [] body _ (unfold contains_char in refl))
  header_lines-serialize_headers ((k, v) ∷ rest) body (g, gs) =
      ap (λ x. header_lines (lines (from_utf8_lossy x))) (serialize_headers-cons k v rest body)
      ∙ ap header_lines (
          lines_crlf (header_line k v) (serialize_headers rest ++ body) (header_line-IsAscii k v g)
            (header_line-one k v g))
      ∙ header_lines-header_line k v (lines (from_utf8_lossy (serialize_headers rest ++ body))) g
      ∙ ap (◌∷◌ (k, v)) (header_lines-serialize_headers rest body gs)

  body_bytes-header_line :
      (l k v rest : Bytes)
      → contains_char b'\r' l ≡ false
      → IsToken k
      → body_bytes (l ++ (codes "\r\n" ++ (header_line k v ++ (codes "\r\n" ++ rest))))
        ≡ body_bytes (header_line k v ++ (codes "\r\n" ++ rest))
  unfolding contains_char
  body_bytes-header_line l [] v rest h t = cc t.nonempty
  body_bytes-header_line l (c ∷ k) v rest h t =
      body_bytes_line l c (header_line k v ++ (codes "\r\n" ++ rest)) h
        (ground (arith, contains_char-IsWord b'\r' (c ∷ k) return-white t.word))

  -- So does the body.
  pub body_bytes-serialize_headers :
      (l : Bytes) (hs : List (Bytes × Bytes)) (body : Bytes)
      → contains_char b'\r' l ≡ false
      → All Good hs
      → body_bytes (l ++ (codes "\r\n" ++ (serialize_headers hs ++ body))) ≡ body
  body_bytes-serialize_headers l [] body h g = unfold serialize_headers in body_bytes_last l body h
  body_bytes-serialize_headers l ((k, v) ∷ rest) body h (g, gs) =
      ap (λ x. body_bytes (l ++ (codes "\r\n" ++ x))) (serialize_headers-cons k v rest body)
      ∙ body_bytes-header_line l k v (serialize_headers rest ++ body) h g.0.token
      ∙ body_bytes-serialize_headers (header_line k v) rest body (header_line-return k v g) gs

  pub add_headers-append_all :
      (hs : List (Bytes × Bytes)) (h : http.Headers)
      → All Good hs
      → add_headers http syntax hs h ≡ some (append_all http syntax hs h)
  unfolding add_headers
  add_headers-append_all [] h g = refl
  add_headers-append_all ((k, v) ∷ rest) h (g, gs) =
      rw (g.0.same, g.1.same, add_headers) (add_headers-append_all rest (syntax.append h k v) gs)
