-- ===== src/Server/Connect.antt =====
-- Where a CONNECT request leads.
use hexbuffer_proxy.Prelude.{
  ℕ, ◌<◌, ◌≡◌, refl, ap, ◌∙◌, true, false, [], ◌∷◌, ◌++◌, arith, All-append, ok,
}
use hexbuffer_proxy.Text.{
  Bytes, Str, codes, split_whitespace, is_whitespace, contains_char, split_first, is_empty,
}
use hexbuffer_proxy.Text.Ascii.{IsAscii, is_ascii-IsAscii, IsWord, is_word-IsWord}
use hexbuffer_proxy.Text.Search.{before-append}
use hexbuffer_proxy.Text.Lines.{
  lines_crlf, split_whitespace-append, contains_char-IsWord, contains_char-append, is_empty-append,
}
use hexbuffer_proxy.Server.Dispatch.{https, with_port, route}

-- A request line with the target, and whatever follows it.
abbrev pub connect_line : Str → Bytes → Bytes
connect_line target rest =
    (codes "CONNECT " ++ (target ++ codes " HTTP/1.1")) ++ (codes "\r\n" ++ rest)

connect_word :
    (target : Str)
    → IsWord target
    → is_empty target ≡ false
    → split_whitespace (codes "CONNECT " ++ (target ++ codes " HTTP/1.1"))
      ≡ codes "CONNECT" ∷ target ∷ split_whitespace (codes "HTTP/1.1")
unfolding is_whitespace
connect_word target word ne =
    split_whitespace-append (codes "CONNECT") (target ++ codes " HTTP/1.1")
      (is_word-IsWord (codes "CONNECT") refl) refl
    ∙ ap (◌∷◌ (codes "CONNECT")) (split_whitespace-append target (codes "HTTP/1.1") word ne)

route-target :
    (target : Str) (rest : Bytes)
    → IsAscii target
    → IsWord target
    → is_empty target ≡ false
    → route (connect_line target rest) ≡ ok (https (with_port target))
unfolding route
route-target target rest ascii word ne =
    let line = codes "CONNECT " ++ (target ++ codes " HTTP/1.1") in
    let ascii_line : IsAscii line =
      All-append (λ b. b < 128) (codes "CONNECT ") (target ++ codes " HTTP/1.1")
        (is_ascii-IsAscii (codes "CONNECT ") refl)
        (All-append (λ b. b < 128) target (codes " HTTP/1.1") ascii
          (is_ascii-IsAscii (codes " HTTP/1.1") refl)) in
    let one : contains_char b'\n' line ≡ false =
      contains_char-append b'\n' (codes "CONNECT ") (target ++ codes " HTTP/1.1")
        (unfold contains_char in refl)
        (contains_char-append b'\n' target (codes " HTTP/1.1")
          (contains_char-IsWord b'\n' target (unfold is_whitespace in refl) word)
          (unfold contains_char in refl)) in
    rw (lines_crlf line rest ascii_line one, connect_word target word ne) refl

contains_char-append_found : (x : ℕ) (a b : Str) → contains_char x (a ++ x ∷ b) ≡ true
unfolding contains_char
contains_char-append_found x [] b = ground arith
contains_char-append_found x (c ∷ a) b = ground (arith, contains_char-append_found x a b)

-- A CONNECT request for a host, or for a host and a port behind a colon, leads to that target, and to port 443 of the
-- host if it names no port; in both cases the host that is asked about and gets the certificate is the host alone.
-- Host and port are ASCII with no white space, and the host is not empty and has no colon of its own, so it is no
-- IPv6 address. Whatever follows the request line does not matter.
pub route-connect_line :
    (host port : Str) (rest : Bytes)
    → IsAscii host
    → IsWord host
    → IsAscii port
    → IsWord port
    → is_empty host ≡ false
    → contains_char b':' host ≡ false
    → (route (connect_line host rest) ≡ ok (https (host ++ codes ":443")))
      × (route (connect_line (host ++ b':' ∷ port) rest) ≡ ok (https (host ++ b':' ∷ port)))
      × (split_first b':' (host ++ codes ":443") ≡ host)
      × (split_first b':' (host ++ b':' ∷ port) ≡ host)
route-connect_line host port rest ha hw pa pw ne no_colon = (
  route-target host rest ha hw ne ∙ rw no_colon,
  route-target (host ++ b':' ∷ port) rest
        (All-append (λ b. b < 128) host (b':' ∷ port) ha (omega arith, pa))
        (All-append (λ c. is_whitespace c ≡ false) host (b':' ∷ port) hw
          (unfold is_whitespace in refl, pw))
        (is_empty-append host (b':' ∷ port) ne)
      ∙ rw (contains_char-append_found b':' host port),
  before-append b':' host (codes "443") no_colon,
  before-append b':' host port no_colon,
)
