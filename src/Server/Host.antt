-- ===== src/Server/Host.antt =====
-- src/http_proxy.rs: `extract_host` and `force_connection_close_bytes`.
use hexbuffer_proxy.Prelude.{
  ℕ, zero, suc, ◌-◌, List, [], ◌∷◌, ◌++◌, Option, none, some, if◌then◌else◌, take, drop, length,
}
use hexbuffer_proxy.Text.{
  Bytes, Str, codes, from_utf8_lossy, as_bytes, lines, split_whitespace, split_first, starts_with,
  contains, position, next, nth_1, and_then,
}
use hexbuffer_proxy.Http.{HttpCrate, get}
use hexbuffer_proxy.Handler.Types.{Request}
use hexbuffer_proxy.Reader.Response.{blank_line}

-- `strip_prefix`.
abbrev pub strip_prefix : Str → Str → Option Str
strip_prefix prefix s = if starts_with prefix s then some (drop (length prefix) s) else none

-- The loop over the two prefixes.
unfoldable pub host_of_uri : List Str → Str → Option Str
unfolding starts_with
host_of_uri [] uri = none
host_of_uri (prefix ∷ prefixes) uri = elim (strip_prefix prefix uri) [
  | some rest ↦ some (split_first b'/' rest)
  | none ↦ host_of_uri prefixes uri
]

-- The second word of the first line.
abbrev pub target_word : Str → Option Str
target_word text = and_then (next (lines text)) (λ l. nth_1 (split_whitespace l))

-- `none` where the code gives an error, which its caller drops.
module _ (http : HttpCrate) where
  unfoldable pub extract_host : Request http → Bytes → Option Str
  unfolding host_of_uri from_utf8_lossy lines split_whitespace
  extract_host req raw = elim (and_then (get http req.headers (codes "host")) http.to_str) [
    | some host ↦ some host
    | none ↦
        and_then (target_word (from_utf8_lossy raw))
          (host_of_uri (codes "http://" ∷ codes "https://" ∷ []))
  ]

-- `replace(from, to)` of a string; `skip` characters belong to the last match.
unfoldable pub replace_from : Str → Str → ℕ → Str → Str
unfolding starts_with
replace_from from to skip [] = []
replace_from from to (suc skip) (c ∷ s) = replace_from from to skip s
replace_from from to zero (c ∷ s) =
    let kept = c ∷ replace_from from to 0 s in
    let changed = to ++ replace_from from to (length from - 1) s in
    if starts_with from (c ∷ s) then changed else kept

abbrev pub replace : Str → Str → Str → Str
replace from to s = replace_from from to 0 s

unfoldable pub force_connection_close_bytes : Bytes → Bytes
unfolding replace_from contains position from_utf8_lossy as_bytes
force_connection_close_bytes raw =
    let modified =
      replace (codes "Keep-Alive") (codes "close")
        (replace (codes "keep-alive") (codes "close") (from_utf8_lossy raw)) in
    if contains (codes "Connection: close") modified
    then as_bytes modified
    else elim (position blank_line raw) [
      | some pos ↦ take pos raw ++ codes "\r\nConnection: close" ++ drop pos raw
      | none ↦ raw
    ]
