-- ===== src/Reader/Bodies.antt =====
-- What `read_http_body` returns for each kind of head.
use hexbuffer_proxy.Prelude.{
  ℕ, ◌+◌, ◌<◌, ◌≡◌, sym, Bool, true, false, ◌&&◌, not, inl, inr, ◌++◌, [], some, none, arith,
  Bool-cases, Option-cases, Outcome, ok, length, subst,
}
use hexbuffer_proxy.Text.{Bytes, Str, usize_limit}
use hexbuffer_proxy.Error.{Failure}
use hexbuffer_proxy.Reader.Framing.{is_chunked, get_content_length, is_no_body_status, is_request}
use hexbuffer_proxy.Reader.Stream.{Stream, Ending, finish, value_of}
use hexbuffer_proxy.Reader.Loops.{read_chunked_body}
use hexbuffer_proxy.Reader.Response.{read_http_body, is_none}
use hexbuffer_proxy.Reader.Drain.{exactly, read_exact_take, read_until_close_all}
use hexbuffer_proxy.Reader.Dechunk.{Dechunks}
use hexbuffer_proxy.Reader.Chunked.{read_chunked_body-Dechunks}

-- A head of a request that announces no body.
abbrev pub bodyless_request : Str → Bool
bodyless_request headers =
    is_request headers && not (is_chunked headers) && is_none (get_content_length headers)

-- `r` is the body that belongs to the head `headers` when the bytes behind it are `initial`, which came with it, and
-- then `later`, and the stream ends with `e`.
pub data BodyOf (e : Ending) (headers : Str) (initial later : Bytes) (r : Outcome Failure Bytes)
    : Type 0 where
  no_body : is_no_body_status headers ≡ true → r ≡ ok [] → BodyOf e headers initial later r
  as_arrived :
      is_no_body_status headers ≡ false
      → bodyless_request headers ≡ true
      → r ≡ ok initial
      → BodyOf e headers initial later r
  chunked :
      is_no_body_status headers ≡ false
      → is_chunked headers ≡ true
      → Dechunks e (initial ++ later) r
      → BodyOf e headers initial later r
  sized :
      (len : ℕ)
      → is_no_body_status headers ≡ false
      → is_chunked headers ≡ false
      → get_content_length headers ≡ some len
      → r ≡ exactly len e (initial ++ later)
      → BodyOf e headers initial later r
  until_close :
      is_no_body_status headers ≡ false
      → bodyless_request headers ≡ false
      → is_chunked headers ≡ false
      → get_content_length headers ≡ none
      → r ≡ finish e (initial ++ later)
      → BodyOf e headers initial later r

pub read_http_body-BodyOf :
    (size : ℕ) (s : Stream) (headers : Str) (initial : Bytes)
    → 0 < size
    → length (initial ++ s.incoming) + 2 < usize_limit
    → BodyOf s.ending headers initial s.incoming (value_of (read_http_body s headers initial size))
unfolding read_http_body
read_http_body-BodyOf size s headers initial pos small =
    elim (Bool-cases (is_no_body_status headers)) [
      | inl nb ↦ no_body nb (ground arith)
      | inr nb ↦ elim (Bool-cases (bodyless_request headers)) [
        | inl br ↦ as_arrived nb br (ground arith)
        | inr br ↦ elim (Bool-cases (is_chunked headers)) [
          | inl ch ↦
              let same : value_of (read_http_body s headers initial size)
                  ≡ value_of (read_chunked_body s initial size) =
                ground arith in
              chunked nb ch (
                subst (Dechunks s.ending (initial ++ s.incoming)) (sym same)
                  (read_chunked_body-Dechunks size pos s initial small))
          | inr ch ↦ elim (Option-cases (get_content_length headers)) [
            | inl len ↦
                until_close nb br ch len (ground (arith, read_until_close_all size pos s initial))
            | inr (n, len) ↦
                sized n nb ch len (ground (arith, read_exact_take size pos s initial n))
          ]
        ]
      ]
    ]

-- The body of a head that is a response's, or announces a length: `rest` is all that is behind the head.
pub data BodyBehind (e : Ending) (headers : Str) (rest : Bytes) (r : Outcome Failure Bytes)
    : Type 0 where
  none_sent : is_no_body_status headers ≡ true → r ≡ ok [] → BodyBehind e headers rest r
  in_chunks :
      is_no_body_status headers ≡ false
      → is_chunked headers ≡ true
      → Dechunks e rest r
      → BodyBehind e headers rest r
  of_length :
      (len : ℕ)
      → is_no_body_status headers ≡ false
      → is_chunked headers ≡ false
      → get_content_length headers ≡ some len
      → r ≡ exactly len e rest
      → BodyBehind e headers rest r
  to_the_end :
      is_no_body_status headers ≡ false
      → is_chunked headers ≡ false
      → get_content_length headers ≡ none
      → r ≡ finish e rest
      → BodyBehind e headers rest r

-- Then it does not matter which bytes came with the head.
pub BodyOf-BodyBehind :
    (e : Ending) (headers : Str) (initial later : Bytes) (r : Outcome Failure Bytes)
    → bodyless_request headers ≡ false
    → BodyOf e headers initial later r
    → BodyBehind e headers (initial ++ later) r
BodyOf-BodyBehind e headers initial later r announced (no_body nb same) = none_sent nb same
BodyOf-BodyBehind e headers initial later r announced (as_arrived nb br same) = cc
BodyOf-BodyBehind e headers initial later r announced (chunked nb ch d) = in_chunks nb ch d
BodyOf-BodyBehind e headers initial later r announced (sized len nb ch l same) =
    of_length len nb ch l same
BodyOf-BodyBehind e headers initial later r announced (until_close nb br ch l same) =
    to_the_end nb ch l same
