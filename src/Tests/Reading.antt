-- ===== src/Tests/Reading.antt =====
-- Runs of the readers of src/proxy.rs.
use hexbuffer_proxy.Reader.Framing.{is_chunked, get_content_length, is_request}
use hexbuffer_proxy.Prelude.{false, ◌≡◌, refl, [], ◌∷◌, ◌++◌, arith, ok}
use hexbuffer_proxy.Text.{
  Bytes, Str, codes, position, lines, starts_with, from_utf8_lossy, trim, from_str_radix, to_digit,
  contains_char,
}
use hexbuffer_proxy.Reader.Stream.{Stream, closed, broken, value_of}
use hexbuffer_proxy.Reader.Loops.{read_until_close, read_chunked_body, chunk_size}
use hexbuffer_proxy.Reader.Response.{read_full_response}
use hexbuffer_proxy.Reader.Drain.{read_until_close_all}
use hexbuffer_proxy.Reader.Dechunk.{Dechunks}
use hexbuffer_proxy.Reader.Chunked.{read_chunked_body-Dechunks}
use hexbuffer_proxy.Reader.Unique.{
  Chunks, done, more, read_chunked_body_pieces, read_chunked_body-Chunks,
}
use hexbuffer_proxy.Reader.Bodies.{bodyless_request}
use hexbuffer_proxy.Reader.Heads.{Message, head_of, read_full_response-Message}

-- The bytes "hello" in reads of at most two bytes and one byte, then all the rest.
abbrev hello : Stream
hello = record { incoming = codes "hello"; arrivals = 1 ∷ 0 ∷ []; ending = closed }

abbrev chunked_text : Bytes
chunked_text = codes "3\r\nabc\r\n0\r\n\r\n"

abbrev chunked_stream : Stream
chunked_stream = record {
  incoming = codes "bc\r\n0\r\n\r\n";
  arrivals = 1 ∷ 0 ∷ [];
  ending = closed;
}

abbrev whole_stream : Stream
whole_stream = record { incoming = chunked_text; arrivals = []; ending = closed }

abbrev reply_head : Str
reply_head = codes "HTTP/1.1 200 OK\r\nContent-Length: 5\r\n\r\n"

abbrev reply : Stream
reply = record {
  incoming = reply_head ++ codes "hello, world";
  arrivals = 7 ∷ 30 ∷ [];
  ending = broken (codes "reset");
}

read_until_close_all_example :
    value_of (read_until_close hello (codes "> ") 4) ≡ ok (codes "> hello")
read_until_close_all_example = read_until_close_all 4 (omega arith) hello (codes "> ")

read_chunked_body-Dechunks_example :
    Dechunks closed chunked_text (value_of (read_chunked_body chunked_stream (codes "3\r\na") 4))
read_chunked_body-Dechunks_example =
    read_chunked_body-Dechunks 4 (omega arith) chunked_stream (codes "3\r\na") (omega arith)

read_chunked_body_pieces_example :
    value_of (read_chunked_body chunked_stream (codes "3\r\na") 4)
    ≡ value_of (read_chunked_body whole_stream [] 9)
read_chunked_body_pieces_example =
    read_chunked_body_pieces 4 9 chunked_stream whole_stream (codes "3\r\na") [] (omega arith)
      (omega arith) refl refl (omega arith)

chunks : Chunks chunked_text (codes "abc")
unfolding chunk_size from_utf8_lossy trim from_str_radix to_digit contains_char
chunks =
    more (codes "3\r") (codes "bc") (codes "0\r\n\r\n") b'\r' b'\n' b'a' (refl, refl) refl
      (done (codes "0\r") (codes "\r\n") (refl, refl) refl)

read_chunked_body-Chunks_example :
    value_of (read_chunked_body chunked_stream (codes "3\r\na") 4) ≡ ok (codes "abc")
read_chunked_body-Chunks_example =
    read_chunked_body-Chunks 4 chunked_stream (codes "3\r\na") (codes "abc") (omega arith) chunks
      (omega arith)

reply_announced : bodyless_request (from_utf8_lossy (head_of reply.incoming)) ≡ false
unfolding from_utf8_lossy position is_request lines starts_with is_chunked get_content_length
reply_announced = refl

read_full_response-Message_example :
    Message
      (broken (codes "reset"))
      (reply_head ++ codes "hello, world")
      (value_of (read_full_response reply 16))
read_full_response-Message_example =
    read_full_response-Message 16 (omega arith) reply (omega arith) reply_announced
