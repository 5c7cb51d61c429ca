-- ===== src/Server/Streaming.antt =====
-- What a client gets of a response whose body is streamed to it.
use hexbuffer_proxy.Prelude.{
  ◌≡◌, sym, ap, ◌∙◌, List, [], ◌∷◌, ◌++◌, append-nil, append_assoc, Outcome, ok, err,
}
use hexbuffer_proxy.Text.{Bytes, codes}
use hexbuffer_proxy.Error.{Failure, message}
use hexbuffer_proxy.Http.{HttpCrate}
use hexbuffer_proxy.Handler.Types.{Body, full, streaming, Response}
use hexbuffer_proxy.Wire.Syntax.{Frame, data_frame, trailers_frame, failed_frame, HttpSyntax}
use hexbuffer_proxy.Wire.Serialize.{serialize_response, serialize_response_head}
use hexbuffer_proxy.Server.Conn.{Conn, write_all, after_ok, write_frames, write_body_to_stream}

-- The data of a row of frames, up to the first failure, and that failure.
abbrev pub data_of : List Frame → Bytes
data_of [] = []
data_of (data_frame b ∷ fs) = b ++ data_of fs
data_of (trailers_frame ∷ fs) = data_of fs
data_of (failed_frame m ∷ fs) = []

abbrev pub end_of : List Frame → Outcome Failure (Unit {0})
end_of [] = ok _
end_of (data_frame b ∷ fs) = end_of fs
end_of (trailers_frame ∷ fs) = end_of fs
end_of (failed_frame m ∷ fs) = err (message (codes "body stream error: " ++ m))

pub write_all_lucky :
    (b : Bytes) (c : Conn)
    → c.luck ≡ []
    → write_all b c ≡ (ok _, record c { written = c.written ++ b })
unfolding write_all
write_all_lucky b c h =
    rw (h, write_all) (λ i. (ok _, record c { written = c.written ++ b; luck = h i }))

write_frames_lucky :
    (fs : List Frame) (c : Conn)
    → c.luck ≡ []
    → write_frames fs c ≡ (end_of fs, record c { written = c.written ++ data_of fs })
unfolding write_frames
write_frames_lucky [] c h = ap (λ b. (ok _, record c { written = b })) (sym (append-nil c.written))
write_frames_lucky (data_frame b ∷ fs) c h = rw (write_all_lucky b c h) (
    write_frames_lucky fs (record c { written = c.written ++ b }) h
    ∙ ap (λ w. (end_of fs, record c { written = w })) (append_assoc c.written b (data_of fs)))
write_frames_lucky (trailers_frame ∷ fs) c h = write_frames_lucky fs c h
write_frames_lucky (failed_frame m ∷ fs) c h =
    ap (λ b. (err (message (codes "body stream error: " ++ m)), record c { written = b }))
      (sym (append-nil c.written))

module _ (http : HttpCrate) (syntax : HttpSyntax http) where
  abbrev pub body_data : Body http → Bytes
  body_data (full b) = b
  body_data (streaming boxed) = data_of (syntax.frames boxed)

  abbrev pub body_end : Body http → Outcome Failure (Unit {0})
  body_end (full b) = ok _
  body_end (streaming boxed) = end_of (syntax.frames boxed)

  pub write_body_to_stream_lucky :
      (body : Body http) (c : Conn)
      → c.luck ≡ []
      → write_body_to_stream http syntax body c
        ≡ (body_end body, record c { written = c.written ++ body_data body })
  unfolding write_body_to_stream
  write_body_to_stream_lucky (full b) c h = write_all_lucky b c h
  write_body_to_stream_lucky (streaming boxed) c h = write_frames_lucky (syntax.frames boxed) c h

  -- On a connection that stays up, the head and then the body, piece by piece, are the same bytes as
  -- `serialize_response` makes of the response with all its data in memory. If the body's stream
  -- fails, they are those up to the failure, which is the call's error.
  pub streamed-serialize_response :
      (res : Response http) (c : Conn)
      → c.luck ≡ []
      → after_ok
          (write_all (serialize_response_head http syntax res) c)
          (write_body_to_stream http syntax res.body)
        ≡ (
          body_end res.body,
          record c {
            written =
                c.written
                ++ serialize_response http syntax (record res { body = full (body_data res.body) });
          },
        )
  unfolding serialize_response serialize_response_head
  streamed-serialize_response res c h =
      let head = serialize_response_head http syntax res in
      rw (write_all_lucky head c h) (
        write_body_to_stream_lucky res.body (record c { written = c.written ++ head }) h
        ∙ ap (λ w. (body_end res.body, record c { written = w }))
            (append_assoc c.written head (body_data res.body)))
