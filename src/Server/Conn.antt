-- ===== src/Server/Conn.antt =====
-- The writing side of a TCP connection, and `write_body_to_stream` of src/proxy.rs.
use hexbuffer_proxy.Prelude.{
  ℕ, Bool, true, false, List, [], ◌∷◌, ◌++◌, Outcome, ok, err, panic, out_of_fuel, take,
}
use hexbuffer_proxy.Text.{Bytes, Str, codes}
use hexbuffer_proxy.Error.{Failure, from_external, message}
use hexbuffer_proxy.Http.{HttpCrate}
use hexbuffer_proxy.Handler.Types.{Body, full, streaming}
use hexbuffer_proxy.Wire.Syntax.{Frame, data_frame, trailers_frame, failed_frame, HttpSyntax}

-- What the next call on the connection meets: no trouble, or an error after some of the bytes.
pub data Luck : Type 0 where
  fine : Luck
  breaks : ℕ → Str → Luck

-- The bytes that left, whether the side was shut down, and what the next calls meet; with none left
-- all go well.
pub record Conn : Type 0 where
  pub written : Bytes
  pub shut : Bool
  pub luck : List Luck

abbrev pub new_conn : List Luck → Conn
new_conn luck = record { written = []; shut = false; luck = luck }

-- `write_all`.
unfoldable pub write_all : Bytes → Conn → Outcome Failure (Unit {0}) × Conn
write_all b c = elim c.luck [
  | [] ↦ (ok _, record c { written = c.written ++ b })
  | l ∷ ls ↦ elim l [
    | fine ↦ (ok _, record c { written = c.written ++ b; luck = ls })
    | breaks n m ↦ (err (from_external m), record c { written = c.written ++ take n b; luck = ls })
  ]
]

-- `shutdown`.
unfoldable pub shutdown : Conn → Outcome Failure (Unit {0}) × Conn
shutdown c = elim c.luck [
  | [] ↦ (ok _, record c { shut = true })
  | l ∷ ls ↦ elim l [
    | fine ↦ (ok _, record c { shut = true; luck = ls })
    | breaks n m ↦ (err (from_external m), record c { luck = ls })
  ]
]

-- Go on after a call that went well.
abbrev pub after_ok :
    Outcome Failure (Unit {0}) × Conn
    → (Conn → Outcome Failure (Unit {0}) × Conn)
    → Outcome Failure (Unit {0}) × Conn
after_ok (ok u, c) f = f c
after_ok (err e, c) f = (err e, c)
after_ok (panic, c) f = (panic, c)
after_ok (out_of_fuel, c) f = (out_of_fuel, c)

-- The loop of `write_body_to_stream` over the frames of a streaming body.
unfoldable pub write_frames : List Frame → Conn → Outcome Failure (Unit {0}) × Conn
unfolding write_all
write_frames [] c = (ok _, c)
write_frames (data_frame b ∷ fs) c = after_ok (write_all b c) (write_frames fs)
write_frames (trailers_frame ∷ fs) c = write_frames fs c
write_frames (failed_frame m ∷ fs) c = (err (message (codes "body stream error: " ++ m)), c)

module _ (http : HttpCrate) (syntax : HttpSyntax http) where
  unfoldable pub write_body_to_stream : Body http → Conn → Outcome Failure (Unit {0}) × Conn
  unfolding write_all write_frames
  write_body_to_stream (full b) c = write_all b c
  write_body_to_stream (streaming boxed) c = write_frames (syntax.frames boxed) c
