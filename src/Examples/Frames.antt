-- ===== src/Examples/Frames.antt =====
-- include/corpcron/rpc/protocol.hpp on the request that tests/protocol_test.cpp encodes.
use coroutine_rpc_scheduler.Common.{List, [], arith, refl, some, ℕ, ◌++◌, ◌∷◌, ◌≡◌}
use coroutine_rpc_scheduler.Protocol.{Frame, complete, malformed, try_encode, try_decode_frame}
use coroutine_rpc_scheduler.Protocol.RoundTrip.{try_decode_frame-try_encode}

abbrev hello : List ℕ
hello = b'h' ∷ b'e' ∷ b'l' ∷ b'l' ∷ b'o' ∷ []

abbrev hello_frame : List ℕ
hello_frame = 0 ∷ 0 ∷ 0 ∷ 9 ∷ 0 ∷ 0 ∷ 0 ∷ 42 ∷ hello

abbrev blank : Frame
blank = record { serial_id = 0; payload = [] }

try_encode-hello : try_encode 42 hello ≡ some hello_frame
unfolding try_encode
try_encode-hello = refl

-- A length of 2 is below the size of the serial id.
decode_malformed : (try_decode_frame (0 ∷ 0 ∷ 0 ∷ 2 ∷ hello) blank).status ≡ malformed
unfolding try_decode_frame
decode_malformed = refl

try_decode_frame-try_encode_example :
    try_decode_frame (hello_frame ++ (7 ∷ 7 ∷ [])) blank ≡ record {
      status = complete;
      frame_size = 13;
      frame = record { serial_id = 42; payload = hello };
    }
try_decode_frame-try_encode_example =
    try_decode_frame-try_encode 42 hello (7 ∷ 7 ∷ []) hello_frame blank (omega arith)
      try_encode-hello
