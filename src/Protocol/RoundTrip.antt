-- ===== src/Protocol/RoundTrip.antt =====
-- What `try_encode` writes, `try_decode_frame` reads back, and nothing else.
use coroutine_rpc_scheduler.Common.{
  All, List, [], arith, drop, length, length-append, length-take, some, take, take-append,
  take-append-drop, ℕ, ◌*◌, ◌++◌, ◌+◌, ◌-◌, ◌<◌, ◌∷◌, ◌≡◌,
}
use coroutine_rpc_scheduler.Protocol.{
  IsU32, u32_bytes, Frame, try_encode, try_decode_frame, complete,
}

-- A frame followed by any further bytes is decoded to its serial id and payload, and the frame's
-- length is reported, for every 32-bit serial id and every payload that `try_encode` accepts.
pub try_decode_frame-try_encode :
    (serial_id : ℕ) (payload rest b : List ℕ) (out : Frame)
    → IsU32 serial_id
    → try_encode serial_id payload ≡ some b
    → try_decode_frame (b ++ rest) out ≡ record {
      status = complete;
      frame_size = length b;
      frame = record { serial_id = serial_id; payload = payload };
    }
unfolding try_encode try_decode_frame
try_decode_frame-try_encode serial_id payload rest b out h e =
    ground (arith, take-append payload rest, length-append payload rest)

-- Every number is a byte.
abbrev pub AreBytes : List ℕ → Type 0
AreBytes = All (λ b. b < 256)

u32_bytes_sum :
    (a b c d : ℕ)
    → a < 256
    → b < 256
    → c < 256
    → d < 256
    → u32_bytes (a * 16777216 + b * 65536 + c * 256 + d) ≡ a ∷ b ∷ c ∷ d ∷ []
u32_bytes_sum a b c d ha hb hc hd = ground arith

-- A complete frame is one that `try_encode` writes: the bytes that it takes up are the encoding of
-- the serial id and the payload that it yields, and their number is the frame size reported.
pub try_decode_frame_sound :
    (data' : List ℕ) (out : Frame)
    → AreBytes data'
    → (try_decode_frame data' out).status ≡ complete
    → let r = try_decode_frame data' out in
      (b : List ℕ) × (rest : List ℕ) × (try_encode r.frame.serial_id r.frame.payload ≡ some b)
      × (data' ≡ b ++ rest)
      × (r.frame_size ≡ length b)
      × IsU32 r.frame.serial_id
unfolding try_encode try_decode_frame
try_decode_frame_sound (a ∷ b ∷ c ∷ d ∷ e ∷ f ∷ g ∷ h ∷ r) out
      (ha, (hb, (hc, (hd, (he, (hf, (hg, (hh, _)))))))) k =
    let n = a * 16777216 + b * 65536 + c * 256 + d - 4 in
    (
      a ∷ b ∷ c ∷ d ∷ e ∷ f ∷ g ∷ h ∷ take n r,
      drop n r,
      ground (
        arith,
        u32_bytes_sum a b c d ha hb hc hd,
        u32_bytes_sum e f g h he hf hg hh,
        length-take n r,
      ),
      ground (arith, take-append-drop n r),
      ground (arith, length-take n r),
      ground arith,
    )
try_decode_frame_sound _ out bytes k = cc
