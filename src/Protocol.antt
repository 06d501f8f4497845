-- ===== src/Protocol.antt =====
-- The wire protocol, include/corpcron/rpc/protocol.hpp. A byte string is a list of numbers below
-- 256; `|` joins bytes that share no bit, and is written as a sum.
pub mod RoundTrip
pub mod Prefix
pub mod Stream
use coroutine_rpc_scheduler.Common.{
  Bool, List, Option, [], drop, false, get_or, if◌then◌else◌, length, ltb, none, some, take, true,
  ℕ, ◌%◌, ◌*◌, ◌++◌, ◌+◌, ◌-◌, ◌/◌, ◌<◌, ◌∷◌,
}

abbrev pub header_size : ℕ
header_size = 8

abbrev pub serial_id_size : ℕ
serial_id_size = 4

abbrev pub max_frame_size : ℕ
max_frame_size = 4194304

abbrev pub max_payload_size : ℕ
max_payload_size = 4194300

pub data DecodeStatus : Type 0 where
  complete incomplete malformed too_large : DecodeStatus

abbrev pub IsU32 : ℕ → Type 0
IsU32 n = n < 4294967296

-- (n >> 24) & 0xFF, (n >> 16) & 0xFF, (n >> 8) & 0xFF, n & 0xFF
abbrev pub u32_bytes : ℕ → List ℕ
u32_bytes n = n / 16777216 % 256 ∷ n / 65536 % 256 ∷ n / 256 % 256 ∷ n % 256 ∷ []

-- The four bytes of `data` from `i` on, the most significant first.
unfoldable pub u32_at : List ℕ → ℕ → ℕ
u32_at data' i =
    get_or data' i 0 * 16777216
    + get_or data' (i + 1) 0 * 65536
    + get_or data' (i + 2) 0 * 256
    + get_or data' (i + 3) 0

-- `none` is the answer false, which leaves `buffer` alone.
unfoldable pub try_encode : ℕ → List ℕ → Option (List ℕ)
try_encode serial_id payload =
    if ltb max_payload_size (length payload)
    then none
    else let total_len = (serial_id_size + length payload % 4294967296) % 4294967296 in
      some (u32_bytes total_len ++ (u32_bytes serial_id ++ payload))

pub data Encoded : Type 0 where
  buffer : List ℕ → Encoded
  length_error : Encoded

unfoldable pub encode : ℕ → List ℕ → Encoded
unfolding try_encode
encode serial_id payload = elim (try_encode serial_id payload) [
  | none ↦ length_error
  | some b ↦ buffer b
]

-- The out-parameters `serial_id` and `payload`.
pub record Frame : Type 0 where
  pub serial_id : ℕ
  pub payload : List ℕ

-- The answer, the out-parameter `frame_size`, and the other two as they are on return.
pub record Decoded : Type 0 where
  pub status : DecodeStatus
  pub frame_size : ℕ
  pub frame : Frame

unfoldable pub try_decode_frame : List ℕ → Frame → Decoded
unfolding u32_at
try_decode_frame data' out =
    let total_len = u32_at data' 0 in
    if ltb (length data') header_size
    then record { status = incomplete; frame_size = 0; frame = out }
    else if ltb total_len serial_id_size
    then record { status = malformed; frame_size = 0; frame = out }
    else if ltb max_frame_size total_len
    then record { status = too_large; frame_size = 0; frame = out }
    else if ltb (length data') (4 + total_len)
    then record { status = incomplete; frame_size = 4 + total_len; frame = out }
    else record {
      status = complete;
      frame_size = 4 + total_len;
      frame = record {
        serial_id = u32_at data' 4;
        payload = take (total_len - serial_id_size) (drop header_size data');
      };
    }

abbrev pub is_complete : DecodeStatus → Bool
is_complete complete = true
is_complete _ = false

unfoldable pub decode : List ℕ → Frame → Bool × Frame
unfolding try_decode_frame
decode data' out = let r = try_decode_frame data' out in (is_complete r.status, r.frame)
