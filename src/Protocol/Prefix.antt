-- ===== src/Protocol/Prefix.antt =====
-- How an answer of `try_decode_frame` depends on the bytes that have arrived so far.
use coroutine_rpc_scheduler.Common.{
  List, ap, arith, drop, drop-append_le, get_or-append, length, length-append, length-drop, some,
  sym, take, take-append_le, ℕ, ◌++◌, ◌+◌, ◌-◌, ◌<◌, ◌∙◌, ◌≡◌, ◌≢◌, ◌≤◌,
}
use coroutine_rpc_scheduler.Protocol.{
  u32_at, Frame, try_encode, try_decode_frame, incomplete, max_payload_size,
}

pub u32_at-append : (b c : List ℕ) (i : ℕ) → i + 4 ≤ length b → u32_at (b ++ c) i ≡ u32_at b i
unfolding u32_at
u32_at-append b c i h = ground (
  arith,
  get_or-append b c i 0,
  get_or-append b c (i + 1) 0,
  get_or-append b c (i + 2) 0,
  get_or-append b c (i + 3) 0,
)

payload-append :
    (n : ℕ) (b c : List ℕ) → 8 + n ≤ length b → take n (drop 8 (b ++ c)) ≡ take n (drop 8 b)
payload-append n b c h =
    rw (drop-append_le 8 b c (omega arith))
      (take-append_le n (drop 8 b) c (omega (arith, length-drop 8 b)))

-- An answer other than Incomplete is final: more bytes behind do not change it, nor the frame.
pub try_decode_frame-append :
    (b c : List ℕ) (out : Frame)
    → (try_decode_frame b out).status ≢ incomplete
    → try_decode_frame (b ++ c) out ≡ try_decode_frame b out
unfolding try_decode_frame
try_decode_frame-append b c out h = ground (
  arith,
  length-append b c,
  u32_at-append b c 0,
  u32_at-append b c 4,
  payload-append (u32_at b 0 - 4) b c,
)

pub try_encode-length :
    (serial_id : ℕ) (payload b : List ℕ)
    → try_encode serial_id payload ≡ some b
    → (length b ≡ 8 + length payload)
      × (u32_at b 0 ≡ 4 + length payload)
      × (length payload ≤ max_payload_size)
unfolding try_encode u32_at
try_encode-length serial_id payload b e = ground arith

-- A frame that has not arrived whole is Incomplete, at every length of what has arrived, and the
-- out-parameters are left alone.
pub try_decode_frame_prefix :
    (serial_id : ℕ) (payload b c d : List ℕ) (out : Frame)
    → try_encode serial_id payload ≡ some b
    → b ≡ c ++ d
    → 0 < length d
    → ((try_decode_frame c out).status ≡ incomplete) × ((try_decode_frame c out).frame ≡ out)
unfolding try_decode_frame
try_decode_frame_prefix serial_id payload b c d out e s h =
    let (l, t, m) = try_encode-length serial_id payload b e in
    let split = u32_at-append c d 0 in
    let parts : length c + length d ≡ length b = ground (arith, length-append c d) in
    let total : 4 ≤ length c → u32_at c 0 ≡ 4 + length payload =
      λ k. sym (split k) ∙ ap (λ (x : List ℕ). u32_at x 0) (sym s) ∙ t in
    ground (arith, total)
