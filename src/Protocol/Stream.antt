-- ===== src/Protocol/Stream.antt =====
-- A stream of bytes as frames of include/corpcron/rpc/protocol.hpp, one behind the other.
use coroutine_rpc_scheduler.Common.{
  All-append_right, List, [], ap, append_assoc, arith, drop, drop-append, length, length-append,
  refl, some, subst, sym, ℕ, ◌++◌, ◌<◌, ◌∙◌, ◌∷◌, ◌≡◌,
}
use coroutine_rpc_scheduler.Protocol.{
  Frame, complete, incomplete, IsU32, try_encode, try_decode_frame,
}
use coroutine_rpc_scheduler.Protocol.Prefix.{try_encode-length}
use coroutine_rpc_scheduler.Protocol.RoundTrip.{
  AreBytes, try_decode_frame_sound, try_decode_frame-try_encode,
}

abbrev pub no_frame : Frame
no_frame = record { serial_id = 0; payload = [] }

-- The bytes are the encodings of the frames, in order, and the rest.
abbrev pub Frames : List ℕ → List Frame → List ℕ → Type 0
Frames octets [] rest = octets ≡ rest
Frames octets (f ∷ fs) rest =
    (b : List ℕ) × (more : List ℕ) × (try_encode f.serial_id f.payload ≡ some b)
    × (octets ≡ b ++ more)
    × IsU32 f.serial_id
    × Frames more fs rest

-- The bytes do not begin with a whole frame, nor with a wrong one.
abbrev pub IsIncomplete : List ℕ → Type 0
IsIncomplete octets = (try_decode_frame octets no_frame).status ≡ incomplete

pub Frames-snoc :
    (octets : List ℕ) (fs : List Frame) (f : Frame) (b rest : List ℕ)
    → Frames octets fs (b ++ rest)
    → try_encode f.serial_id f.payload ≡ some b
    → IsU32 f.serial_id
    → Frames octets (fs ++ (f ∷ [])) rest
Frames-snoc octets [] f b rest h e u = (b, rest, e, h, u, refl)
Frames-snoc octets (g ∷ fs) f b rest (x, more, e', split, u', h) e u =
    (x, more, e', split, u', Frames-snoc more fs f b rest h e u)

pub Frames-append :
    (octets more : List ℕ) (fs : List Frame) (rest : List ℕ)
    → Frames octets fs rest
    → Frames (octets ++ more) fs (rest ++ more)
Frames-append octets more [] rest h = ap (λ x. x ++ more) h
Frames-append octets more (f ∷ fs) rest (x, y, e, split, u, h) = (
  x,
  y ++ more,
  e,
  ap (λ z. z ++ more) split ∙ append_assoc x y more,
  u,
  Frames-append y more fs rest h,
)

-- A frame at the front is decoded.
decoded :
    (octets : List ℕ) (f : Frame) (b more : List ℕ)
    → try_encode f.serial_id f.payload ≡ some b
    → octets ≡ b ++ more
    → IsU32 f.serial_id
    → try_decode_frame octets no_frame
      ≡ record { status = complete; frame_size = length b; frame = f }
decoded octets f b more e split u =
    ap (λ x. try_decode_frame x no_frame) split
    ∙ try_decode_frame-try_encode f.serial_id f.payload more b no_frame u e

not-IsIncomplete :
    (octets : List ℕ) (f : Frame) (b more : List ℕ)
    → try_encode f.serial_id f.payload ≡ some b
    → octets ≡ b ++ more
    → IsU32 f.serial_id
    → ¬ IsIncomplete octets
not-IsIncomplete octets f b more e split u i =
    let d = ap (λ x. x.status) (decoded octets f b more e split u) in cc

head_unique :
    (octets : List ℕ) (f g : Frame) (b b' more more' : List ℕ)
    → try_encode f.serial_id f.payload ≡ some b
    → octets ≡ b ++ more
    → IsU32 f.serial_id
    → try_encode g.serial_id g.payload ≡ some b'
    → octets ≡ b' ++ more'
    → IsU32 g.serial_id
    → (f ≡ g) × (more ≡ more')
head_unique octets f g b b' more more' e split u e' split' u' =
    let d = decoded octets f b more e split u in
    let d' = decoded octets g b' more' e' split' u' in
    let size : length b ≡ length b' = ap (λ x. x.frame_size) (sym d ∙ d') in
    (
      ap (λ x. x.frame) (sym d ∙ d'),
      sym (drop-append b more)
          ∙ ap (drop (length b)) (sym split ∙ split')
          ∙ ap (λ n. drop n (b' ++ more')) size
          ∙ drop-append b' more',
    )

-- There is one way to take the frames of a stream.
pub Frames-unique :
    (octets : List ℕ) (fs gs : List Frame) (r s : List ℕ)
    → Frames octets fs r
    → IsIncomplete r
    → Frames octets gs s
    → IsIncomplete s
    → (fs ≡ gs) × (r ≡ s)
Frames-unique octets [] [] r s h i k j = (refl, sym h ∙ k)
Frames-unique octets [] (g ∷ gs) r s h i (b, more, e, split, u, k) j =
    absurd (not-IsIncomplete r g b more e (sym h ∙ split) u i)
Frames-unique octets (f ∷ fs) [] r s (b, more, e, split, u, h) i k j =
    absurd (not-IsIncomplete s f b more e (sym k ∙ split) u j)
Frames-unique octets (f ∷ fs) (g ∷ gs) r s (b, more, e, split, u, h) i
      (b', more', e', split', u', k) j =
    let (f≡g, behind) = head_unique octets f g b b' more more' e split u e' split' u' in
    let (same, rest) =
      Frames-unique more fs gs r s h i (subst (λ x. Frames x gs s) (sym behind) k) j in
    (cc (f≡g, same), rest)

-- So too for one frame, whatever is left behind it.
pub Frames-one :
    (octets : List ℕ) (f g : Frame) (r s : List ℕ)
    → Frames octets (f ∷ []) r
    → Frames octets (g ∷ []) s
    → (f ≡ g) × (r ≡ s)
Frames-one octets f g r s (b, more, e, split, u, h) (b', more', e', split', u', k) =
    let (f≡g, behind) = head_unique octets f g b b' more more' e split u e' split' u' in
    (f≡g, sym h ∙ behind ∙ k)

pub Frames-AreBytes :
    (octets : List ℕ) (fs : List Frame) (rest : List ℕ)
    → Frames octets fs rest
    → AreBytes octets
    → AreBytes rest
Frames-AreBytes octets [] rest h a = subst AreBytes h a
Frames-AreBytes octets (f ∷ fs) rest (b, more, e, split, u, h) a =
    Frames-AreBytes more fs rest h (All-append_right (λ x. x < 256) b more (subst AreBytes split a))

-- What is left behind a complete frame.
pub complete_frame :
    (octets : List ℕ)
    → AreBytes octets
    → (try_decode_frame octets no_frame).status ≡ complete
    → let d = try_decode_frame octets no_frame in
      (b : List ℕ) × (try_encode d.frame.serial_id d.frame.payload ≡ some b)
      × (octets ≡ b ++ drop d.frame_size octets)
      × IsU32 d.frame.serial_id
      × (length (drop d.frame_size octets) < length octets)
complete_frame octets a e =
    let d = try_decode_frame octets no_frame in
    let (b, rest, encoded, split, size, u) = try_decode_frame_sound octets no_frame a e in
    let left : drop d.frame_size octets ≡ rest =
      ap (λ n. drop n octets) size ∙ ap (drop (length b)) split ∙ drop-append b rest in
    let (eight, _, _) = try_encode-length d.frame.serial_id d.frame.payload b encoded in
    (
      b,
      encoded,
      split ∙ ap (◌++◌ b) (sym left),
      u,
      omega (arith, ap length left, ap length split, length-append b rest),
    )
