-- ===== src/Dispatcher/Auth.antt =====
-- RpcDispatcher::authorized of src/rpc/rpc_dispatcher.cpp: the comparison of tokens, byte by byte,
-- which takes the same time wherever they differ.
use coroutine_rpc_scheduler.Common.{
  Bool, List, [], ap, arith, false, if◌then◌else◌, inl, inr, is_empty, length, max, not, refl,
  subst, suc, sym, true, zero, ℕ, ◌%◌, ◌*◌, ◌+◌, ◌/◌, ◌<◌, ◌==◌, ◌↔◌, ◌∙◌, ◌∷◌, ◌≡◌, ◌⊎◌,
}
use coroutine_rpc_scheduler.Protocol.RoundTrip.{AreBytes}

-- `a ^ b` and `a | b` on numbers of `w` bits.
abbrev pub bits_xor : ℕ → ℕ → ℕ → ℕ
bits_xor zero a b = 0
bits_xor (suc w) a b = (a % 2 + b % 2) % 2 + 2 * bits_xor w (a / 2) (b / 2)

abbrev pub bits_or : ℕ → ℕ → ℕ → ℕ
bits_or zero a b = 0
bits_or (suc w) a b = max (a % 2) (b % 2) + 2 * bits_or w (a / 2) (b / 2)

-- The loop over the bytes of two tokens of one length.
unfoldable pub token_difference : ℕ → List ℕ → List ℕ → ℕ
token_difference difference [] request = difference
token_difference difference (a ∷ token) [] = difference
token_difference difference (a ∷ token) (b ∷ request) =
    token_difference (bits_or 8 difference (bits_xor 8 a b)) token request

unfoldable pub authorized : List ℕ → List ℕ → Bool
unfolding token_difference
authorized auth_token request_token =
    if is_empty auth_token
    then true
    else if not (length auth_token == length request_token)
    then false
    else token_difference 0 auth_token request_token == 0

abbrev IsBits : ℕ → ℕ → Type 0
IsBits zero a = a ≡ 0
IsBits (suc w) a = IsBits w (a / 2)

byte-IsBits : (a : ℕ) → a < 256 → IsBits 8 a
byte-IsBits a h = omega arith

bits_xor-zero : (w a b : ℕ) → IsBits w a → IsBits w b → bits_xor w a b ≡ 0 → a ≡ b
bits_xor-zero zero a b h k e = omega arith
bits_xor-zero (suc w) a b h k e = omega (arith, bits_xor-zero w (a / 2) (b / 2) h k (omega arith))

bits_or-zero : (w a b : ℕ) → IsBits w a → IsBits w b → bits_or w a b ≡ 0 → (a ≡ 0) × (b ≡ 0)
bits_or-zero zero a b h k e = (omega arith, omega arith)
bits_or-zero (suc w) a b h k e =
    let (x, y) = bits_or-zero w (a / 2) (b / 2) h k (omega arith) in (omega arith, omega arith)

bits_xor_self : (w a : ℕ) → bits_xor w a a ≡ 0
bits_xor_self zero a = refl
bits_xor_self (suc w) a = omega (arith, bits_xor_self w (a / 2))

bits_xor-IsBits : (w a b : ℕ) → IsBits w (bits_xor w a b)
bits_xor-IsBits zero a b = refl
bits_xor-IsBits (suc w) a b =
    let half : ((a % 2 + b % 2) % 2 + 2 * bits_xor w (a / 2) (b / 2)) / 2
        ≡ bits_xor w (a / 2) (b / 2) =
      omega arith in
    subst (IsBits w) (sym half) (bits_xor-IsBits w (a / 2) (b / 2))

bits_or-IsBits : (w a b : ℕ) → IsBits w (bits_or w a b)
bits_or-IsBits zero a b = refl
bits_or-IsBits (suc w) a b =
    let half : (max (a % 2) (b % 2) + 2 * bits_or w (a / 2) (b / 2)) / 2
        ≡ bits_or w (a / 2) (b / 2) =
      omega arith in
    subst (IsBits w) (sym half) (bits_or-IsBits w (a / 2) (b / 2))

token_difference-zero :
    (d : ℕ) (xs ys : List ℕ)
    → IsBits 8 d
    → AreBytes xs
    → AreBytes ys
    → length xs ≡ length ys
    → token_difference d xs ys ≡ 0
    → (d ≡ 0) × (xs ≡ ys)
unfolding token_difference
token_difference-zero d [] [] k h g n e = (e, refl)
token_difference-zero d [] (b ∷ ys) k h g n e = absurd (omega arith)
token_difference-zero d (a ∷ xs) [] k h g n e = absurd (omega arith)
token_difference-zero d (a ∷ xs) (b ∷ ys) k h g n e =
    let x = bits_xor 8 a b in
    let (o, rest) =
      token_difference-zero (bits_or 8 d x) xs ys (bits_or-IsBits 8 d x) h.1 g.1 (omega arith) e in
    let (none_before, same) = bits_or-zero 8 d x k (bits_xor-IsBits 8 a b) o in
    (none_before, cc (bits_xor-zero 8 a b (byte-IsBits a h.0) (byte-IsBits b g.0) same, rest))

token_difference_self : (xs : List ℕ) → token_difference 0 xs xs ≡ 0
unfolding token_difference
token_difference_self [] = refl
token_difference_self (a ∷ xs) =
    let same : bits_or 8 0 (bits_xor 8 a a) ≡ 0 = omega (arith, bits_xor_self 8 a) in
    ap (λ d. token_difference d xs xs) same ∙ token_difference_self xs

-- A request is authorized exactly when no token is configured or its token is the configured one.
pub authorized_lem :
    (auth_token request_token : List ℕ)
    → AreBytes auth_token
    → AreBytes request_token
    → (authorized auth_token request_token ≡ true)
      ↔ ((auth_token ≡ []) ⊎ (auth_token ≡ request_token))
unfolding authorized
authorized_lem [] request h g = (λ e. inl refl, λ e. refl)
authorized_lem (a ∷ xs) request h g = (
  λ e. inr ((token_difference-zero 0 (a ∷ xs) request refl h g (ground arith) (ground arith)).1),
  λ e. elim e [
    | inl empty ↦ absurd (ground arith)
    | inr same ↦
        subst (λ r. authorized (a ∷ xs) r ≡ true) same
          (ground (arith, token_difference_self (a ∷ xs)))
  ],
)
