-- ===== src/Pool/Address.antt =====
-- RpcClientPool::parseEndpoint. `long` is taken to have 64 bits.
use coroutine_rpc_scheduler.Common.{
  Bool, List, Option, String, [], false, if◌then◌else◌, leb, ltb, min, none, not, some, str_empty,
  true, ℕ, ◌&&◌, ◌*◌, ◌+◌, ◌-◌, ◌==◌, ◌^◌, ◌||◌, ◌∷◌,
}
use Prim.Native.Char.{code}

pub record EndpointAddress : Type 0 where
  pub host : String
  pub port : ℕ

-- The characters that strtol walks. One that is not ASCII is one number here and several bytes in
-- the program; either way no digit, sign or space is among them, and the number ends there.
abbrev pub characters : String → List ℕ
characters String.[] = []
characters (String.◌∷◌ first rest) = code first ∷ characters rest

-- What stands before and after the last ':', as rfind and substr give it.
abbrev pub split_last_colon : String → Option (String × String)
split_last_colon String.[] = none
split_last_colon (String.◌∷◌ c s) = elim (split_last_colon s) [
  | some (host, port) ↦ some (String.◌∷◌ c host, port)
  | none ↦ if code c == b':' then some (String.[], s) else none
]

abbrev pub is_space : ℕ → Bool
is_space c = c == 32 || leb 9 c && leb c 13

abbrev pub is_digit : ℕ → Bool
is_digit c = leb b'0' c && leb c b'9'

abbrev pub skip_spaces : List ℕ → List ℕ
skip_spaces [] = []
skip_spaces (c ∷ cs) = let rest = skip_spaces cs in if is_space c then rest else c ∷ cs

-- The digits from here on: their value after `acc`, and what follows them.
abbrev pub read_digits : ℕ → List ℕ → ℕ × List ℕ
read_digits acc [] = (acc, [])
read_digits acc (c ∷ cs) =
    let rest = read_digits (10 * acc + (c - b'0')) cs in if is_digit c then rest else (acc, c ∷ cs)

-- The digits after an optional sign: whether there are any, whether the sign is '-', the value, and
-- what follows.
abbrev pub Number : Type 0
Number = Bool × Bool × ℕ × List ℕ

abbrev pub read_unsigned : Bool → List ℕ → Number
read_unsigned negative [] = (false, negative, 0, [])
read_unsigned negative (c ∷ cs) =
    let (value, rest) = read_digits 0 (c ∷ cs) in
    (is_digit c, negative, min value (2 ^ 63 - 1), rest)

abbrev pub read_signed : List ℕ → Number
read_signed [] = (false, false, 0, [])
read_signed (c ∷ cs) =
    if c == b'-'
    then read_unsigned true cs
    else if c == b'+'
    then read_unsigned false cs
    else read_unsigned false (c ∷ cs)

-- strtol in base 10, on the text up to its first NUL.
abbrev pub strtol : List ℕ → Number
strtol cs = read_signed (skip_spaces cs)

-- The C text ends here.
abbrev pub at_end : List ℕ → Bool
at_end [] = true
at_end (c ∷ cs) = c == 0

unfoldable pub parse_endpoint : String → Option EndpointAddress
parse_endpoint endpoint = elim (split_last_colon endpoint) [
  | none ↦ none
  | some (host, port_text) ↦
      let (any_digits, negative, port, rest) = strtol (characters port_text) in
      if str_empty host || str_empty port_text
      then none
      else if not any_digits || not (at_end rest) || negative || port == 0 || ltb 65535 port
      then none
      else some (record { host = host; port = port })
]
