-- ===== src/Cancellation.antt =====
-- include/corpcron/common/cancellation.hpp. A source is a reference to a shared flag; its copies
-- share the flag. `Flags` is the heap of those flags, `next` the reference that is allocated next.
-- (A source that was moved from has no flag; the program does not use one.)
pub mod Tokens
pub mod Registry
use coroutine_rpc_scheduler.Common.{
  Bool, List, [], false, if◌then◌else◌, true, ℕ, ◌+◌, ◌==◌, ◌||◌, ◌∷◌,
}

pub record Flags : Type 0 where
  pub next : ℕ
  pub canceled : ℕ → Bool

abbrev pub Source : Type 0
Source = ℕ

abbrev pub set_flag : (ℕ → Bool) → ℕ → Bool → ℕ → Bool
set_flag f s v r = if s == r then v else f r

-- CancellationSource(), and `reset`, which gives the source that it is called on a new flag.
unfoldable pub make_source : Flags → Source × Flags
make_source fl =
    (fl.next, record fl { next = fl.next + 1; canceled = set_flag fl.canceled fl.next false })

unfoldable pub reset : Source → Flags → Source × Flags
unfolding make_source
reset s fl = make_source fl

unfoldable pub cancel : Source → Flags → Flags
cancel s fl = record fl { canceled = set_flag fl.canceled s true }

abbrev pub is_canceled : Source → Flags → Bool
is_canceled s fl = fl.canceled s

-- A token is its predicate, which reads the flags when it is asked.
abbrev pub Token : Type 0
Token = Flags → Bool

-- CancellationToken()
unfoldable pub empty_token : Token
empty_token fl = false

unfoldable pub token : Source → Token
token s fl = fl.canceled s

unfoldable pub link_cancellation_tokens : List Token → Token
link_cancellation_tokens [] fl = false
link_cancellation_tokens (t ∷ ts) fl = t fl || link_cancellation_tokens ts fl
