-- ===== src/Cancellation/Tokens.antt =====
-- What the holders of tokens see.
use coroutine_rpc_scheduler.Common.{List, [], arith, refl, true, ◌++◌, ◌||◌, ◌∷◌, ◌≡◌, ◌≢◌}
use coroutine_rpc_scheduler.Cancellation.{
  Flags, Source, cancel, is_canceled, Token, token, link_cancellation_tokens,
}

link-append :
    (ts us : List Token) (fl : Flags)
    → link_cancellation_tokens (ts ++ us) fl
      ≡ (link_cancellation_tokens ts fl || link_cancellation_tokens us fl)
unfolding link_cancellation_tokens
link-append [] us fl = refl
link-append (t ∷ ts) us fl = ground (arith, link-append ts us fl)

-- After `cancel` every linked token that has a token of the source among its parts is canceled,
-- and the flag of any other source is as it was.
pub cancel-link :
    (s : Source) (before after : List Token) (fl : Flags)
    → (link_cancellation_tokens (before ++ (token s ∷ after)) (cancel s fl) ≡ true)
      × ((r : Source) → r ≢ s → is_canceled r (cancel s fl) ≡ is_canceled r fl)
unfolding link_cancellation_tokens cancel token
cancel-link s before after fl =
    (ground (arith, link-append before (token s ∷ after) (cancel s fl)), λ r h. ground (arith, h))
