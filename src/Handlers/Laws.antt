-- ===== src/Handlers/Laws.antt =====
-- What is registered is what is found and run.
use coroutine_rpc_scheduler.Common.{
  String, ap, arith, eq_iff, false, insert, lookup, lookup-insert, some, str_empty, true, ◌∙◌, ◌≡◌,
  ◌≢◌,
}
use coroutine_rpc_scheduler.Handlers.{
  HandlerRegistry, TaskExecutionContext, ContextTaskHandler, registered, register_context_handler,
  has_handler, execute,
}

name_filled : (name : String) → str_empty name ≡ false → name ≢ ""
name_filled name filled e = let empty = ap str_empty e in cc

-- A handler that was registered is found and run under its name, and every other name is found,
-- and runs, as before.
pub register_context_handler_lem :
    (name other : String) (h : ContextTaskHandler) (r r' : HandlerRegistry)
    (context : TaskExecutionContext) (params : String)
    → register_context_handler name (some h) r ≡ registered r'
    → (name ≢ "")
      × (has_handler name r' ≡ true)
      × (execute name context params r' ≡ h context params)
      × (other ≢ name
          → (has_handler other r' ≡ has_handler other r)
            × (execute other context params r' ≡ execute other context params r))
unfolding register_context_handler has_handler execute
register_context_handler_lem name other h r r' context params done =
    let filled : str_empty name ≡ false = ground arith in
    let new : r' ≡ insert name h r = ground arith in
    let mine : lookup name r' ≡ some h =
      ap (lookup name) new ∙ lookup-insert name name h r ∙ ground (arith, eq_iff name name) in
    (
      λ e. name_filled name filled e,
      ground (arith, mine),
      ground (arith, mine),
      λ ne.
          let same : lookup other r' ≡ lookup other r =
            ap (lookup other) new
            ∙ lookup-insert name other h r
            ∙ ground (arith, eq_iff name other, ne) in
          (ground (arith, same), ground (arith, same)),
    )
