-- ===== src/Handlers.antt =====
-- HandlerRegistry of src/rpc/handler_registry.cpp. A handler is what it does with a context and
-- parameters, as an end that the caller sees; an empty std::function is none. The registry is shared
-- under a lock: each operation is one step, and a handler runs outside of it.
pub mod Builtin
pub mod Laws
use coroutine_rpc_scheduler.Common.{
  Bool, List, Option, String, StringMap, [], false, if◌then◌else◌, insert, lookup, none, some,
  str_append, str_empty, true, ℕ, ◌∷◌,
}
use coroutine_rpc_scheduler.Common.Sort.{sort_by}

pub record TaskExecutionContext : Type 0 where
  pub task_id : String
  pub execution_id : String
  pub deadline_unix_ms : ℕ

-- A result, an exception with the text of what(), or one that is no std::exception.
pub data HandlerEnd : Type 0 where
  returned : String → HandlerEnd
  raised : String → HandlerEnd
  raised_unknown : HandlerEnd

abbrev pub ContextTaskHandler : Type 0
ContextTaskHandler = TaskExecutionContext → String → HandlerEnd

abbrev pub HandlerRegistry : Type 0
HandlerRegistry = StringMap ContextTaskHandler

abbrev pub callback_required : String
callback_required = "Handler name and callback are required"

-- An std::invalid_argument, or the new registry.
pub data Registered : Type 0 where
  invalid_argument : String → Registered
  registered : HandlerRegistry → Registered

unfoldable pub register_context_handler :
    String → Option ContextTaskHandler → HandlerRegistry → Registered
register_context_handler name none r = invalid_argument callback_required
register_context_handler name (some handler) r =
    if str_empty name
    then invalid_argument callback_required
    else registered (insert name handler r)

unfoldable pub register_handler :
    String → Option (String → HandlerEnd) → HandlerRegistry → Registered
unfolding register_context_handler
register_handler name none r = invalid_argument callback_required
register_handler name (some handler) r =
    if str_empty name
    then invalid_argument callback_required
    else register_context_handler name (some (λ context params. handler params)) r

unfoldable pub has_handler : String → HandlerRegistry → Bool
has_handler name r = elim (lookup name r) [ none ↦ false | some h ↦ true ]

abbrev names : HandlerRegistry → List String
names [] = []
names ((name, h) ∷ r) = name ∷ names r

-- `text_before` is the order of std::string.
unfoldable pub handler_names : (String → String → Bool) → HandlerRegistry → List String
unfolding sort_by
handler_names text_before r = sort_by text_before (names r)

unfoldable pub execute : String → TaskExecutionContext → String → HandlerRegistry → HandlerEnd
execute name context params r = elim (lookup name r) [
  | none ↦ raised (str_append "Handler not found: " name)
  | some handler ↦ handler context params
]
