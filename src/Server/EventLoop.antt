-- ===== src/Server/EventLoop.antt =====
-- EpollLoop of src/net/epoll_loop.cpp. A callback or a resumed coroutine is the list of what it does
-- to the loop; what epoll answers, and when another thread stops the loop, is the environment. The
-- lists stand for the maps, in the order of their iterators.
pub mod Stopping
use coroutine_rpc_scheduler.Common.{
  Bool, List, Option, [], any, false, if◌then◌else◌, keep_if, none, not, some, true, ℕ, ◌&&◌, ◌++◌,
  ◌==◌, ◌||◌, ◌∷◌,
}

-- `is_open` is whether there is an epoll descriptor; a coroutine is named by a number.
pub record EpollLoop : Type 0 where
  pub is_open : Bool
  pub stop_requested : Bool
  pub callbacks : List ℕ
  pub coroutines : List (ℕ × ℕ)
  -- The coroutines that have been resumed so far.
  pub resumed : List ℕ

-- `Bool` is whether epoll_ctl succeeds.
pub data Action : Type 0 where
  adds_fd : ℕ → Bool → Action
  adds_coroutine : ℕ → ℕ → Bool → Action
  deletes : ℕ → Action
  stops : Action

abbrev pub without : ℕ → List (ℕ × ℕ) → List (ℕ × ℕ)
without fd xs = keep_if (λ x. not (x.0 == fd)) xs

abbrev pub refuses : Bool → EpollLoop → Bool
refuses added l = not l.is_open || (l.stop_requested || not added)

unfoldable pub del_fd : ℕ → EpollLoop → EpollLoop
del_fd fd l = record l {
  callbacks = keep_if (λ x. not (x == fd)) l.callbacks;
  coroutines = without fd l.coroutines;
}

unfoldable pub add_fd : ℕ → Bool → EpollLoop → Bool × EpollLoop
add_fd fd added l =
    if refuses added l
    then (false, l)
    else (true, record l { callbacks = fd ∷ keep_if (λ x. not (x == fd)) l.callbacks })

unfoldable pub add_coroutine : ℕ → ℕ → Bool → EpollLoop → Bool × EpollLoop
add_coroutine fd coroutine added l =
    if refuses added l
    then (false, l)
    else (true, record l { coroutines = (fd, coroutine) ∷ without fd l.coroutines })

unfoldable pub stop : EpollLoop → EpollLoop
stop l = record l { stop_requested = true }

unfoldable pub act : Action → EpollLoop → EpollLoop
unfolding add_fd add_coroutine del_fd stop
act (adds_fd fd added) l = (add_fd fd added l).1
act (adds_coroutine fd coroutine added) l = (add_coroutine fd coroutine added l).1
act (deletes fd) l = del_fd fd l
act stops l = stop l

abbrev pub act_all : List Action → EpollLoop → EpollLoop
act_all [] l = l
act_all (a ∷ actions) l = act_all actions (act a l)

-- What a callback does, and whether it throws at its end.
pub record Reaction : Type 0 where
  pub actions : List Action
  pub throws : Bool

-- One ready descriptor, with what its callback and its coroutine would do.
pub record Event : Type 0 where
  pub fd : ℕ
  pub called : Reaction
  pub resumption : Reaction

abbrev pub find_coroutine : ℕ → List (ℕ × ℕ) → Option ℕ
find_coroutine fd [] = none
find_coroutine fd (x ∷ xs) = if x.0 == fd then some x.1 else find_coroutine fd xs

abbrev pub resume : ℕ → List Action → EpollLoop → EpollLoop
resume coroutine actions l = act_all actions (record l { resumed = l.resumed ++ (coroutine ∷ []) })

-- The answer false is an exception.
unfoldable pub handle_event : Event → EpollLoop → Bool × EpollLoop
unfolding del_fd act
handle_event e l =
    let has_callback = any (λ x. x == e.fd) l.callbacks in
    let l' = if has_callback then act_all e.called.actions l else l in
    let coroutine_part : Bool × EpollLoop = elim (find_coroutine e.fd l'.coroutines) [
      | none ↦ (true, l')
      | some coroutine ↦
          (not e.resumption.throws, resume coroutine e.resumption.actions (del_fd e.fd l'))
    ] in
    if has_callback && e.called.throws then (false, l') else coroutine_part

unfoldable pub handle_events : List Event → EpollLoop → Bool × EpollLoop
unfolding handle_event
handle_events [] l = (true, l)
handle_events (e ∷ es) l =
    let (good, l') = handle_event e l in
    let more = handle_events es l' in if good then more else (false, l')

-- What epoll_wait answers.
pub data Wait : Type 0 where
  interrupted failed : Wait
  ready : List Event → Wait

-- One round of the loop, and whether another thread stops the loop before the wait returns.
pub record LoopRound : Type 0 where
  pub stopped_meanwhile : Bool
  pub answer : Wait

-- `none` is a loop that waits.
unfoldable pub run_loop : List LoopRound → EpollLoop → Option (Bool × EpollLoop)
unfolding handle_events stop
run_loop [] l = if l.stop_requested then some (true, l) else none
run_loop (r ∷ rounds) l =
    let l' = if r.stopped_meanwhile then stop l else l in
    let next : Option (Bool × EpollLoop) = elim r.answer [
      | interrupted ↦ run_loop rounds l'
      | failed ↦ some (false, l')
      | ready events ↦
          let (good, l'') = handle_events events l' in
          let more = run_loop rounds l'' in if good then more else some (false, l'')
    ] in
    if l.stop_requested then some (true, l) else next

abbrev pub resume_all : (ℕ → List Action) → List (ℕ × ℕ) → EpollLoop → EpollLoop
resume_all actions [] l = l
resume_all actions (x ∷ xs) l = resume_all actions xs (resume x.1 (actions x.1) l)

unfoldable pub resume_pending_coroutines : (ℕ → List Action) → EpollLoop → EpollLoop
unfolding act
resume_pending_coroutines actions l = resume_all actions l.coroutines (record l { coroutines = [] })

unfoldable pub run : (ℕ → List Action) → List LoopRound → EpollLoop → Option (Bool × EpollLoop)
unfolding run_loop resume_pending_coroutines
run actions rounds l =
    let end : Option (Bool × EpollLoop) = elim (run_loop rounds l) [
      | none ↦ none
      | some (success, l') ↦ some (success, resume_pending_coroutines actions l')
    ] in
    if not l.is_open || l.stop_requested
    then some (l.is_open, resume_pending_coroutines actions l)
    else end
