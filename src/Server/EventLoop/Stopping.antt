-- ===== src/Server/EventLoop/Stopping.antt =====
-- How the loop ends: what becomes of the coroutines that still wait.
use coroutine_rpc_scheduler.Common.{
  Bool-cases, List, Option-cases, [], ap, append-nil, append_assoc, arith, if◌then◌else◌, inl, inr,
  map, refl, some, sym, true, ℕ, ◌++◌, ◌∙◌, ◌∷◌, ◌≡◌, ◌⊎◌,
}
use coroutine_rpc_scheduler.Server.EventLoop.{
  EpollLoop, Action, adds_fd, adds_coroutine, deletes, stops, without, del_fd, add_fd,
  add_coroutine, stop, act, act_all, Event, resume, handle_events, Wait, interrupted, failed, ready,
  LoopRound, run_loop, resume_all, resume_pending_coroutines, run,
}

Wait-cases : (w : Wait) → (w ≡ interrupted) ⊎ ((w ≡ failed) ⊎ ((es : List Event) × (w ≡ ready es)))
Wait-cases interrupted = inl refl
Wait-cases failed = inr (inl refl)
Wait-cases (ready es) = inr (inr (es, refl))

-- A loop that ends well has been stopped.
run_loop_stopped :
    (rounds : List LoopRound) (l l' : EpollLoop)
    → run_loop rounds l ≡ some (true, l')
    → l'.stop_requested ≡ true
unfolding run_loop
run_loop_stopped [] l l' h = ground arith
run_loop_stopped (r ∷ rounds) l l' h =
    let m = if r.stopped_meanwhile then stop l else l in
    elim (Bool-cases l.stop_requested) [
      | inl e ↦ ground (arith, e)
      | inr e ↦ elim (Wait-cases r.answer) [
        | inl f ↦ run_loop_stopped rounds m l' (ground (arith, e, f))
        | inr (inl f) ↦ absurd (ground (arith, e, f))
        | inr (inr (events, f)) ↦
            let n = handle_events events m in
            elim (Bool-cases n.0) [
              | inl g ↦ run_loop_stopped rounds n.1 l' (ground (arith, e, f, g))
              | inr g ↦ absurd (ground (arith, e, f, g))
            ]
      ]
    ]

already_stopped :
    (rounds : List LoopRound) (l : EpollLoop)
    → l.stop_requested ≡ true
    → run_loop rounds l ≡ some (true, l)
unfolding run_loop
already_stopped [] l h = ground arith
already_stopped (r ∷ rounds) l h = ground arith

-- Where the loop is stopped and no coroutine waits, none is added, whatever is done.
abbrev IsQuiet : EpollLoop → Type 0
IsQuiet l = (l.stop_requested ≡ true) × (l.coroutines ≡ [])

act-IsQuiet :
    (a : Action) (l : EpollLoop) → IsQuiet l → IsQuiet (act a l) × ((act a l).resumed ≡ l.resumed)
unfolding act add_fd add_coroutine del_fd stop
act-IsQuiet (adds_fd fd added) l q = ground arith
act-IsQuiet (adds_coroutine fd coroutine added) l q = ground arith
act-IsQuiet (deletes fd) l (q, none_waits) = ((q, ap (without fd) none_waits), refl)
act-IsQuiet stops l q = ground arith

act_all-IsQuiet :
    (actions : List Action) (l : EpollLoop)
    → IsQuiet l
    → IsQuiet (act_all actions l) × ((act_all actions l).resumed ≡ l.resumed)
act_all-IsQuiet [] l q = (q, refl)
act_all-IsQuiet (a ∷ actions) l q =
    let (q', same) = act-IsQuiet a l q in
    let (q'', same') = act_all-IsQuiet actions (act a l) q' in (q'', same' ∙ same)

resume_all-IsQuiet :
    (actions : ℕ → List Action) (xs : List (ℕ × ℕ)) (l : EpollLoop)
    → IsQuiet l
    → IsQuiet (resume_all actions xs l)
      × ((resume_all actions xs l).resumed ≡ l.resumed ++ map (λ x. x.1) xs)
resume_all-IsQuiet actions [] l q = (q, sym (append-nil l.resumed))
resume_all-IsQuiet actions (x ∷ xs) l q =
    let next = record l { resumed = l.resumed ++ (x.1 ∷ []) } in
    let (q', same) = act_all-IsQuiet (actions x.1) next q in
    let (q'', all) = resume_all-IsQuiet actions xs (resume x.1 (actions x.1) l) q' in
    (
      q'',
      all
          ∙ ap (λ r. r ++ map (λ y. y.1) xs) same
          ∙ append_assoc l.resumed (x.1 ∷ []) (map (λ y. y.1) xs),
    )

resume_pending_coroutines_lem :
    (actions : ℕ → List Action) (l : EpollLoop)
    → l.stop_requested ≡ true
    → let l' = resume_pending_coroutines actions l in
      (l'.coroutines ≡ []) × (l'.resumed ≡ l.resumed ++ map (λ x. x.1) l.coroutines)
unfolding resume_pending_coroutines
resume_pending_coroutines_lem actions l stopped =
    let (q, all) =
      resume_all-IsQuiet actions l.coroutines (record l { coroutines = [] }) (stopped, refl) in
    (q.1, all)

-- A loop whose run answers true leaves no coroutine behind: those that still waited when the loop
-- ended are each resumed once, in turn, and none can wait again, whatever the coroutines and the
-- callbacks do to the loop, and whenever it was stopped.
pub run_resumes :
    (actions : ℕ → List Action) (rounds : List LoopRound) (l l' : EpollLoop)
    → run actions rounds l ≡ some (true, l')
    → (at_end : EpollLoop) × (run_loop rounds l ≡ some (true, at_end))
      × (at_end.stop_requested ≡ true)
      × (l'.coroutines ≡ [])
      × (l'.resumed ≡ at_end.resumed ++ map (λ x. x.1) at_end.coroutines)
unfolding run
run_resumes actions rounds l l' h = elim (Bool-cases l.stop_requested) [
  | inl e ↦
      let now : run_loop rounds l ≡ some (true, l) = already_stopped rounds l e in
      let same : resume_pending_coroutines actions l ≡ l' = ground (arith, e) in
      let (quiet, all) = resume_pending_coroutines_lem actions l e in
      (l, now, e, ap (λ x. x.coroutines) (sym same) ∙ quiet, ap (λ x. x.resumed) (sym same) ∙ all)
  | inr e ↦ elim (Option-cases (run_loop rounds l)) [
    | inl f ↦ absurd (ground (arith, e, f))
    | inr ((success, end), f) ↦
        let good : success ≡ true = ground (arith, e, f) in
        let found : run_loop rounds l ≡ some (true, end) = f ∙ ap (λ b. some (b, end)) good in
        let stopped = run_loop_stopped rounds l end found in
        let same : resume_pending_coroutines actions end ≡ l' = ground (arith, e, f) in
        let (quiet, all) = resume_pending_coroutines_lem actions end stopped in
        (
          end,
          found,
          stopped,
          ap (λ x. x.coroutines) (sym same) ∙ quiet,
          ap (λ x. x.resumed) (sym same) ∙ all,
        )
  ]
]
