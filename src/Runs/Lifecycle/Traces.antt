-- ===== src/Runs/Lifecycle/Traces.antt =====
-- lifecycle.ts over sequences of events; a refused event leaves the state as it is.
use collab.Base.{
  ◌≡◌, refl, Bool, true, false, List, [], ◌∷◌, Option, none, some, Result, ok, err, refresh, arith,
  if◌then◌else◌,
}
use collab.Runs.Lifecycle.{
  AttemptState, pending, starting, running, exited, AttemptEvent, acknowledged, process_started,
  process_exited, ran_out, RunState, waiting, RunEvent, WaitingReason, RunTransition,
  LifecycleError, is_live, is_terminal, transition_attempt, transition_run,
  attempt_transition_invalid,
}

abbrev pub after : AttemptState → Result LifecycleError AttemptState → AttemptState
after s (ok t) = t
after s (err c r) = s

unfoldable pub run_attempt : AttemptState → List AttemptEvent → AttemptState
run_attempt s [] = s
run_attempt s (e ∷ es) = run_attempt (after s (transition_attempt s e)) es

abbrev pub same_event : AttemptEvent → AttemptEvent → Bool
same_event acknowledged acknowledged = true
same_event process_started process_started = true
same_event process_exited process_exited = true
same_event ran_out ran_out = true
same_event _ _ = false

-- The wanted events occur among the others, in this order.
abbrev pub in_order : List AttemptEvent → List AttemptEvent → Bool
in_order [] es = true
in_order (w ∷ ws) [] = false
in_order (w ∷ ws) (e ∷ es) =
    let rest = in_order ws es in
    let later = in_order (w ∷ ws) es in if same_event w e then rest else later

-- The events that take an attempt from a state to its end: by the process's exit, and by the timeout.
abbrev to_exit : AttemptState → List AttemptEvent
to_exit pending = acknowledged ∷ process_started ∷ process_exited ∷ []
to_exit starting = process_started ∷ process_exited ∷ []
to_exit running = process_exited ∷ []
to_exit _ = []

-- A state that is not live is final.
settled_step :
    (s : AttemptState) (e : AttemptEvent)
    → is_live s ≡ false
    → transition_attempt s e ≡ err attempt_transition_invalid refresh
unfolding transition_attempt
settled_step s e h = ground arith

settled_run : (s : AttemptState) (es : List AttemptEvent) → is_live s ≡ false → run_attempt s es ≡ s
unfolding run_attempt
settled_run s [] h = refl
settled_run s (e ∷ es) h = rw (settled_step s e h) (settled_run s es h)

exit_run :
    (s : AttemptState) (es : List AttemptEvent)
    → run_attempt s es ≡ exited
    → in_order (to_exit s) es ≡ true
unfolding run_attempt transition_attempt
exit_run s [] h = ground arith
exit_run s (e ∷ es) h =
    let t = after s (transition_attempt s e) in ground (arith, exit_run t es h, settled_run t es)

-- An attempt that has exited was acknowledged and then started before its process exited, whatever
-- other events, refused or accepted, came between.
pub exited_history :
    (es : List AttemptEvent)
    → run_attempt pending es ≡ exited
    → in_order (acknowledged ∷ process_started ∷ process_exited ∷ []) es ≡ true
exited_history es h = exit_run pending es h

-- The run's state and its waiting reason, as they are stored; a refused event changes neither.
abbrev pub after_run : RunTransition → Result LifecycleError RunTransition → RunTransition
after_run t (ok u) = u
after_run t (err c r) = t

unfoldable pub run_run : RunTransition → List RunEvent → RunTransition
run_run t [] = t
run_run t (e ∷ es) = run_run (after_run t (transition_run t.state e)) es

abbrev pub is_waiting : RunState → Bool
is_waiting waiting = true
is_waiting _ = false

abbrev pub has_reason : Option WaitingReason → Bool
has_reason none = false
has_reason (some reason) = true

-- A run has a waiting reason exactly while it waits.
abbrev pub IsReasoned : RunTransition → Type 0
IsReasoned t = is_waiting t.state ≡ has_reason t.waiting_reason

step-IsReasoned :
    (t : RunTransition) (e : RunEvent)
    → IsReasoned t
    → IsReasoned (after_run t (transition_run t.state e))
unfolding transition_run
step-IsReasoned t e h = ground arith

run_settled :
    (t : RunTransition) (es : List RunEvent) → is_terminal t.state ≡ true → run_run t es ≡ t
unfolding run_run transition_run
run_settled t [] h = refl
run_settled t (e ∷ es) h = rw h (run_settled t es h)

run-IsReasoned : (t : RunTransition) (es : List RunEvent) → IsReasoned t → IsReasoned (run_run t es)
unfolding run_run
run-IsReasoned t [] h = h
run-IsReasoned t (e ∷ es) h =
    run-IsReasoned (after_run t (transition_run t.state e)) es (step-IsReasoned t e h)

-- After any events a run has a waiting reason exactly if it waits, and a run that is completed, failed
-- or cancelled keeps its state, whatever events come.
run_run-IsReasoned :
    (t : RunTransition) (es : List RunEvent)
    → IsReasoned t
    → IsReasoned (run_run t es) × (is_terminal t.state ≡ true → run_run t es ≡ t)
run_run-IsReasoned t es h = (run-IsReasoned t es h, run_settled t es)
