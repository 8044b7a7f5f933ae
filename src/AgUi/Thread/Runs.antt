-- ===== src/AgUi/Thread/Runs.antt =====
-- The run in flight, in `apply` and `run` of ui/ag-ui/core.ts.
use chanx_kit.AgUi.Contract.{AgUiEvent}
use chanx_kit.AgUi.Thread.{
  AgentThread, apply, create_agent_thread, dispatch, is_applied, numbered, snapshot_of,
}
use chanx_kit.AgUi.Requests.{RunInput, run}
use chanx_kit.Prelude.{
  some, none, true, false, Bool, List, Option, String, [], arith, if_both, refl, ℕ, ◌∷◌, ◌≡◌,
}

abbrev pub is_some : Option String → Bool
is_some none = false
is_some (some a) = true

-- A run is shown as running when its id is known, and only then.
abbrev pub IsConsistent : AgentThread → Type 0
IsConsistent t = (snapshot_of t).running ≡ is_some (snapshot_of t).run_id

dispatch-IsConsistent :
    (fresh : String) (e : AgUiEvent) (seq : Option ℕ) (t : AgentThread)
    → IsConsistent t
    → IsConsistent (dispatch fresh e seq t)
unfolding dispatch
dispatch-IsConsistent fresh (AgUiEvent.run_started e) seq t h = refl
dispatch-IsConsistent fresh (AgUiEvent.run_finished e) seq t h = refl
dispatch-IsConsistent fresh (AgUiEvent.run_error e) seq t h = ground arith
dispatch-IsConsistent fresh (AgUiEvent.tool_call_args e) seq t h = ground arith
dispatch-IsConsistent fresh (AgUiEvent.tool_call_chunk e) seq t h = ground arith
dispatch-IsConsistent fresh _ seq t h = h

-- One call of the thread: an event with what `newId` would return and its number, or `run`.
pub data Call : Type 0 where
  event : String → AgUiEvent → Option ℕ → Call
  ask : String → String → String → RunInput → Call

abbrev pub after : Call → AgentThread → AgentThread
after (event fresh e seq) t = apply fresh e seq t
after (ask fresh_run fresh_message content input) t =
    (run fresh_run fresh_message content input t).1

abbrev pub after_all : List Call → AgentThread → AgentThread
after_all [] t = t
after_all (c ∷ cs) t = after_all cs (after c t)

apply-IsConsistent :
    (fresh : String) (e : AgUiEvent) (seq : Option ℕ) (t : AgentThread)
    → IsConsistent t
    → IsConsistent (apply fresh e seq t)
unfolding apply
apply-IsConsistent fresh e none t h = dispatch-IsConsistent fresh e none t h
apply-IsConsistent fresh e (some seq) t h =
    if_both IsConsistent (is_applied seq e t) h
      (dispatch-IsConsistent fresh e (some seq) (numbered seq e t) h)

-- Whatever events come, in any order and with any numbers, and whatever the user asks in between, a
-- new thread is shown as running exactly when the id of the run in flight is known.
pub after_all-IsConsistent :
    (cs : List Call) (thread_id : String)
    → IsConsistent (after_all cs (create_agent_thread thread_id))
after_all-IsConsistent cs thread_id = kept cs (create_agent_thread thread_id) refl
  where
    kept : (cs : List Call) (t : AgentThread) → IsConsistent t → IsConsistent (after_all cs t)
    kept [] t h = h
    kept (event fresh e seq ∷ cs) t h =
        kept cs (apply fresh e seq t) (apply-IsConsistent fresh e seq t h)
    kept (ask r m content input ∷ cs) t h = kept cs (run r m content input t).1 (unfold run in h)
