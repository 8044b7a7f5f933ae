-- ===== src/AgUi/Thread/Replay.antt =====
-- The numbers of events in `apply` of ui/ag-ui/core.ts: a tab that joins again is sent the run in
-- flight from its first event.
use chanx_kit.AgUi.Contract.{AgUiEvent}
use chanx_kit.AgUi.Contract.Runs.{RunStartedEvent}
use chanx_kit.AgUi.Thread.{
  AgentThread, apply, dispatch, is_other_start, is_run_start, numbered, snapshot_of,
}
use chanx_kit.Prelude.{
  some, none, true, false, ==_refl, Bool, List, Option, String, [], arith, inl, inr, max, refl, ℕ,
  ◌∷◌, ◌≡◌, ◌≤◌, ◌⊎◌, All, ap, opt_eq_iff, sym, ◌++◌, ◌∙◌,
}

-- An event of a broadcast run with its number, and what `newId` would return.
pub record Numbered : Type 0 where
  pub fresh : String
  pub event : AgUiEvent
  pub seq : ℕ

abbrev pub apply_all : List Numbered → AgentThread → AgentThread
apply_all [] t = t
apply_all (e ∷ es) t = apply_all es (apply e.fresh e.event (some e.seq) t)

-- An event that neither starts nor ends a run.
abbrev pub is_inside : AgUiEvent → Bool
is_inside (AgUiEvent.run_started e) = false
is_inside (AgUiEvent.run_finished e) = false
is_inside (AgUiEvent.run_error e) = false
is_inside _ = true

abbrev pub IsInside : Numbered → Type 0
IsInside e = is_inside e.event ≡ true

dispatch-last_seq :
    (fresh : String) (e : AgUiEvent) (seq : Option ℕ) (t : AgentThread)
    → (dispatch fresh e seq t).last_seq ≡ t.last_seq
unfolding dispatch
dispatch-last_seq fresh (AgUiEvent.run_error e) seq t = ground arith
dispatch-last_seq fresh (AgUiEvent.tool_call_args e) seq t = ground arith
dispatch-last_seq fresh (AgUiEvent.tool_call_chunk e) seq t = ground arith
dispatch-last_seq fresh _ seq t = refl

dispatch-run_id :
    (fresh : String) (e : AgUiEvent) (seq : Option ℕ) (t : AgentThread)
    → is_inside e ≡ true
    → (snapshot_of (dispatch fresh e seq t)).run_id ≡ (snapshot_of t).run_id
unfolding dispatch
dispatch-run_id fresh (AgUiEvent.run_started e) seq t h = cc
dispatch-run_id fresh (AgUiEvent.run_finished e) seq t h = cc
dispatch-run_id fresh (AgUiEvent.run_error e) seq t h = cc
dispatch-run_id fresh (AgUiEvent.tool_call_args e) seq t h = ground arith
dispatch-run_id fresh (AgUiEvent.tool_call_chunk e) seq t h = ground arith
dispatch-run_id fresh _ seq t h = refl

is_inside-is_run_start : (e : AgUiEvent) → is_inside e ≡ true → is_run_start e ≡ none
is_inside-is_run_start (AgUiEvent.run_started e) h = cc
is_inside-is_run_start _ h = refl

-- The run `id` is in flight, and its events up to number `n` have been applied.
abbrev HasSeen : String → ℕ → AgentThread → Type 0
HasSeen id n t = ((snapshot_of t).run_id ≡ some id) × (n ≤ t.last_seq)

-- An event that a tab which has seen number `n` of the run drops.
abbrev IsOld : String → ℕ → Numbered → Type 0
IsOld id n e = (is_run_start e.event ≡ none ⊎ is_run_start e.event ≡ some id) × (e.seq ≤ n)

is_other_start_old :
    (id : String) (e : AgUiEvent) (t : AgentThread)
    → (is_run_start e ≡ none ⊎ is_run_start e ≡ some id)
    → (snapshot_of t).run_id ≡ some id
    → is_other_start e t ≡ false
is_other_start_old id e t (inl h) k = rw (is_other_start, h)
is_other_start_old id e t (inr h) k = rw (is_other_start, h, k, ==_refl)

apply_old :
    (id : String) (n : ℕ) (e : Numbered) (t : AgentThread)
    → IsOld id n e
    → HasSeen id n t
    → apply e.fresh e.event (some e.seq) t ≡ t
unfolding apply
apply_old id n e t o h = let k = is_other_start_old id e.event t o.0 h.0 in ground arith

apply_inside :
    (id : String) (n : ℕ) (e : Numbered) (t : AgentThread)
    → IsInside e
    → HasSeen id n t
    → HasSeen id (max n e.seq) (apply e.fresh e.event (some e.seq) t)
unfolding apply
apply_inside id n e t i h =
    let k = is_other_start_old id e.event t (inl (is_inside-is_run_start e.event i)) h.0 in
    let l = dispatch-last_seq e.fresh e.event (some e.seq) (numbered e.seq e.event t) in
    let r = dispatch-run_id e.fresh e.event (some e.seq) (numbered e.seq e.event t) i in
    ground arith

apply_start :
    (s : Numbered) (e : RunStartedEvent) (t : AgentThread)
    → s.event ≡ AgUiEvent.run_started e
    → HasSeen e.run_id s.seq (apply s.fresh s.event (some s.seq) t)
unfolding apply
apply_start s e t h = rw h (ground (arith, opt_eq_iff (some e.run_id) (snapshot_of t).run_id))

-- The highest number, `n` included.
top : ℕ → List Numbered → ℕ
top n [] = n
top n (e ∷ es) = top (max n e.seq) es

top-le : (n : ℕ) (es : List Numbered) → n ≤ top n es
unfolding top
top-le n [] = omega arith
top-le n (e ∷ es) = omega (arith, top-le (max n e.seq) es)

apply_all_inside :
    (id : String) (n : ℕ) (es : List Numbered) (t : AgentThread)
    → All IsInside es
    → HasSeen id n t
    → HasSeen id (top n es) (apply_all es t)
unfolding top
apply_all_inside id n [] t i h = h
apply_all_inside id n (e ∷ es) t i h =
    apply_all_inside id (max n e.seq) es (apply e.fresh e.event (some e.seq) t) i.1
      (apply_inside id n e t i.0 h)

inside-IsOld :
    (id : String) (n : ℕ) (es : List Numbered) → All IsInside es → All (IsOld id (top n es)) es
unfolding top
inside-IsOld id n [] i = tt
inside-IsOld id n (e ∷ es) i =
    let l = top-le (max n e.seq) es in
    ((inl (is_inside-is_run_start e.event i.0), omega arith), inside-IsOld id (max n e.seq) es i.1)

apply_all_old :
    (id : String) (n : ℕ) (es : List Numbered) (t : AgentThread)
    → All (IsOld id n) es
    → HasSeen id n t
    → apply_all es t ≡ t
apply_all_old id n [] t o h = refl
apply_all_old id n (e ∷ es) t o h = rw (apply_old id n e t o.0 h) (apply_all_old id n es t o.1 h)

apply_all-append :
    (es fs : List Numbered) (t : AgentThread)
    → apply_all (es ++ fs) t ≡ apply_all fs (apply_all es t)
apply_all-append [] fs t = refl
apply_all-append (e ∷ es) fs t = apply_all-append es fs (apply e.fresh e.event (some e.seq) t)

-- A tab has seen the beginning of a run: its start, and events that do not end it, with any numbers.
-- If it joins again and is sent that beginning once more, and then the rest, its thread is what it
-- would be if the events had come once: nothing is applied twice, and nothing of the rest is lost.
pub rejoin_lem :
    (s : Numbered) (e : RunStartedEvent) (seen rest : List Numbered) (t : AgentThread)
    → s.event ≡ AgUiEvent.run_started e
    → All IsInside seen
    → apply_all ((s ∷ seen) ++ rest) (apply_all (s ∷ seen) t) ≡ apply_all ((s ∷ seen) ++ rest) t
rejoin_lem s e seen rest t h i =
    let a = apply_all (s ∷ seen) t in
    let k = apply_all_inside e.run_id s.seq seen _ i (apply_start s e t h) in
    let o : IsOld e.run_id (top s.seq seen) s = (inr (rw h refl), top-le s.seq seen) in
    let same : apply_all (s ∷ seen) a ≡ a =
      apply_all_old e.run_id (top s.seq seen) (s ∷ seen) a (o, inside-IsOld e.run_id s.seq seen i)
        k in
    apply_all-append (s ∷ seen) rest a
    ∙ ap (apply_all rest) same
    ∙ sym (apply_all-append (s ∷ seen) rest t)
