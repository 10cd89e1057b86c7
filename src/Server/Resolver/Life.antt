-- ===== src/Server/Resolver/Life.antt =====
-- server/resolve.go: start, beginListening, Close and the updates, in any order. Each is one step: the
-- mutex resolveMu guards them, and Close is a step up to its grace and one behind it.
use mamori.Prelude.{
  ℕ, ◌+◌, ◌≤◌, ◌≡◌, refl, ◌∙◌, sym, Bool, true, false, Option, none, some, subst, List, [], ◌∷◌,
  Text, if◌then◌else◌, Map, arith, Bool-cases, inl, inr,
}
use mamori.Engine.State.{Update}
use mamori.Value.{Time}
use mamori.Server.Bindings.{Binding}
use mamori.Server.Resolver.{
  ServerState, StartError, start, begin_listening, begin_close, teardown, receive, start_all,
  is_closed, already_started, readiness, draining_state,
}

pub data Op : Type 0 where
  starts : (Text → Bool) → Map Binding → Op
  listens : ℕ → Op
  gets : Time → Text → Update → Op
  closes tears_down : Op

pub op_step : Op → ServerState → ServerState
op_step (starts has_provider bindings) s = (start has_provider bindings s).0
op_step (listens n) s = (begin_listening n s).0
op_step (gets now name up) s = record s { resolved = receive now name up s.resolved }
op_step closes s = begin_close s
op_step tears_down s = teardown s

pub run_ops : List Op → ServerState → ServerState
run_ops [] s = s
run_ops (op ∷ ops) s = run_ops ops (op_step op s)

abbrev pub fresh : ServerState
fresh = record {
  started = false;
  closed = false;
  draining = false;
  torn_down = false;
  listening = 0;
  resolved = [];
}

-- Draining is what a closed server does.
abbrev IsOrderly : ServerState → Type 0
IsOrderly s = s.draining ≡ s.closed

op_step-IsOrderly : (op : Op) (s : ServerState) → IsOrderly s → IsOrderly (op_step op s)
unfolding op_step start begin_listening begin_close teardown
op_step-IsOrderly (starts has_provider bindings) s h = elim (Bool-cases s.closed) [
  | inl closed ↦ rw closed (h ∙ closed)
  | inr live ↦ elim (Bool-cases s.started) [
    | inl again ↦ rw (live, again) (h ∙ live)
    | inr first ↦ rw (live, first) (h ∙ live)
  ]
]
op_step-IsOrderly (listens n) s h = elim (Bool-cases s.closed) [
  | inl closed ↦ rw closed (h ∙ closed)
  | inr live ↦ rw live (h ∙ live)
]
op_step-IsOrderly (gets now name up) s h = h
op_step-IsOrderly closes s h = elim (Bool-cases s.closed) [
  | inl closed ↦ rw closed (h ∙ closed)
  | inr live ↦ rw live refl
]
op_step-IsOrderly tears_down s h = h

run_ops-IsOrderly : (ops : List Op) (s : ServerState) → IsOrderly s → IsOrderly (run_ops ops s)
unfolding run_ops
run_ops-IsOrderly [] s h = h
run_ops-IsOrderly (op ∷ ops) s h = run_ops-IsOrderly ops (op_step op s) (op_step-IsOrderly op s h)

-- What a closed server has become of the state it was closed in.
abbrev Shut : ServerState → ServerState → Type 0
Shut s t = (t.closed ≡ true) × (t.listening ≤ s.listening) × (t.started ≡ s.started)

op_step-Shut : (op : Op) (s t : ServerState) → Shut s t → Shut s (op_step op t)
unfolding op_step start begin_listening begin_close teardown
op_step-Shut (starts has_provider bindings) s t (closed, less, same) =
    subst
      (λ b.
        let out : ServerState × Option StartError =
          if b
          then (t, some is_closed)
          else if t.started
          then (t, some already_started)
          else (record t { started = true; resolved = start_all has_provider bindings }, none) in
        Shut s out.0)
      (sym closed) (closed, less, same)
op_step-Shut (listens n) s t (closed, less, same) =
    subst
      (λ b.
        let out : ServerState × Bool =
          if b then (t, false) else (record t { listening = t.listening + n }, true) in
        Shut s out.0)
      (sym closed) (closed, less, same)
op_step-Shut (gets now name up) s t h = h
op_step-Shut closes s t (closed, less, same) =
    subst (λ b. Shut s (if b then t else record t { closed = true; draining = true })) (sym closed)
      (closed, less, same)
op_step-Shut tears_down s t (closed, less, same) = (closed, omega arith, same)

run_ops-Shut : (ops : List Op) (s t : ServerState) → Shut s t → Shut s (run_ops ops t)
unfolding run_ops
run_ops-Shut [] s t h = h
run_ops-Shut (op ∷ ops) s t h = run_ops-Shut ops s (op_step op t) (op_step-Shut op s t h)

begin_close-Shut : (s : ServerState) → Shut s (begin_close s)
unfolding begin_close
begin_close-Shut s = elim (Bool-cases s.closed) [
  | inl closed ↦
      subst (λ b. Shut s (if b then s else record s { closed = true; draining = true }))
        (sym closed) (closed, omega arith, refl)
  | inr live ↦ rw live (refl, omega arith, refl)
]

-- A new server, after any operations, a Close, and any further operations, with updates that still
-- arrive among them: it is closed, it says that it is draining and not ready, no start has begun to
-- serve and no listener was added.
pub run_ops-begin_close :
    (before after : List Op)
    → let s = run_ops before fresh in
      let t = run_ops after (begin_close s) in
      (t.closed ≡ true)
      × (readiness t.draining t.resolved ≡ (draining_state, false))
      × (t.listening ≤ s.listening)
      × (t.started ≡ s.started)
unfolding readiness begin_close op_step
run_ops-begin_close before after =
    let s = run_ops before fresh in
    let t = run_ops after (begin_close s) in
    let orderly = run_ops-IsOrderly before fresh refl in
    let (closed, less, same) = run_ops-Shut after s (begin_close s) (begin_close-Shut s) in
    let draining : t.draining ≡ true =
      run_ops-IsOrderly after (begin_close s) (op_step-IsOrderly closes s orderly) ∙ closed in
    (closed, rw draining refl, less, same)
