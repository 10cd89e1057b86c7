-- ===== src/Server/Resolver/Log.antt =====
-- server/resolve.go: what the updates of the watches make of the snapshots.
use mamori.Prelude.{
  ◌≡◌, refl, ap, ◌∙◌, Bool, Option, none, some, List, [], ◌∷◌, Text, str_eq, if◌then◌else◌, Map,
  get, get-put, subst, Bool-cases, Option-cases, inl, inr, str_eq_iff,
}
use mamori.Value.{Time}
use mamori.Engine.State.{Update}
use mamori.Server.Bindings.{Binding}
use mamori.Server.Resolver.{
  BindingSnapshot, apply, initial_snapshot, Resolvers, receive_entry, receive, start_all,
}

-- The log of all watches, the newest first: when, for which binding, what.
abbrev pub Log : Type 0
Log = List (Time × Text × Update)

-- The goroutines of start, over the log.
unfoldable pub deliver_log : Log → Resolvers → Resolvers
deliver_log [] resolved = resolved
deliver_log ((now, name, up) ∷ log) resolved = receive now name up (deliver_log log resolved)

-- The updates of one binding, the newest first.
unfoldable pub history : Text → Log → List (Time × Update)
history name [] = []
history name ((now, n, up) ∷ log) =
    let rest = history name log in if str_eq n name then (now, up) ∷ rest else rest

unfoldable pub stored : List (Time × Update) → Option BindingSnapshot → Option BindingSnapshot
stored [] prev = prev
stored ((now, up) ∷ hist) prev = some (apply now up (stored hist prev))

-- What a log makes of an entry.
abbrev pub stored_entry :
    List (Time × Update) → Option (Option BindingSnapshot) → Option (Option BindingSnapshot)
stored_entry hist none = none
stored_entry hist (some prev) = some (stored hist prev)

get-receive_entry :
    (now : Time) (n : Text) (up : Update) (resolved : Resolvers) (name : Text)
    (o : Option (Option BindingSnapshot))
    → get resolved n ≡ o
    → get (receive_entry now n up resolved o) name ≡ (
        if str_eq n name
        then stored_entry ((now, up) ∷ []) (get resolved name)
        else get resolved name)
unfolding receive_entry stored
get-receive_entry now n up resolved name none absent = elim (Bool-cases (str_eq n name)) [
  | inl same ↦
      let key : n ≡ name = (str_eq_iff n name).0 same in
      let missing : get resolved name ≡ none = subst (λ k. get resolved k ≡ none) key absent in
      rw (same, missing) refl
  | inr other ↦ rw other refl
]
get-receive_entry now n up resolved name (some prev) there =
    get-put resolved n name (some (apply now up prev)) ∙ (elim (Bool-cases (str_eq n name)) [
      | inl same ↦
          let key : n ≡ name = (str_eq_iff n name).0 same in
          let here : get resolved name ≡ some prev =
            subst (λ k. get resolved k ≡ some prev) key there in
          rw (same, here) refl
      | inr other ↦ rw other refl
    ])

get-receive :
    (now : Time) (n : Text) (up : Update) (resolved : Resolvers) (name : Text)
    → get (receive now n up resolved) name ≡ (
        if str_eq n name
        then stored_entry ((now, up) ∷ []) (get resolved name)
        else get resolved name)
unfolding receive
get-receive now n up resolved name = get-receive_entry now n up resolved name (get resolved n) refl

stored_entry_cons :
    (now : Time) (up : Update) (hist : List (Time × Update)) (o : Option (Option BindingSnapshot))
    → stored_entry ((now, up) ∷ []) (stored_entry hist o) ≡ stored_entry ((now, up) ∷ hist) o
unfolding stored
stored_entry_cons now up hist none = refl
stored_entry_cons now up hist (some prev) = refl

pub get-deliver_log :
    (log : Log) (resolved : Resolvers) (name : Text)
    → get (deliver_log log resolved) name ≡ stored_entry (history name log) (get resolved name)
unfolding deliver_log history stored
get-deliver_log [] resolved name = elim (Option-cases (get resolved name)) [
  | inl absent ↦ rw absent refl
  | inr (prev, there) ↦ rw there refl
]
get-deliver_log ((now, n, up) ∷ log) resolved name =
    let before = get-deliver_log log resolved name in
    get-receive now n up (deliver_log log resolved) name ∙ (elim (Bool-cases (str_eq n name)) [
      | inl same ↦ rw same (
          ap (stored_entry ((now, up) ∷ [])) before
          ∙ stored_entry_cons now up (history name log) (get resolved name))
      | inr other ↦ rw other before
    ])

abbrev pub initial_entry : (Text → Bool) → Option Binding → Option (Option BindingSnapshot)
initial_entry has_provider none = none
initial_entry has_provider (some b) = some (some (initial_snapshot (has_provider b.ref.scheme)))

pub get-start_all :
    (has_provider : Text → Bool) (bindings : Map Binding) (name : Text)
    → get (start_all has_provider bindings) name ≡ initial_entry has_provider (get bindings name)
unfolding get start_all
get-start_all has_provider [] name = refl
get-start_all has_provider ((n, b) ∷ bindings) name = elim (Bool-cases (str_eq n name)) [
  | inl same ↦ rw same refl
  | inr other ↦ rw other (get-start_all has_provider bindings name)
]
