-- ===== src/Server/Resolver/Ready.antt =====
-- server/resolve.go: readiness beside the log of the updates.
use mamori.Prelude.{
  ◌≡◌, refl, ap, ◌∙◌, sym, Bool, true, false, ◌&&◌, not, Option, none, some, List, [], ◌∷◌, ◌++◌,
  Text, if◌then◌else◌, Map, get, str_eq, arith, Bool-cases, inl, inr, Unique, all_entries,
  all_entries-get, get-all_entries, Unique-put,
}
use mamori.Engine.State.{Update}
use mamori.Errors.{Error}
use mamori.Value.{Time, Value}
use mamori.Server.Bindings.{Binding}
use mamori.Server.Resolver.{
  BindingSnapshot, Resolvers, is_settled, all_settled, ready_state, priming_state, readiness,
  receive_entry, receive, start_all, initial_snapshot,
}
use mamori.Server.Resolver.Log.{
  Log, deliver_log, history, stored, get-deliver_log, initial_entry, stored_entry, get-start_all,
}
use mamori.Server.Resolver.LastGood.{
  stored-snapshot_of, snapshot_of, settled_by, newest_good, newest_error, before_updates,
}

-- Each binding that has a provider has been heard of.
pub all_heard : (Text → Bool) → Log → Map Binding → Bool
unfolding all_entries
all_heard has_provider log bindings =
    all_entries (λ name b. settled_by (has_provider b.ref.scheme) (history name log)) bindings

all_settled-all_entries : (m : Resolvers) → all_settled m ≡ all_entries (λ name s. is_settled s) m
unfolding all_settled all_entries
all_settled-all_entries [] = refl
all_settled-all_entries ((name, s) ∷ m) =
    ap (λ b. if is_settled s then b else false) (all_settled-all_entries m)

Unique-receive_entry :
    (now : Time) (n : Text) (up : Update) (m : Resolvers) (o : Option (Option BindingSnapshot))
    → Unique m
    → Unique (receive_entry now n up m o)
unfolding receive_entry
Unique-receive_entry now n up m none u = u
Unique-receive_entry now n up m (some prev) u = Unique-put m n _ u

Unique-deliver_log : (log : Log) (m : Resolvers) → Unique m → Unique (deliver_log log m)
unfolding deliver_log receive
Unique-deliver_log [] m u = u
Unique-deliver_log ((now, n, up) ∷ log) m u =
    let before = deliver_log log m in
    Unique-receive_entry now n up before (get before n) (Unique-deliver_log log m u)

Unique-start_all :
    (has_provider : Text → Bool) (bindings : Map Binding)
    → Unique bindings
    → Unique (start_all has_provider bindings)
unfolding Unique start_all
Unique-start_all has_provider [] u = tt
Unique-start_all has_provider ((name, b) ∷ bindings) (absent, u) = (
  get-start_all has_provider bindings name ∙ ap (initial_entry has_provider) absent,
  Unique-start_all has_provider bindings u,
)

snapshot_of-settled :
    (g : Option (Time × Value)) (e : Option Error) (b : Bool)
    → is_settled (some (snapshot_of g e b)) ≡ b
unfolding is_settled
snapshot_of-settled none e b = refl
snapshot_of-settled (some (t, v)) e b = refl

settled-snapshot_of :
    (registered : Bool) (hist : List (Time × Update))
    → is_settled (stored hist (some (initial_snapshot registered))) ≡ settled_by registered hist
settled-snapshot_of registered hist =
    ap is_settled (stored-snapshot_of registered hist)
    ∙ snapshot_of-settled (newest_good hist) (newest_error (before_updates registered) hist)
        (settled_by registered hist)

module _ (has_provider : Text → Bool) (bindings : Map Binding) (log : Log) where
  entry :
      (name : Text)
      → get (deliver_log log (start_all has_provider bindings)) name
        ≡ stored_entry (history name log) (initial_entry has_provider (get bindings name))
  entry name =
      get-deliver_log log (start_all has_provider bindings) name
      ∙ ap (stored_entry (history name log)) (get-start_all has_provider bindings name)

  heard_of :
      all_entries (λ name s. is_settled s) (deliver_log log (start_all has_provider bindings))
        ≡ true
      → (name : Text) (b : Binding) → get bindings name ≡ some b
      → settled_by (has_provider b.ref.scheme) (history name log) ≡ true
  heard_of h name b there =
      sym (settled-snapshot_of (has_provider b.ref.scheme) (history name log))
      ∙ all_entries-get (λ name s. is_settled s) (deliver_log log (start_all has_provider bindings))
          name _ h
          (entry name
            ∙ ap (λ o. stored_entry (history name log) (initial_entry has_provider o)) there)

  settled_entry :
      all_heard has_provider log bindings ≡ true
      → (name : Text) (s : Option BindingSnapshot) (o : Option Binding) → get bindings name ≡ o
      → stored_entry (history name log) (initial_entry has_provider o) ≡ some s
      → is_settled s ≡ true
  unfolding all_heard
  settled_entry h name s none found made = absurd (ground (arith, made))
  settled_entry h name s (some b) found made =
      let same : stored (history name log) (some (initial_snapshot (has_provider b.ref.scheme)))
          ≡ s =
        ground (arith, made) in
      ap is_settled (sym same)
      ∙ settled-snapshot_of (has_provider b.ref.scheme) (history name log)
      ∙ all_entries-get _ bindings name b h found

  pub all_settled-all_heard :
      Unique bindings
      → all_settled (deliver_log log (start_all has_provider bindings))
        ≡ all_heard has_provider log bindings
  unfolding all_heard
  all_settled-all_heard u =
      let after = deliver_log log (start_all has_provider bindings) in
      let keys =
        Unique-deliver_log log (start_all has_provider bindings)
          (Unique-start_all has_provider bindings u) in
      all_settled-all_entries after ∙ (elim (Bool-cases (all_heard has_provider log bindings)) [
        | inl heard ↦
            get-all_entries (λ name s. is_settled s) after keys
              (λ name s found.
                settled_entry heard name s (get bindings name) refl (sym (entry name) ∙ found))
            ∙ sym heard
        | inr unheard ↦ elim (Bool-cases (all_entries (λ name s. is_settled s) after)) [
          | inl settled ↦
              let heard =
                get-all_entries _ bindings u (λ name b there. heard_of settled name b there) in
              absurd (ground (arith, heard, unheard))
          | inr unsettled ↦ unsettled ∙ sym unheard
        ]
      ])

history_kept :
    (registered : Bool) (name : Text) (log later : Log)
    → settled_by registered (history name log) ≡ true
    → settled_by registered (history name (later ++ log)) ≡ true
unfolding history
history_kept registered name log [] h = h
history_kept registered name log ((now, n, up) ∷ later) h = elim (Bool-cases (str_eq n name)) [
  | inl same ↦ rw same (ground arith)
  | inr other ↦ rw other (history_kept registered name log later h)
]

all_heard_kept :
    (has_provider : Text → Bool) (bindings : Map Binding) (log later : Log)
    → Unique bindings
    → all_heard has_provider log bindings ≡ true
    → all_heard has_provider (later ++ log) bindings ≡ true
unfolding all_heard
all_heard_kept has_provider bindings log later u h = get-all_entries _ bindings u (λ name b there.
    history_kept (has_provider b.ref.scheme) name log later
      (all_entries-get _ bindings name b h there))

-- A server with distinct binding names that is not draining: it is ready exactly if every binding
-- whose scheme has a provider has got an update, good or bad, and says that it is priming if not;
-- and once it is ready it stays ready over all later updates.
pub readiness-all_heard :
    (has_provider : Text → Bool) (bindings : Map Binding) (log later : Log)
    → Unique bindings
    → (readiness false (deliver_log log (start_all has_provider bindings)) ≡ (
        if all_heard has_provider log bindings
        then (ready_state, true)
        else (priming_state, false)))
      × ((all_heard has_provider log bindings
            && not (all_heard has_provider (later ++ log) bindings))
          ≡ false)
unfolding readiness
readiness-all_heard has_provider bindings log later u = (
  ap (λ b. if b then (ready_state, true) else (priming_state, false))
      (all_settled-all_heard has_provider bindings log u),
  elim (Bool-cases (all_heard has_provider log bindings)) [
    | inl heard ↦ rw (heard, all_heard_kept has_provider bindings log later u heard) refl
    | inr unheard ↦ rw unheard refl
  ],
)
