-- ===== src/Server/Isolation.antt =====
-- server/handler.go: what a response may depend on.
use mamori.Prelude.{
  ◌≡◌, refl, ap, ◌∙◌, inl, inr, Bool, true, false, All, Option, none, some, List, [], ◌∷◌, Text,
  Option-cases,
}
use mamori.Server.Bindings.{Identity, Policy}
use mamori.Server.Resolver.{Lookup, Resolvers, lookup_fresh}
use mamori.Server.Wire.{Frame}
use mamori.Server.Handler.{
  Request, Access, Authenticated, admits, refuses, authenticate, value_for, answer_allowed,
  handle_value,
}
use mamori.Server.Handler.Batch.{
  batch_names, batch_for, batch_entry, batch_entries, handle_batch, limit, max_batch_body_bytes,
}
use mamori.Server.Watch.{
  Opening, open_name, open_names, start_watch, open_stream, watch_for, Watched, WatchStart, refused,
  streams, poll_subs,
}

-- The subs that a watch begins with.
abbrev pub subs_of : WatchStart → List Watched
subs_of (refused response outcomes) = []
subs_of (streams opening) = opening.subs

module _ (policy : Policy) (id : Identity) (r : Request) where
  answer_allowed-same :
      (name : Text) (l m : Lookup)
      → (policy id name ≡ none → l ≡ m)
      → answer_allowed policy id r name l ≡ answer_allowed policy id r name m
  unfolding answer_allowed
  answer_allowed-same name l m h = elim (Option-cases (policy id name)) [
    | inl allowed ↦ ap (answer_allowed policy id r name) (h allowed)
    | inr (e, denied) ↦ rw (denied, answer_allowed) refl
  ]

  batch_entry-same :
      (name : Text) (l m : Lookup)
      → (policy id name ≡ none → l ≡ m)
      → batch_entry policy id r name l ≡ batch_entry policy id r name m
  unfolding batch_entry
  batch_entry-same name l m h = elim (Option-cases (policy id name)) [
    | inl allowed ↦ ap (batch_entry policy id r name) (h allowed)
    | inr (e, denied) ↦ rw (denied, batch_entry) refl
  ]

  open_name-same :
      (name : Text) (l m : Lookup) (rest : Opening)
      → (policy id name ≡ none → l ≡ m)
      → open_name policy id r name l rest ≡ open_name policy id r name m rest
  unfolding open_name
  open_name-same name l m rest h = elim (Option-cases (policy id name)) [
    | inl allowed ↦ ap (λ x. open_name policy id r name x rest) (h allowed)
    | inr (e, denied) ↦ rw (denied, open_name) refl
  ]

module _ (a : Access) (r : Request) (before after : Resolvers)
    (same : (id : Identity) (name : Text)
      → authenticate a r ≡ admits id
      → a.policy id name ≡ none
      → lookup_fresh before name ≡ lookup_fresh after name) where
  batch_entries-same :
      (id : Identity)
      → authenticate a r ≡ admits id
      → (names : List Text)
      → batch_entries a.policy id r before names ≡ batch_entries a.policy id r after names
  unfolding batch_entries
  batch_entries-same id h [] = refl
  batch_entries-same id h (name ∷ names) =
      let one = batch_entry-same a.policy id r name _ _ (same id name h) in
      rw (one, batch_entries-same id h names) refl

  open_names-same :
      (id : Identity)
      → authenticate a r ≡ admits id
      → (names : List Text)
      → open_names a.policy id r before names ≡ open_names a.policy id r after names
  unfolding open_names
  open_names-same id h [] = refl
  open_names-same id h (name ∷ names) =
      open_name-same a.policy id r name _ _ _ (same id name h)
      ∙ ap (open_name a.policy id r name (lookup_fresh after name)) (open_names-same id h names)

  value_for-same :
      (name : Text) (x : Authenticated)
      → authenticate a r ≡ x
      → value_for a.policy before r name x ≡ value_for a.policy after r name x
  unfolding value_for
  value_for-same name (refuses f) h = refl
  value_for-same name (admits id) h = answer_allowed-same a.policy id r name _ _ (same id name h)

  batch_names-same :
      (id : Identity)
      → authenticate a r ≡ admits id
      → (o : Option (List Text))
      → batch_names a.policy id before r o ≡ batch_names a.policy id after r o
  unfolding batch_names
  batch_names-same id h none = refl
  batch_names-same id h (some names) = rw (batch_entries-same id h names) refl

  batch_for-same :
      (decode : Text → Option (List Text)) (x : Authenticated)
      → authenticate a r ≡ x
      → batch_for a.policy decode before r x ≡ batch_for a.policy decode after r x
  unfolding batch_for
  batch_for-same decode (refuses f) h = refl
  batch_for-same decode (admits id) h =
      batch_names-same id h (decode (limit max_batch_body_bytes r.body))

  open_stream-same :
      (id : Identity)
      → authenticate a r ≡ admits id
      → (can_flush : Bool) (names : List Text)
      → open_stream a id r before can_flush names ≡ open_stream a id r after can_flush names
  unfolding open_stream
  open_stream-same id h can_flush [] = refl
  open_stream-same id h can_flush (name ∷ names) = rw (open_names-same id h (name ∷ names)) refl

  watch_for-same :
      (can_flush : Bool) (names : List Text) (x : Authenticated)
      → authenticate a r ≡ x
      → watch_for a before can_flush r names x ≡ watch_for a after can_flush r names x
  unfolding watch_for
  watch_for-same can_flush names (refuses f) h = refl
  watch_for-same can_flush names (admits id) h = open_stream-same id h can_flush names

  -- The subs of a stream are of bindings that the policy allows.
  open_names-allowed :
      (id : Identity) (names : List Text)
      → All (λ (w : Watched). a.policy id w.name ≡ none) (open_names a.policy id r after names).subs
  unfolding open_names open_name
  open_names-allowed id [] = tt
  open_names-allowed id (name ∷ names) = elim (Option-cases (a.policy id name)) [
    | inl allowed ↦ rw (allowed, open_name) (allowed, open_names-allowed id names)
    | inr (e, denied) ↦ rw (denied, open_name) (open_names-allowed id names)
  ]

  poll_subs-same :
      (id : Identity) (writes : Frame → Bool) (ws : List Watched)
      → authenticate a r ≡ admits id
      → All (λ (w : Watched). a.policy id w.name ≡ none) ws
      → poll_subs writes before ws ≡ poll_subs writes after ws
  unfolding poll_subs
  poll_subs-same id writes [] h allowed = refl
  poll_subs-same id writes (w ∷ ws) h (here, allowed) =
      rw (same id w.name h here, poll_subs-same id writes ws h allowed) refl

  open_stream_polls :
      (id : Identity) (writes : Frame → Bool) (can_flush : Bool) (names : List Text)
      → authenticate a r ≡ admits id
      → let subs = subs_of (open_stream a id r after can_flush names) in
        poll_subs writes before subs ≡ poll_subs writes after subs
  unfolding open_stream poll_subs
  open_stream_polls id writes can_flush [] h = refl
  open_stream_polls id writes false (name ∷ names) h = refl
  open_stream_polls id writes true (name ∷ names) h =
      poll_subs-same id writes _ h (open_names-allowed id (name ∷ names))

  watch_for_polls :
      (writes : Frame → Bool) (can_flush : Bool) (names : List Text) (x : Authenticated)
      → authenticate a r ≡ x
      → let subs = subs_of (watch_for a after can_flush r names x) in
        poll_subs writes before subs ≡ poll_subs writes after subs
  unfolding watch_for poll_subs
  watch_for_polls writes can_flush names (refuses f) h = refl
  watch_for_polls writes can_flush names (admits id) h =
      open_stream_polls id writes can_flush names h

  -- Two servers that differ only in bindings that the policy denies to the caller of a request answer
  -- it alike, with the same lines in the audit log, be it a request for a value, for a batch, or for a
  -- watch with all that it sends at first and at its first poll, whichever writes fail; and a caller
  -- who is not authenticated tells no two servers apart.
  pub isolation :
      (name : Text) (decode : Text → Option (List Text)) (writes : Frame → Bool) (can_flush : Bool)
      (names : List Text)
      → let subs = subs_of (start_watch a after can_flush r names) in
        (handle_value a before r name ≡ handle_value a after r name)
        × (handle_batch a decode before r ≡ handle_batch a decode after r)
        × (start_watch a before can_flush r names ≡ start_watch a after can_flush r names)
        × (poll_subs writes before subs ≡ poll_subs writes after subs)
  unfolding handle_value handle_batch start_watch
  isolation name decode writes can_flush names = (
    value_for-same name (authenticate a r) refl,
    batch_for-same decode (authenticate a r) refl,
    watch_for-same can_flush names (authenticate a r) refl,
    watch_for_polls writes can_flush names (authenticate a r) refl,
  )
