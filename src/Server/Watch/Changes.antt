-- ===== src/Server/Watch/Changes.antt =====
-- server/handler.go, server/wire.go: the polls of a watch stream, one after another.
use mamori.Prelude.{
  ◌≡◌, refl, sym, subst, ap, ◌∙◌, inl, inr, Bool, true, false, List, [], ◌∷◌, Text, if◌then◌else◌,
  str_eq_refl, Bool-cases,
}
use mamori.Errors.{Kind, same_kind}
use mamori.Value.{Value}
use mamori.Server.Resolver.{Resolvers, lookup_fresh}
use mamori.Server.Wire.{Frame, snapshot_changed, watch_snapshot}
use mamori.Server.Watch.{Watched, seen, Polled, has_changed, poll_subs}

same_kind_refl : (k : Kind) → same_kind k k ≡ true
same_kind_refl Kind.not_found = refl
same_kind_refl Kind.permission_denied = refl
same_kind_refl Kind.unauthenticated = refl
same_kind_refl Kind.unavailable = refl
same_kind_refl Kind.rate_limited = refl
same_kind_refl Kind.invalid = refl
same_kind_refl Kind.unknown = refl
same_kind_refl Kind.blank = refl

false_anyway : (b : Bool) → (if b then false else false) ≡ false
false_anyway true = refl
false_anyway false = refl

snapshot_changed_refl :
    (v : Value) (k : Kind) (found : Bool) → snapshot_changed v k found v k found ≡ false
unfolding snapshot_changed
snapshot_changed_refl v k true =
    rw (same_kind_refl k, str_eq_refl v.version, str_eq_refl v.bytes) (false_anyway _)
snapshot_changed_refl v k false =
    rw (same_kind_refl k, str_eq_refl v.version, str_eq_refl v.bytes) (false_anyway _)

module _ (writes : Frame → Bool) (resolved : Resolvers) where
  keeps :
      (w : Watched) (ws : List Watched)
      → has_changed w (lookup_fresh resolved w.name) ≡ false
      → poll_subs writes resolved (w ∷ ws)
        ≡ (let rest = poll_subs writes resolved ws in record rest { subs = w ∷ rest.subs })
  unfolding poll_subs
  keeps w ws same = rw same refl

  sends :
      (w : Watched) (ws : List Watched)
      → has_changed w (lookup_fresh resolved w.name) ≡ true
      → writes (watch_snapshot w.name (lookup_fresh resolved w.name)) ≡ true
      → poll_subs writes resolved (w ∷ ws) ≡ (
          let rest = poll_subs writes resolved ws in
          record rest {
            frames = watch_snapshot w.name (lookup_fresh resolved w.name) ∷ rest.frames;
            subs = seen w.name (lookup_fresh resolved w.name) ∷ rest.subs;
          })
  unfolding poll_subs
  sends w ws changed written = rw (changed, written) refl

  seen_same :
      (name : Text)
      → has_changed (seen name (lookup_fresh resolved name)) (lookup_fresh resolved name) ≡ false
  unfolding has_changed
  seen_same name =
      let l = lookup_fresh resolved name in snapshot_changed_refl l.value l.kind l.found

  abbrev quiet : List Watched → Polled
  quiet ws = record { frames = []; subs = ws; goes_on = true }

  quiet_cons :
      (w : Watched) (ws : List Watched)
      → has_changed w (lookup_fresh resolved w.name) ≡ false
      → poll_subs writes resolved ws ≡ quiet ws
      → poll_subs writes resolved (w ∷ ws) ≡ quiet (w ∷ ws)
  quiet_cons w ws same rest =
      keeps w ws same ∙ ap (λ (p : Polled). record p { subs = w ∷ p.subs }) rest

  -- A poll whose frames all reach the client leaves nothing to send: one more poll, with the bindings
  -- as they are, sends no frame, changes nothing, and goes on.
  pub poll_subs-again :
      ((f : Frame) → writes f ≡ true)
      → (ws : List Watched)
      → let subs = (poll_subs writes resolved ws).subs in
        poll_subs writes resolved subs ≡ record { frames = []; subs = subs; goes_on = true }
  unfolding poll_subs
  poll_subs-again written [] = refl
  poll_subs-again written (w ∷ ws) =
      let l = lookup_fresh resolved w.name in
      let again = poll_subs-again written ws in
      let rest = (poll_subs writes resolved ws).subs in
      elim (Bool-cases (has_changed w l)) [
        | inl changed ↦
            subst (λ (p : Polled). poll_subs writes resolved p.subs ≡ quiet p.subs)
              (sym (sends w ws changed (written _)))
              (quiet_cons (seen w.name l) rest (seen_same w.name) again)
        | inr same ↦
            subst (λ (p : Polled). poll_subs writes resolved p.subs ≡ quiet p.subs)
              (sym (keeps w ws same)) (quiet_cons w rest same again)
      ]
