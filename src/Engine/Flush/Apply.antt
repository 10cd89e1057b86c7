-- ===== src/Engine/Flush/Apply.antt =====
-- reconciler.go: what applying a candidate makes of the part that the application sees.
use mamori.Prelude.{
  ◌+◌, ◌≤◌, ◌<◌, ◌≡◌, refl, sym, ap, ◌∙◌, Bool, List, [], ◌∷◌, ◌++◌, if◌then◌else◌, length, reverse,
  subst, Bool-cases, inl, inr,
}
use mamori.Engine.State.{FieldChange, Change, Snapshot, Options, Env, Engine, incr64}
use mamori.Engine.Outcome.{persist_bootstrap}
use mamori.Engine.Served.{Served, served, served-persist_bootstrap}
use mamori.Engine.Flush.{enqueue, publish, record_snapshot, trim_history, apply_candidate}
use mamori.Engine.Flush.Queue.{push, lost_one, enqueue_loop-push}

-- The queue of changes has a depth, and holds no more than it.
pub record HasRoom {T L : Type 0} (o : Options T L) (queue : List (Change T)) : Type 0 where
  pub depth : 0 < o.queue_depth
  pub bounded : length queue ≤ o.queue_depth

module _ {T L : Type 0} (o : Options T L) (env : Env T) where
  -- One change more in the queue.
  abbrev pub sent : Change T → Served T → Served T
  sent ev s = record s {
    dispatch = push o.queue_depth s.dispatch ev;
    dropped = s.dropped + lost_one o.queue_depth s.dispatch;
  }

  pub served-enqueue :
      (ev : Change T) (e : Engine T)
      → HasRoom o e.dispatch
      → served (enqueue o env ev e) ≡ sent ev (served e)
  unfolding enqueue
  served-enqueue ev e room =
      rw (enqueue_loop-push o.queue_depth e.dispatch e.dropped ev room.depth room.bounded, enqueue)
        refl

  abbrev pub new_snapshot : T → List FieldChange → Served T → Snapshot T
  new_snapshot cand fields s = record {
    version = incr64 s.version;
    at = env.now;
    config = cand;
    fields = fields;
    applied = s.applied;
  }

  -- The new version, with its snapshot in the history.
  abbrev pub advanced : T → List FieldChange → Served T → Served T
  advanced cand fields s =
      let kept = trim_history (o.history_n + 1) (s.history ++ new_snapshot cand fields s ∷ []) in
      record s {
        version = incr64 s.version;
        last_good = cand;
        history = kept;
        snapshots = reverse kept;
      }

  abbrev pub change_of : T → List FieldChange → Served T → Change T
  change_of cand fields s = record { before = s.last_good; after = cand; fields = fields }

  abbrev pub published : T → List FieldChange → Served T → Served T
  published cand fields s =
      if s.pinned
      then advanced cand fields s
      else sent (change_of cand fields s) (record (advanced cand fields s) { cfg = cand })

  abbrev given_out : T → Change T → Served T → Served T
  given_out cand ev s = if s.pinned then s else sent ev (record s { cfg = cand })

  served-publish :
      (old cand : T) (fields : List FieldChange) (e : Engine T)
      → HasRoom o e.dispatch
      → served (publish o env old cand fields e)
        ≡ given_out cand (record { before = old; after = cand; fields = fields }) (served e)
  unfolding publish
  served-publish old cand fields e room =
      let ev : Change T = record { before = old; after = cand; fields = fields } in
      let given : Bool → Engine T =
        λ b. if b then e else enqueue o env ev (record e { cfg = cand }) in
      let wanted : Bool → Served T =
        λ b. if b then served e else sent ev (record (served e) { cfg = cand }) in
      elim (Bool-cases e.pinned) [
        | inl held ↦ ap (λ (b : Bool). served (given b)) held ∙ ap wanted (sym held)
        | inr free ↦
            ap (λ (b : Bool). served (given b)) free
            ∙ served-enqueue ev (record e { cfg = cand }) room
            ∙ ap wanted (sym free)
      ]

  pub served-apply_candidate :
      (cand : T) (fields : List FieldChange) (e : Engine T)
      → HasRoom o e.dispatch
      → served (apply_candidate o env cand fields e) ≡ published cand fields (served e)
  unfolding apply_candidate record_snapshot
  served-apply_candidate cand fields e room =
      let d =
        record_snapshot o env cand fields
          (record e { version = incr64 e.version; last_good = cand }) in
      let kept = served-persist_bootstrap o env d in
      served-publish e.last_good cand fields (persist_bootstrap o env d)
        (subst (HasRoom o) (sym (ap (λ (s : Served T). s.dispatch) kept)) room)
      ∙ ap (given_out cand (record { before = e.last_good; after = cand; fields = fields })) kept
