-- ===== src/Client/Fresh.antt =====
-- providers/mamori/freshness.go, providers/mamori/watch.go: the order of the values that a watch
-- delivers, over all its endpoints.
use mamori.Prelude.{
  ◌+◌, ◌≡◌, refl, inl, inr, Bool, true, false, not, Option, none, some, List, [], ◌∷◌, Text, subst,
  ◌||◌, get, get-put, str_eq, str_eq_iff, str_eq_refl, ltb, leb, All, All-map, Bool-cases, arith,
}
use mamori.Engine.State.{Update}
use mamori.Value.{Time}
use mamori.Server.Wire.{ValueBody}
use mamori.Client.{body_value}
use mamori.Client.Stream.{
  FreshnessGuard, skew_tolerance, not_before, guard_allows, advanced, guard_record, Dispatched,
  frame_name, dispatch_value,
}

-- What a run of update frames, the newest first, has delivered, the newest first, with the names they
-- are for; a frame behind a failed send is not read.
pub record Delivery : Type 0 where
  pub name : Text
  pub resolved_at : Option Time
  pub body : ValueBody

pub record Run : Type 0 where
  pub guard : FreshnessGuard
  pub delivered : List Delivery

delivery : Text → ValueBody → Delivery
delivery name vb = record { name = frame_name name vb; resolved_at = vb.resolved_at; body = vb }

after_frame : Text → ValueBody → Run → Dispatched → Run
after_frame name vb before d = record {
  guard = d.guard;
  delivered = elim d.update [
    | none ↦ before.delivered
    | some up ↦ delivery name vb ∷ before.delivered
  ];
}

module _ (sent : Update → Bool) (name : Text) where
  pub frames_run : List ValueBody → Run
  frames_run [] = record { guard = []; delivered = [] }
  frames_run (vb ∷ frames) =
      let before = frames_run frames in
      after_frame name vb before (dispatch_value sent name before.guard vb)

-- A value and one that was delivered before it: not older by more than the tolerance, if they are for
-- the same binding and stamped.
in_order_at : Bool → Option Time → Option Time → Bool
in_order_at same (some t) (some older) = not same || leb older (t + skew_tolerance)
in_order_at same (some t) none = true
in_order_at same none o = true

pub in_order : Delivery → Delivery → Bool
in_order d e = in_order_at (str_eq d.name e.name) d.resolved_at e.resolved_at

pub InOrder : List Delivery → Type 0
InOrder [] = Unit
InOrder (d ∷ ds) = All (λ e. in_order d e ≡ true) ds × InOrder ds

-- The watermark of a binding is not below the stamps that were delivered for it.
below : Option Time → Option Time → Bool
below none watermark = true
below (some t) none = false
below (some t) (some w) = leb t w

abbrev Marked : FreshnessGuard → Delivery → Type 0
Marked g e = below e.resolved_at (get g e.name) ≡ true

below_put :
    (o : Option Time) (t w : Time)
    → ltb w t ≡ true
    → below o (some w) ≡ true
    → below o (some t) ≡ true
unfolding below
below_put none t w later h = refl
below_put (some u) t w later h = ground arith

below_fresh : (o : Option Time) (t : Time) → below o none ≡ true → below o (some t) ≡ true
unfolding below
below_fresh none t h = refl
below_fresh (some u) t h = absurd (ground (arith, h))

advanced-Marked :
    (g : FreshnessGuard) (key : Text) (t : Time) (o : Option Time) (e : Delivery)
    → get g key ≡ o
    → Marked g e
    → Marked (advanced g key t o) e
unfolding advanced
advanced-Marked g key t none e here h = elim (Bool-cases (str_eq key e.name)) [
  | inl same ↦
      let absent : get g e.name ≡ none =
        subst (λ k. get g k ≡ none) ((str_eq_iff key e.name).0 same) here in
      rw (get-put g key e.name t, same) (below_fresh e.resolved_at t (rw absent at h))
  | inr other ↦ rw (get-put g key e.name t, other) h
]
advanced-Marked g key t (some w) e here h = elim (Bool-cases (ltb w t)) [
  | inr kept ↦ rw kept h
  | inl later ↦ elim (Bool-cases (str_eq key e.name)) [
    | inl same ↦
        let there : get g e.name ≡ some w =
          subst (λ k. get g k ≡ some w) ((str_eq_iff key e.name).0 same) here in
        rw (later, get-put g key e.name t, same) (below_put e.resolved_at t w later (rw there at h))
    | inr other ↦ rw (later, get-put g key e.name t, other) h
  ]
]

guard_record-Marked :
    (g : FreshnessGuard) (key : Text) (o : Option Time) (e : Delivery)
    → Marked g e
    → Marked (guard_record g key o) e
unfolding guard_record
guard_record-Marked g key none e h = h
guard_record-Marked g key (some t) e h = advanced-Marked g key t (get g key) e refl h

advanced-here :
    (g : FreshnessGuard) (key : Text) (t : Time) (o : Option Time)
    → get g key ≡ o
    → below (some t) (get (advanced g key t o) key) ≡ true
unfolding advanced below
advanced-here g key t none here = rw (get-put g key key t, str_eq_refl key) (ground arith)
advanced-here g key t (some w) here = elim (Bool-cases (ltb w t)) [
  | inl later ↦ rw (later, get-put g key key t, str_eq_refl key) (ground arith)
  | inr kept ↦ rw (kept, here) (ground (arith, kept))
]

guard_record-here :
    (g : FreshnessGuard) (key : Text) (o : Option Time)
    → below o (get (guard_record g key o) key) ≡ true
unfolding guard_record below
guard_record-here g key none = refl
guard_record-here g key (some t) = advanced-here g key t (get g key) refl

order_kept :
    (t : Time) (w older : Option Time)
    → not_before t w ≡ true
    → below older w ≡ true
    → in_order_at true (some t) older ≡ true
unfolding in_order_at not_before below
order_kept t w none allowed h = refl
order_kept t none (some u) allowed h = absurd (ground (arith, h))
order_kept t (some w) (some u) allowed h = ground arith

unrelated : (t : Time) (o : Option Time) → in_order_at false (some t) o ≡ true
unfolding in_order_at
unrelated t none = refl
unrelated t (some u) = refl

allowed-in_order :
    (g : FreshnessGuard) (key : Text) (o : Option Time) (e : Delivery)
    → guard_allows g key o ≡ true
    → Marked g e
    → in_order_at (str_eq key e.name) o e.resolved_at ≡ true
unfolding guard_allows in_order_at
allowed-in_order g key none e allowed h = refl
allowed-in_order g key (some t) e allowed h = elim (Bool-cases (str_eq key e.name)) [
  | inr other ↦ rw other (unrelated t e.resolved_at)
  | inl same ↦
      let here : key ≡ e.name = (str_eq_iff key e.name).0 same in
      let before = subst (λ k. not_before t (get g k) ≡ true) here allowed in
      rw same (order_kept t (get g e.name) e.resolved_at before h)
]

-- What each frame keeps of a run.
IsOrdered : Run → Type 0
IsOrdered run = All (λ e. Marked run.guard e) run.delivered × InOrder run.delivered

after_frame-IsOrdered :
    (sent : Update → Bool) (name : Text) (vb : ValueBody) (run : Run)
    → IsOrdered run
    → IsOrdered (after_frame name vb run (dispatch_value sent name run.guard vb))
unfolding IsOrdered InOrder after_frame dispatch_value delivery in_order
after_frame-IsOrdered sent name vb run (marks, ordered) =
    let key = frame_name name vb in
    elim (Bool-cases (guard_allows run.guard key vb.resolved_at)) [
      | inr stale ↦ rw stale (marks, ordered)
      | inl allowed ↦ elim (Bool-cases (sent (record { value = body_value vb; error = none }))) [
        | inr lost ↦ rw (allowed, lost) (marks, ordered)
        | inl taken ↦
            rw (allowed, taken)
              (
                (
                  guard_record-here run.guard key vb.resolved_at,
                  All-map run.delivered (guard_record-Marked run.guard key vb.resolved_at) marks,
                ),
                (
                  All-map run.delivered
                      (λ e h. allowed-in_order run.guard key vb.resolved_at e allowed h) marks,
                  ordered,
                ),
              )
      ]
    ]

frames_run-IsOrdered :
    (sent : Update → Bool) (name : Text) (frames : List ValueBody)
    → IsOrdered (frames_run sent name frames)
unfolding frames_run IsOrdered InOrder
frames_run-IsOrdered sent name [] = (tt, tt)
frames_run-IsOrdered sent name (vb ∷ frames) =
    after_frame-IsOrdered sent name vb (frames_run sent name frames)
      (frames_run-IsOrdered sent name frames)

-- A watch reads any update frames, from any of its endpoints and in any order, with any sends that
-- fail: of two values that it delivers for the same binding, both with the time at which a server
-- resolved them, the later one was not resolved more than one second before the earlier one.
pub frames_run-InOrder :
    (sent : Update → Bool) (name : Text) (frames : List ValueBody)
    → InOrder (frames_run sent name frames).delivered
unfolding IsOrdered
frames_run-InOrder sent name frames = (frames_run-IsOrdered sent name frames).1
