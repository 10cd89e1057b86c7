-- ===== src/Engine/Outcome/Origin.antt =====
-- reconciler.go, bootstrapstore.go: where the config counts as coming from, after a watch and after a
-- Refresh.
use mamori.Prelude.{
  ℕ, ◌≡◌, refl, sym, ap, ◌∙◌, Bool, true, false, Option, none, some, List, [], ◌∷◌, Text,
  if◌then◌else◌, Set, get, str_eq, is_empty, member, delete,
}
use mamori.Value.{Value, FieldSpec, changed}
use mamori.Engine.State.{Options, Env, Engine, emit_err, applied_at}
use mamori.Engine.Sources.{won}
use mamori.Engine.Debounce.{arm, add_pending, mark_changed, requeue, any_stale, unblock}
use mamori.Engine.Outcome.{
  persist_bootstrap, mark_bootstrap_reconciled, loop_outcome, clear_block, observe, refresh_outcome,
}

-- Whether the config counts as served from the snapshot, and the fields not confirmed yet.
abbrev pub origin : {T : Type 0} → Engine T → Bool × Option Set
origin e = (e.bootstrap_serving, e.bootstrap_unconfirmed)

-- The field at the path is confirmed, and may be the last one that was not.
abbrev pub confirmed : Text → Bool × Option Set → Bool × Option Set
confirmed path (serving, none) = (serving, none)
confirmed path (serving, some paths) =
    if is_empty (delete paths path) then (false, none) else (serving, some (delete paths path))

module _ {T : Type 0} {s : Bool × Option Set} where
  keep_if :
      (b : Bool) (x y : Engine T) → origin x ≡ s → origin y ≡ s → origin (if b then x else y) ≡ s
  keep_if true x y hx hy = hx
  keep_if false x y hx hy = hy

  keep_option :
      {A : Type 0} (a : Option A) (x : Engine T) (f : A → Engine T)
      → origin x ≡ s
      → ((b : A) → origin (f b) ≡ s)
      → origin (elim a [ none ↦ x | some b ↦ f b ]) ≡ s
  keep_option none x f hx hf = hx
  keep_option (some b) x f hx hf = hf b

module _ {T L : Type 0} (parse_duration : Text → Option ℕ) (o : Options T L) (env : Env T) where
  origin-arm : (e : Engine T) → origin (arm parse_duration o env e) ≡ origin e
  unfolding arm
  origin-arm e = refl

  origin-add_pending :
      (spec : FieldSpec) (e : Engine T)
      → origin (add_pending parse_duration o env spec e) ≡ origin e
  unfolding add_pending
  origin-add_pending spec e = keep_if (is_empty e.pending) _ _ refl (keep_if _ _ _ refl refl)

  origin-mark_changed :
      (spec : FieldSpec) (v : Value) (e : Engine T)
      → origin (mark_changed parse_duration o env spec v e) ≡ origin e
  unfolding mark_changed
  origin-mark_changed spec v e =
      let marked = origin-arm _ ∙ origin-add_pending spec _ in
      keep_option (get e.observed spec.path) _ _ marked
        (λ cur. keep_if (changed cur v) _ _ marked refl)

  origin-requeue :
      (specs : List FieldSpec) (e : Engine T)
      → origin (requeue parse_duration o env specs e) ≡ origin e
  unfolding requeue
  origin-requeue [] e = refl
  origin-requeue (spec ∷ specs) e =
      origin-requeue specs _
      ∙ keep_option (get e.observed spec.path) e _ refl (λ v.
        keep_if (str_eq (applied_at e.applied spec.path) v.version) _ _ refl
          (origin-add_pending spec e))

  origin-unblock :
      (path : Text) (e : Engine T) → origin (unblock parse_duration o env path e) ≡ origin e
  unfolding unblock
  origin-unblock path e =
      let e' = record e { blocked = delete e.blocked path } in
      keep_if (member e.blocked path) _ _
        (keep_if (any_stale parse_duration o env o.specs e') _ _
          (origin-arm _ ∙ origin-requeue o.specs e') (origin-requeue o.specs e'))
        refl

module _ {T L : Type 0} (o : Options T L) (env : Env T) where
  origin-persist_bootstrap : (e : Engine T) → origin (persist_bootstrap o env e) ≡ origin e
  unfolding persist_bootstrap emit_err
  origin-persist_bootstrap e =
      keep_if o.has_bootstrap _ e
        (keep_option env.write_error _ (λ x. emit_err o x e) refl
          (λ x. keep_if o.has_on_error _ e refl refl))
        refl

  origin-observe :
      (path : Text) (v : Value) (e : Engine T) → origin (observe o env path v e) ≡ origin e
  unfolding observe
  origin-observe path v e =
      keep_option (get e.observed path) _ _ refl (λ cur. keep_if (changed cur v) _ _ refl refl)

  one_less :
      (e : Engine T) (rest : Set) (b : Bool)
      → origin (
          if b
          then persist_bootstrap o env
              (record e { bootstrap_unconfirmed = none; bootstrap_serving = false })
          else record e { bootstrap_unconfirmed = some rest })
        ≡ (if b then (false, none) else (e.bootstrap_serving, some rest))
  one_less e rest true = origin-persist_bootstrap _
  one_less e rest false = refl

  origin-mark_bootstrap_reconciled :
      (path : Text) (e : Engine T)
      → origin (mark_bootstrap_reconciled o env path e) ≡ confirmed path (origin e)
  unfolding mark_bootstrap_reconciled
  origin-mark_bootstrap_reconciled path e = by_cases e.bootstrap_unconfirmed refl
    where
      by_cases :
          (u : Option Set)
          → u ≡ e.bootstrap_unconfirmed
          → origin (elim u [
            | none ↦ e
            | some paths ↦
                let rest = delete paths path in
                if is_empty rest
                then persist_bootstrap o env
                    (record e { bootstrap_unconfirmed = none; bootstrap_serving = false })
                else record e { bootstrap_unconfirmed = some rest }
          ])
            ≡ confirmed path (e.bootstrap_serving, u)
      by_cases none h = λ i. (e.bootstrap_serving, sym h i)
      by_cases (some paths) h = one_less e (delete paths path) (is_empty (delete paths path))

-- A value that arrives by watch confirms its field, so that the config no longer counts as served
-- from the bootstrap snapshot when the last field is confirmed; the same value by Refresh confirms
-- nothing, whatever the state.
pub loop_outcome-refresh_outcome :
    {T L : Type 0} (parse_duration : Text → Option ℕ) (o : Options T L) (env : Env T)
    (spec : FieldSpec) (v : Value) (pos : ℕ) (e : Engine T)
    → (origin (loop_outcome o env parse_duration spec (won v pos) e)
        ≡ confirmed spec.path (origin e))
      × (origin (refresh_outcome o env spec (won v pos) e) ≡ origin e)
unfolding loop_outcome refresh_outcome clear_block
loop_outcome-refresh_outcome parse_duration o env spec v pos e = (
  origin-mark_changed parse_duration o env spec v _
      ∙ origin-mark_bootstrap_reconciled o env spec.path _
      ∙ ap (confirmed spec.path) (origin-unblock parse_duration o env spec.path _),
  origin-observe o env spec.path v _,
)
