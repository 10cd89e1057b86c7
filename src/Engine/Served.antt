-- ===== src/Engine/Served.antt =====
-- The part of the engine that decides what the application sees: what Get, History and OnChange
-- give, the pin, and the versions applied. Only a flush and the pin commands write it.
use mamori.Prelude.{
  ℕ, ◌≡◌, refl, ◌∙◌, Bool, true, false, Option, none, some, List, [], ◌∷◌, Text, if◌then◌else◌, Map,
  get, str_eq, is_empty, member, delete,
}
use mamori.Errors.{Error, Sentinel, is}
use mamori.Ref.{Ref}
use mamori.Value.{Value, FieldSpec, OnFailPolicy, changed}
use mamori.Engine.State.{Change, Snapshot, Options, Env, Engine, emit_err, applied_at}
use mamori.Engine.Sources.{Winner, won, lost}
use mamori.Engine.Debounce.{arm, add_pending, mark_changed, requeue, any_stale, unblock}
use mamori.Engine.Outcome.{
  persist_bootstrap, mark_bootstrap_reconciled, report_terminal_error, handle_chain_not_found,
  loop_failed, loop_outcome, clear_block, observe, refresh_failed, refresh_outcome,
}

pub record Served (T : Type 0) : Type 0 where
  pub cfg : T
  pub last_good : T
  pub version : ℕ
  pub applied : Map Text
  pub history : List (Snapshot T)
  pub snapshots : List (Snapshot T)
  pub pinned : Bool
  pub pinned_version : ℕ
  pub pinned_config : T
  pub pinned_applied : Map Text
  pub dispatch : List (Change T)
  pub dropped : ℕ

abbrev pub served : {T : Type 0} → Engine T → Served T
served e = record {
  cfg = e.cfg;
  last_good = e.last_good;
  version = e.version;
  applied = e.applied;
  history = e.history;
  snapshots = e.snapshots;
  pinned = e.pinned;
  pinned_version = e.pinned_version;
  pinned_config = e.pinned_config;
  pinned_applied = e.pinned_applied;
  dispatch = e.dispatch;
  dropped = e.dropped;
}

-- Branches that keep the served part.
module _ {T : Type 0} {s : Served T} where
  keep_if :
      (b : Bool) (x y : Engine T) → served x ≡ s → served y ≡ s → served (if b then x else y) ≡ s
  keep_if true x y hx hy = hx
  keep_if false x y hx hy = hy

  keep_option :
      {A : Type 0} (a : Option A) (x : Engine T) (f : A → Engine T)
      → served x ≡ s
      → ((b : A) → served (f b) ≡ s)
      → served (elim a [ none ↦ x | some b ↦ f b ]) ≡ s
  keep_option none x f hx hf = hx
  keep_option (some b) x f hx hf = hf b

pub served-emit_err :
    {T L : Type 0} (o : Options T L) (x : Error) (e : Engine T) → served (emit_err o x e) ≡ served e
unfolding emit_err
served-emit_err o x e = keep_if o.has_on_error _ e refl refl

module _ {T L : Type 0} (o : Options T L) (env : Env T) where
  pub served-persist_bootstrap : (e : Engine T) → served (persist_bootstrap o env e) ≡ served e
  unfolding persist_bootstrap
  served-persist_bootstrap e =
      keep_if o.has_bootstrap _ e
        (keep_option env.write_error _ (λ x. emit_err o x e) refl (λ x. served-emit_err o x e)) refl

  served-mark_bootstrap_reconciled :
      (path : Text) (e : Engine T) → served (mark_bootstrap_reconciled o env path e) ≡ served e
  unfolding mark_bootstrap_reconciled
  served-mark_bootstrap_reconciled path e =
      keep_option e.bootstrap_unconfirmed e _ refl
        λ paths. keep_if (is_empty (delete paths path)) _ _ (served-persist_bootstrap _) refl

  served-report_terminal_error :
      (spec : FieldSpec) (ref : Ref) (x : Error) (e : Engine T)
      → served (report_terminal_error o env spec ref x e) ≡ served e
  unfolding report_terminal_error
  served-report_terminal_error spec ref x e = served-emit_err o _ _

  served-handle_chain_not_found :
      (release : Text → Engine T → Engine T) (spec : FieldSpec) (x : Error) (e : Engine T)
      → served (release spec.path e) ≡ served e
      → served (handle_chain_not_found o env release spec x e) ≡ served e
  unfolding handle_chain_not_found
  served-handle_chain_not_found release spec x e h =
      keep_if _ _ _ (served-mark_bootstrap_reconciled spec.path _ ∙ h)
        (served-report_terminal_error spec _ x _ ∙ h)

  served-observe :
      (path : Text) (v : Value) (e : Engine T) → served (observe o env path v e) ≡ served e
  unfolding observe
  served-observe path v e =
      keep_option (get e.observed path) _ _ refl (λ cur. keep_if (changed cur v) _ _ refl refl)

  served-refresh_failed :
      (p : OnFailPolicy) (spec : FieldSpec) (pos : Option ℕ) (x : Error) (e : Engine T)
      → served (refresh_failed o env p spec pos x e) ≡ served e
  unfolding refresh_failed clear_block
  served-refresh_failed OnFailPolicy.use_default spec pos x e = served-observe spec.path _ _
  served-refresh_failed OnFailPolicy.fail spec pos x e = served-report_terminal_error spec _ x _
  served-refresh_failed OnFailPolicy.keep_last spec pos x e =
      served-report_terminal_error spec _ x _

  pub served-refresh_outcome :
      (spec : FieldSpec) (w : Winner) (e : Engine T)
      → served (refresh_outcome o env spec w e) ≡ served e
  unfolding refresh_outcome clear_block
  served-refresh_outcome spec (won v pos) e = served-observe spec.path v _
  served-refresh_outcome spec (lost pos x) e =
      keep_if (is x Sentinel.not_found) _ _ (served-handle_chain_not_found _ spec x e refl)
        (served-refresh_failed spec.on_fail spec pos x e)

module _ {T L : Type 0} (parse_duration : Text → Option ℕ) (o : Options T L) (env : Env T) where
  served-arm : (e : Engine T) → served (arm parse_duration o env e) ≡ served e
  unfolding arm
  served-arm e = refl

  served-add_pending :
      (spec : FieldSpec) (e : Engine T)
      → served (add_pending parse_duration o env spec e) ≡ served e
  unfolding add_pending
  served-add_pending spec e = keep_if (is_empty e.pending) _ _ refl (keep_if _ _ _ refl refl)

  served-mark_changed :
      (spec : FieldSpec) (v : Value) (e : Engine T)
      → served (mark_changed parse_duration o env spec v e) ≡ served e
  unfolding mark_changed
  served-mark_changed spec v e =
      let marked = served-arm _ ∙ served-add_pending spec _ in
      keep_option (get e.observed spec.path) _ _ marked
        (λ cur. keep_if (changed cur v) _ _ marked refl)

  served-requeue :
      (specs : List FieldSpec) (e : Engine T)
      → served (requeue parse_duration o env specs e) ≡ served e
  unfolding requeue
  served-requeue [] e = refl
  served-requeue (spec ∷ specs) e =
      served-requeue specs _
      ∙ keep_option (get e.observed spec.path) e _ refl (λ v.
        keep_if (str_eq (applied_at e.applied spec.path) v.version) _ _ refl
          (served-add_pending spec e))

  served-unblock :
      (path : Text) (e : Engine T) → served (unblock parse_duration o env path e) ≡ served e
  unfolding unblock
  served-unblock path e =
      let e' = record e { blocked = delete e.blocked path } in
      keep_if (member e.blocked path) _ _
        (keep_if (any_stale parse_duration o env o.specs e') _ _
          (served-arm _ ∙ served-requeue o.specs e') (served-requeue o.specs e'))
        refl

  served-loop_failed :
      (p : OnFailPolicy) (spec : FieldSpec) (pos : Option ℕ) (x : Error) (e : Engine T)
      → served (loop_failed o env parse_duration p spec pos x e) ≡ served e
  unfolding loop_failed
  served-loop_failed OnFailPolicy.use_default spec pos x e =
      served-mark_changed spec _ _
      ∙ served-mark_bootstrap_reconciled o env spec.path _
      ∙ served-unblock spec.path e
  served-loop_failed OnFailPolicy.fail spec pos x e = served-report_terminal_error o env spec _ x _
  served-loop_failed OnFailPolicy.keep_last spec pos x e =
      served-report_terminal_error o env spec _ x _

  pub served-loop_outcome :
      (spec : FieldSpec) (w : Winner) (e : Engine T)
      → served (loop_outcome o env parse_duration spec w e) ≡ served e
  unfolding loop_outcome
  served-loop_outcome spec (won v pos) e =
      served-mark_changed spec v _
      ∙ served-mark_bootstrap_reconciled o env spec.path _
      ∙ served-unblock spec.path _
  served-loop_outcome spec (lost pos x) e =
      keep_if (is x Sentinel.not_found) _ _
        (served-handle_chain_not_found o env _ spec x e (served-unblock spec.path e))
        (served-loop_failed spec.on_fail spec pos x e)
