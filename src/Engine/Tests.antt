-- ===== src/Engine/Tests.antt =====
-- The theorems on the reconciler at a concrete Watcher: one field with the chain env:a,file:a, whose
-- config is the text of the field, and a validator that refuses an empty text.
use mamori.Prelude.{
  ℕ, ◌+◌, ◌≡◌, refl, true, false, Option, none, some, List, [], ◌∷◌, ◌++◌, Text, codes,
  if◌then◌else◌, is_empty, str_eq, arith,
}
use mamori.Errors.{Sentinel, sentinel, ok}
use mamori.Value.{FieldSpec}
use mamori.Decode.Tests.{test_codecs}
use mamori.Resolve.{resolve_chain}
use mamori.Resolve.Tests.{ref_of, value_of, two_providers, spec_of}
use mamori.Engine.State.{Snapshot, Host, Options, Env, Engine, applied_at}
use mamori.Engine.Sources.{unseen, recompute_winner, seed_chain_sources, won}
use mamori.Engine.Outcome.{loop_outcome, refresh_outcome}
use mamori.Engine.Outcome.Origin.{origin, confirmed, loop_outcome-refresh_outcome}
use mamori.Engine.Sources.Precedence.{Agrees, recompute_winner-resolve_chain}
use mamori.Engine.Served.{served}
use mamori.Engine.Candidate.{diff_fields, derived_field_changes, has_spec_path}
use mamori.Engine.Flush.{flush, revert, enqueue_loop}
use mamori.Engine.Flush.Revert.{revert-diff_fields}
use mamori.Engine.Flush.Queue.{push, lost_one, enqueue_loop-push}
use mamori.Engine.Flush.Apply.{HasRoom}
use mamori.Engine.Flush.Atomic.{Atomic, flush-Atomic}
use mamori.Engine.Invariant.{Sound}
use mamori.Engine.Control.{pin_current, unpin, handle_pin}
use mamori.Engine.Loop.{command, delivers, here, next, deliver, handle_timer}
use mamori.Engine.Loop.Run.{Reach-Sound}
use mamori.Engine.Loop.Pinned.{idle, flushed, Frozen, Background-Frozen}
use mamori.Engine.Loop.Unpin.{unpinned, pin-unpin}

abbrev pub url_spec : FieldSpec
url_spec = spec_of (ref_of (codes "env") ∷ ref_of (codes "file") ∷ [])

abbrev pub text_host : Host Text Text
text_host = record {
  zero_config = [];
  set_field = λ c spec b. ok b;
  validate = λ c. if is_empty c then some (sentinel Sentinel.invalid) else none;
  field_by_path = λ c p. none;
  deep_equal = λ a b. str_eq a b;
  derived_version = λ a. a;
}

abbrev demo : Options Text Text
demo = record {
  host = text_host;
  specs = url_spec ∷ [];
  derives = [];
  codecs = test_codecs;
  has_on_error = true;
  stale = 0;
  history_n = 2;
  queue_depth = 1;
  debounce = 5;
  has_bootstrap = false;
}

abbrev demo_env : Env Text
demo_env = record { now = 7; sources = two_providers; pre_apply = none; write_error = none }

abbrev first_snapshot : Snapshot Text
first_snapshot = record {
  version = 1;
  at = 1;
  config = codes "w";
  fields = [];
  applied = (codes "db.url", codes "w") ∷ [];
}

-- Version 1 is live, and a new value "x" has been observed.
abbrev running : Engine Text
running = record {
  observed = (codes "db.url", value_of (codes "x")) ∷ [];
  applied = (codes "db.url", codes "w") ∷ [];
  last_ok = [];
  last_err = [];
  last_good = codes "w";
  version = 1;
  sources = (unseen ∷ unseen ∷ []) ∷ [];
  blocked = [];
  history = first_snapshot ∷ [];
  bootstrap_present = false;
  bootstrap_restored = false;
  bootstrap_serving = false;
  bootstrap_written_at = 0;
  bootstrap_unconfirmed = none;
  pinned = false;
  pinned_version = 0;
  pinned_config = [];
  pinned_applied = [];
  dispatch = [];
  dropped = 0;
  emitted = [];
  cfg = codes "w";
  snapshots = first_snapshot ∷ [];
  pending = codes "db.url" ∷ [];
  pending_since = 2;
  window = 5;
  timer = some 7;
}

running-HasRoom : HasRoom demo running.dispatch
running-HasRoom = record { depth = omega arith; bounded = omega arith }

running-Sound : Sound demo (served running)
running-Sound = record {
  recorded = record {
    live_valid = refl;
    past_valid = (refl, tt);
    trimmed = omega arith;
    newest_first = refl;
    older = [];
    newest = first_snapshot;
    at_end = refl;
    its_version = refl;
    its_config = refl;
  };
  serving = refl;
  get_valid = refl;
  room = running-HasRoom;
}

abbrev no_durations : Text → Option ℕ
no_durations t = none

flush-Atomic_example :
    Atomic demo demo_env running (flush demo demo_env (codes "db.url" ∷ []) running)
flush-Atomic_example = flush-Atomic demo demo_env (codes "db.url" ∷ []) running running-HasRoom

abbrev after_pin : Engine Text
after_pin = (handle_pin demo demo_env pin_current running).0

Reach-Sound_example : Sound demo (served (deliver no_durations demo after_pin))
Reach-Sound_example =
    Reach-Sound no_durations demo
      (next (next here (command running demo_env pin_current)) (delivers after_pin)) running-Sound

recompute_winner-resolve_chain_example :
    Agrees url_spec
      (resolve_chain two_providers (ref_of (codes "env") ∷ ref_of (codes "file") ∷ []))
      (recompute_winner (
        seed_chain_sources two_providers url_spec
          (ref_of (codes "env") ∷ ref_of (codes "file") ∷ [])))
recompute_winner-resolve_chain_example =
    recompute_winner-resolve_chain two_providers url_spec (ref_of (codes "env"))
      (ref_of (codes "file") ∷ [])

abbrev held : Engine Text
held = record running {
  pinned = true;
  pinned_version = 1;
  pinned_config = codes "w";
  pinned_applied = running.applied;
}

Background-Frozen_example :
    Frozen (served held) (served (handle_timer no_durations demo demo_env held))
Background-Frozen_example =
    Background-Frozen no_durations demo running-HasRoom refl (flushed idle demo_env)

pin-unpin_example :
    let d = handle_timer no_durations demo demo_env after_pin in
    served (handle_pin demo demo_env unpin d).0
    ≡ unpinned no_durations demo demo_env (record (served d) {
      cfg = running.last_good;
      pinned = true;
      pinned_version = running.version;
      pinned_config = running.last_good;
      pinned_applied = running.applied;
      dispatch = running.dispatch;
      dropped = running.dropped;
    })
pin-unpin_example =
    pin-unpin no_durations demo demo_env demo_env running
      (handle_timer no_durations demo demo_env after_pin) refl running-HasRoom
      (flushed idle demo_env)

revert-diff_fields_example :
    applied_at
      (revert
        ((diff_fields demo.specs running.observed running.applied).0
          ++ derived_field_changes demo.host (codes "w") (codes "x") demo.derives demo.specs)
        (diff_fields demo.specs running.observed running.applied).1)
      (codes "db.url")
    ≡ applied_at running.applied (codes "db.url")
unfolding has_spec_path str_eq
revert-diff_fields_example =
    revert-diff_fields demo running.observed running.applied (codes "w") (codes "x")
      (codes "db.url") refl

-- A queue of depth 2 that is full.
abbrev full_queue : List ℕ
full_queue = 1 ∷ 2 ∷ []

enqueue_loop-push_example :
    enqueue_loop 3 2 full_queue 0 3 ≡ some (push 2 full_queue 3, 0 + lost_one 2 full_queue)
enqueue_loop-push_example = enqueue_loop-push 2 full_queue 0 3 (omega arith) (omega arith)

-- Restored from the bootstrap snapshot, and waiting for its one field.
abbrev restored : Engine Text
restored = record running {
  bootstrap_serving = true;
  bootstrap_unconfirmed = some (codes "db.url" ∷ []);
}

loop_outcome-refresh_outcome_example :
    (origin
        (loop_outcome demo demo_env no_durations url_spec (won (value_of (codes "x")) 1) restored)
      ≡ confirmed (codes "db.url") (origin restored))
    × (origin (refresh_outcome demo demo_env url_spec (won (value_of (codes "x")) 1) restored)
        ≡ origin restored)
loop_outcome-refresh_outcome_example =
    loop_outcome-refresh_outcome no_durations demo demo_env url_spec (value_of (codes "x")) 1
      restored
