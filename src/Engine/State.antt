-- ===== src/Engine/State.antt =====
-- reconciler.go, history.go: the state of the reconciler of one Watcher, with what the Watcher
-- publishes (cfg, report and snapshots), and the options that it reads. `T` is the config type and
-- `L` the type of what reflection finds at a path of it.
use mamori.Prelude.{
  ℕ, ◌+◌, ◌%◌, ◌^◌, Bool, true, false, Option, none, some, List, [], ◌∷◌, ◌++◌, Text, if◌then◌else◌,
  Map, Set, get, str_eq,
}
use mamori.Errors.{Error, Result}
use mamori.Value.{Value, FieldSpec, Time}
use mamori.Decode.{Codecs}
use mamori.Resolve.{Sources}

pub record FieldChange : Type 0 where
  pub path : Text
  pub old_version : Text
  pub new_version : Text

pub record Change (T : Type 0) : Type 0 where
  pub before : T
  pub after : T
  pub fields : List FieldChange

-- Change.Changed
unfoldable pub changed_path : List FieldChange → Text → Bool
unfolding str_eq
changed_path [] path = false
changed_path (f ∷ fs) path = if str_eq f.path path then true else changed_path fs path

pub record Snapshot (T : Type 0) : Type 0 where
  pub version : ℕ
  pub at : Time
  pub config : T
  pub fields : List FieldChange
  pub applied : Map Text

pub record SrcState : Type 0 where
  pub seen : Bool
  pub value : Value
  pub error : Option Error

pub record Update : Type 0 where
  pub value : Value
  pub error : Option Error

-- typedDerive: a WithDerive hook, and the paths that it declares to write.
pub record Derive (T : Type 0) : Type 0 where
  pub fn : T → Result T
  pub writes : List Text

-- What the application and reflection give: setField, the validator, fieldByPath, reflect.DeepEqual
-- and derivedVersion.
pub record Host (T L : Type 0) : Type 0 where
  pub zero_config : T
  pub set_field : T → FieldSpec → Text → Result T
  pub validate : T → Option Error
  pub field_by_path : T → Text → Option L
  pub deep_equal : L → L → Bool
  pub derived_version : L → Text

pub record Options (T L : Type 0) : Type 0 where
  pub host : Host T L
  pub specs : List FieldSpec
  pub derives : List (Derive T)
  pub codecs : Codecs
  pub has_on_error : Bool
  pub stale : ℕ
  pub history_n : ℕ
  pub queue_depth : ℕ
  pub debounce : ℕ
  pub has_bootstrap : Bool

-- What a PreApply hook answered, and the error of its context when it had.
pub record HookRun : Type 0 where
  pub answer : Option Error
  pub ctx_error : Option Error

-- What a handler finds outside the reconciler when it runs: the clock, the providers, the PreApply
-- hook if there is one, and whether the bootstrap snapshot can be written.
pub record Env (T : Type 0) : Type 0 where
  pub now : Time
  pub sources : Sources
  pub pre_apply : Option (Change T → HookRun)
  pub write_error : Option Error

-- The fields of engine, in their order; `emitted` is what OnError received and `dropped` counts the
-- changes that a full queue lost; `cfg` and `snapshots` are what the Watcher publishes; the last
-- four are the variables of loop, `timer` the time at which the armed debounce timer fires.
pub record Engine (T : Type 0) : Type 0 where
  pub observed : Map Value
  pub applied : Map Text
  pub last_ok : Map Time
  pub last_err : Map Error
  pub last_good : T
  pub version : ℕ
  pub sources : List (List SrcState)
  pub blocked : Set
  pub history : List (Snapshot T)
  pub bootstrap_present : Bool
  pub bootstrap_restored : Bool
  pub bootstrap_serving : Bool
  pub bootstrap_written_at : Time
  pub bootstrap_unconfirmed : Option Set
  pub pinned : Bool
  pub pinned_version : ℕ
  pub pinned_config : T
  pub pinned_applied : Map Text
  pub dispatch : List (Change T)
  pub dropped : ℕ
  pub emitted : List Error
  pub cfg : T
  pub snapshots : List (Snapshot T)
  pub pending : Set
  pub pending_since : Time
  pub window : ℕ
  pub timer : Option Time

-- e.applied[path] reads "" where the map has no entry.
or_empty : Option Text → Text
or_empty none = []
or_empty (some t) = t

unfoldable pub applied_at : Map Text → Text → Text
unfolding or_empty
applied_at m path = or_empty (get m path)

-- uint64 increment.
abbrev pub incr64 : ℕ → ℕ
incr64 v = (v + 1) % 2 ^ 64

-- emitErr: OnError gets every error, in order.
unfoldable pub emit_err : {T L : Type 0} → Options T L → Error → Engine T → Engine T
emit_err o err e = if o.has_on_error then record e { emitted = e.emitted ++ err ∷ [] } else e
