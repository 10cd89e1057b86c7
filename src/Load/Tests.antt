-- ===== src/Load/Tests.antt =====
-- The theorem on Load at a concrete struct of one field, whose chain is env:a,file:a.
use mamori.Prelude.{◌≡◌, refl, true, Option, none, List, [], ◌∷◌, Text, codes, get, str_eq}
use mamori.Errors.{Sentinel, sentinel, ok, err, is}
use mamori.Value.{FieldSpec}
use mamori.Ref.{opt}
use mamori.Decode.{apply_decode, parse_decode_pipeline, run_steps}
use mamori.Resolve.{
  resolve_all, resolve_one, resolve_chain, chain_loop, resolve_ref, provider, set_resolved,
  resolve_where, resolve_schemes, is_single,
}
use mamori.Resolve.Tests.{two_providers, value_of}
use mamori.Engine.State.{Change, Derive, HookRun}
use mamori.Engine.Flush.{run_pre_apply}
use mamori.Engine.Tests.{text_host, url_spec}
use mamori.Load.{Input, Loaded, load_value, checked, build_into, resolve_or_restore}
use mamori.Engine.Candidate.{run_derives}
use mamori.Load.Checked.{Passed, Came, load_value-Passed}

abbrev input : Input Text
input = record {
  bootstrap = none;
  hook = ok none;
  derives = ok [];
  specs = ok (url_spec ∷ []);
  sources = two_providers;
  order = [];
  read = err (sentinel Sentinel.unavailable);
  fingerprint = [];
  now = 1;
  write_error = none;
}

abbrev loaded : Loaded Text
loaded = record {
  config = codes "x";
  resolved =
      record { spec = url_spec; value = value_of (codes "x"); found = true; set = true } ∷ [];
  origin = none;
  emitted = [];
}

load_value-Passed_example :
    (hook : Option (Change Text → HookRun)) × (derives : List (Derive Text)) × (specs : List
      FieldSpec)
    × (input.hook ≡ ok hook)
    × (input.derives ≡ ok derives)
    × (input.specs ≡ ok specs)
    × Passed text_host hook derives specs loaded.resolved loaded.config
    × Came input specs loaded.resolved
unfolding load_value checked build_into resolve_or_restore resolve_all resolve_where resolve_schemes
    is_single resolve_one resolve_chain chain_loop resolve_ref provider set_resolved apply_decode
    parse_decode_pipeline run_steps opt get str_eq is run_derives run_pre_apply
load_value-Passed_example = load_value-Passed text_host input loaded refl
