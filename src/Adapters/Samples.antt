-- ===== src/Adapters/Samples.antt =====
-- A system in which every command succeeds and prints `running`, and JSON that is a text
-- (crates/infractl-adapters/src/lib.rs).
use btc_infra_tools.Base.{none, some, [], ◌∷◌, String, true}
use btc_infra_tools.Base.Int.{pos}
use btc_infra_tools.Base.Result.{ok}
use btc_infra_tools.Adapters.World.{System, Json}

abbrev pub willing : System
willing = record {
  output = λ t program args.
      ok (record { success = true; code = some (pos 0); stdout = "running"; stderr = "" });
  debug_text = λ text. "None";
}

abbrev pub text_json : Json
text_json = record {
  Value = String;
  from_str = λ s. ok s;
  as_array = λ value. some (value ∷ []);
  get = λ value key. some value;
  as_str = λ value. some value;
  as_bool = λ value. none;
}
