-- ===== src/Watchdog/Json.antt =====
-- What the watchdog uses of `serde_json::Value`, which is a parameter, and the two functions that it
-- defines over such values (crates/belter-watchdog/src/main.rs).
pub mod Shown
use Prim.Native.String.{[], ◌∷◌}
use mathlib.Core.List.{List}
use btc_infra_tools.Base.{
  ℕ, Option, none, some, String, Char, code, Bool, true, false, ◌==◌, eqb, if◌then◌else◌,
}
use btc_infra_tools.Base.Text.{trim}

-- The variants of a value, as far as `json_value_equals` looks into them. A number comes with its
-- `to_string`.
pub data View : Type 0 where
  text : String → View
  boolean : Bool → View
  number : String → View
  null compound : View

pub record Json : Type 1 where
  pub Value : Type 0
  pub from_str : String → Option Value
  pub get : Value → String → Option Value
  pub view : Value → View
  pub value_eq : Value → Value → Bool

-- `trim_start_matches(c)`
unfoldable pub trim_start_matches : ℕ → String → String
trim_start_matches k [] = ""
trim_start_matches k (c ∷ s) = if eqb (code c) k then trim_start_matches k s else c ∷ s

push_front : Char → List String → List String
push_front c List.[] = List.◌∷◌ (c ∷ "") List.[]
push_front c (List.◌∷◌ s ss) = List.◌∷◌ (c ∷ s) ss

-- `split(c)`
unfoldable pub split : ℕ → String → List String
unfolding push_front
split k [] = List.◌∷◌ "" List.[]
split k (c ∷ s) =
    let rest = split k s in if eqb (code c) k then List.◌∷◌ "" rest else push_front c rest

-- `expected.parse::<bool>()`
abbrev pub parse_bool : String → Option Bool
parse_bool s = if s == "true" then some true else if s == "false" then some false else none

abbrev pub is_bool : Bool → Option Bool → Bool
is_bool b none = false
is_bool true (some b) = b
is_bool false (some true) = false
is_bool false (some false) = true

module _ (json : Json) where
  open json use {Value, from_str, get, view, value_eq}

  -- The `for` loop over the segments of a path.
  unfoldable pub follow : Value → List String → Option Value
  follow current List.[] = some current
  follow current (List.◌∷◌ segment segments) = elim (get current segment) [
    | none ↦ none
    | some next ↦ follow next segments
  ]

  unfoldable pub json_path_value : Value → String → Option Value
  unfolding trim_start_matches split follow
  json_path_value value path =
      let trimmed = trim_start_matches b'.' (trim path) in
      if trimmed == "" then some value else follow value (split b'.' trimmed)

  unfoldable pub json_value_equals : Value → String → Bool
  json_value_equals value expected = elim (view value) [
    | text actual ↦ actual == expected
    | boolean actual ↦ is_bool actual (parse_bool expected)
    | number shown ↦ shown == expected
    | null ↦ expected == "null"
    | compound ↦ elim (from_str expected) [ none ↦ false | some other ↦ value_eq other value ]
  ]
