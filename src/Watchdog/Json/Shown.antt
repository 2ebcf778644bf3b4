-- ===== src/Watchdog/Json/Shown.antt =====
-- What stands at a path in JSON, and when it shows as a text, stated without the functions of the code
-- for it (crates/belter-watchdog/src/main.rs).
use btc_infra_tools.Base.{
  ◌≡◌, refl, ◌∙◌, sym, ap, subst, List, [], ◌∷◌, some, String, Bool, true, false, inl, inr, arith,
  ◌==◌, eq_iff, eq_refl, Option-cases, if◌then◌else◌,
}
use btc_infra_tools.Base.Text.{trim}
use btc_infra_tools.Watchdog.Json.{
  View, text, boolean, number, null, compound, Json, parse_bool, is_bool, trim_start_matches, split,
  follow, json_path_value, json_value_equals,
}

-- A value of JSON shows as the text: the text itself, `true`, `false` or `null`, the digits of a number,
-- and for an array or an object, JSON of an equal value.
pub data IsText (json : Json) (value : json.Value) (expected : String) : Type 0 where
  is_text : json.view value ≡ text expected → IsText json value expected
  is_true : json.view value ≡ boolean true → expected ≡ "true" → IsText json value expected
  is_false : json.view value ≡ boolean false → expected ≡ "false" → IsText json value expected
  is_number : json.view value ≡ number expected → IsText json value expected
  is_null : json.view value ≡ null → expected ≡ "null" → IsText json value expected
  is_compound :
      (other : json.Value)
      → json.view value ≡ compound
      → json.from_str expected ≡ some other
      → json.value_eq other value ≡ true
      → IsText json value expected

-- What stands in a value under a chain of names.
pub data At (json : Json) : json.Value → List String → json.Value → Type 0 where
  here : {value : json.Value} → At json value [] value
  below :
      {value next found : json.Value} {segment : String} {names : List String}
      → json.get value segment ≡ some next
      → At json next names found
      → At json value (segment ∷ names) found

-- The names that a path is made of: the path `""` and the path `"."` have none.
abbrev pub segments : String → List String
segments path =
    if trim_start_matches b'.' (trim path) == ""
    then []
    else split b'.' (trim_start_matches b'.' (trim path))

module _ (json : Json) where
  follow-At :
      (value : json.Value) (names : List String) (found : json.Value)
      → follow json value names ≡ some found
      → At json value names found
  unfolding follow
  follow-At value [] found h = let e : value ≡ found = cc in subst (λ v. At json value [] v) e here
  follow-At value (segment ∷ names) found h = elim (Option-cases (json.get value segment)) [
    | inl p ↦ absurd (ground (arith, h, p))
    | inr (next, p) ↦ below p (follow-At next names found (rw (p, follow) at h))
  ]

  At-follow :
      {value : json.Value} {names : List String} {found : json.Value}
      → At json value names found
      → follow json value names ≡ some found
  unfolding follow
  At-follow here = refl
  At-follow (below p rest) = rw (follow, p) (At-follow rest)

  if-follow :
      (value : json.Value) (b : Bool) (names : List String)
      → (if b then some value else follow json value names)
        ≡ follow json value (if b then [] else names)
  unfolding follow
  if-follow value true names = refl
  if-follow value false names = refl

  json_path_value-follow :
      (value : json.Value) (path : String)
      → json_path_value json value path ≡ follow json value (segments path)
  unfolding json_path_value
  json_path_value-follow value path = if-follow value _ _

  pub json_path_value-At :
      (value : json.Value) (path : String) (found : json.Value)
      → json_path_value json value path ≡ some found
      → At json value (segments path) found
  json_path_value-At value path found h =
      follow-At value (segments path) found (sym (json_path_value-follow value path) ∙ h)

  pub At-json_path_value :
      (value : json.Value) (path : String) (found : json.Value)
      → At json value (segments path) found
      → json_path_value json value path ≡ some found
  At-json_path_value value path found h = json_path_value-follow value path ∙ At-follow h

module _ (json : Json) (value : json.Value) (expected : String) where
  bool-IsText :
      (b : Bool)
      → json.view value ≡ boolean b
      → is_bool b (parse_bool expected) ≡ true
      → IsText json value expected
  bool-IsText true e h = is_true e (ground (arith, (eq_iff expected "true").0))
  bool-IsText false e h = is_false e (ground (arith, (eq_iff expected "false").0))

  viewed-IsText :
      (v : View)
      → json.view value ≡ v
      → json_value_equals json value expected ≡ true
      → IsText json value expected
  unfolding json_value_equals
  viewed-IsText (text actual) e h =
      is_text (e ∙ ap text ((eq_iff actual expected).0 (rw (e, json_value_equals) at h)))
  viewed-IsText (boolean b) e h = bool-IsText b e (rw (e, json_value_equals) at h)
  viewed-IsText (number shown) e h =
      is_number (e ∙ ap number ((eq_iff shown expected).0 (rw (e, json_value_equals) at h)))
  viewed-IsText null e h = is_null e ((eq_iff expected "null").0 (rw (e, json_value_equals) at h))
  viewed-IsText compound e h = elim (Option-cases (json.from_str expected)) [
    | inl p ↦ absurd (ground (arith, e, h, p))
    | inr (other, p) ↦ is_compound other e p (ground (arith, e, h, p))
  ]

  pub IsText-equals : IsText json value expected → json_value_equals json value expected ≡ true
  unfolding json_value_equals
  IsText-equals (is_text v) = rw (v, json_value_equals) (eq_refl expected)
  IsText-equals (is_true v e) = rw (v, e, json_value_equals) refl
  IsText-equals (is_false v e) = rw (v, e, json_value_equals) refl
  IsText-equals (is_number v) = rw (v, json_value_equals) (eq_refl expected)
  IsText-equals (is_null v e) = rw (v, e, json_value_equals) refl
  IsText-equals (is_compound other v parsed equal) = rw (v, parsed, json_value_equals) equal

  pub equals-IsText : json_value_equals json value expected ≡ true → IsText json value expected
  equals-IsText = viewed-IsText (json.view value) refl
