-- ===== src/Watchdog/Events.antt =====
-- From the lines of the watchdog's log to events, `parse_log_event`
-- (crates/belter-watchdog/src/main.rs). The crate `time` is a parameter.
mod Tests
pub mod RoundTrip
use Prim.Native.String.{[], ◌∷◌}
use mathlib.Core.List.{List}
use btc_infra_tools.Base.{ℕ, Option, none, some, String, Bool, lookup, if◌then◌else◌}
use btc_infra_tools.Base.Text.{strip_prefix, split_once, is_whitespace}

-- What the source uses of `OffsetDateTime`: parsing and printing by RFC 3339, `<=`, and the whole
-- seconds from one to another where they are not negative.
pub record Calendar : Type 1 where
  pub OffsetDateTime : Type 0
  pub parse : String → Option OffsetDateTime
  pub format : OffsetDateTime → String
  pub leq : OffsetDateTime → OffsetDateTime → Bool
  pub seconds : OffsetDateTime → OffsetDateTime → Option ℕ

push_word : String → List String → List String
push_word [] ws = ws
push_word (c ∷ s) ws = List.◌∷◌ (c ∷ s) ws

-- The word that a text begins with, and the words after it.
words : String → String × List String
unfolding push_word is_whitespace
words [] = ("", List.[])
words (c ∷ s) =
    let (word, rest) = words s in
    if is_whitespace c then ("", push_word word rest) else (c ∷ word, rest)

unfoldable pub split_whitespace : String → List String
unfolding words push_word
split_whitespace s = let (word, rest) = words s in push_word word rest

-- The fields of a log line; a later one of a name stands first.
unfoldable pub insert_fields : List String → List (String × String) → List (String × String)
insert_fields List.[] fields = fields
insert_fields (List.◌∷◌ token tokens) fields = elim (split_once token "=") [
  | none ↦ insert_fields tokens fields
  | some (key, value) ↦ insert_fields tokens (List.◌∷◌ (key, value) fields)
]

module _ (calendar : Calendar) where
  open calendar use {OffsetDateTime, parse}

  pub record LogEvent : Type 0 where
    pub timestamp : OffsetDateTime
    pub event : String
    pub watch : String
    pub fields : List (String × String)

  unfoldable pub make_event : OffsetDateTime → String → List (String × String) → Option LogEvent
  make_event timestamp event fields = elim (lookup "watch" fields) [
    | none ↦ none
    | some watch ↦
        some (record { timestamp = timestamp; event = event; watch = watch; fields = fields })
  ]

  unfoldable pub parse_log_event : String → Option LogEvent
  unfolding make_event
  parse_log_event line = elim (strip_prefix line "[") [
    | none ↦ none
    | some after_bracket ↦ elim (split_once after_bracket "] ") [
      | none ↦ none
      | some (stamp, after_stamp) ↦ elim (parse stamp) [
        | none ↦ none
        | some timestamp ↦ elim (split_once after_stamp ": ") [
          | none ↦ none
          | some (event, rest) ↦
              make_event timestamp event (insert_fields (split_whitespace rest) List.[])
        ]
      ]
    ]
  ]
