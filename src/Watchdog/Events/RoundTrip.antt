-- ===== src/Watchdog/Events/RoundTrip.antt =====
-- The watchdog's log lines, read back by its statistics (crates/belter-watchdog/src/main.rs).
use Prim.Native.String.{[], ◌∷◌}
use mathlib.Core.List.{List}
use text.Mathlib.TextLemmas.{nil-append, cons-append, append_assoc}
use btc_infra_tools.Base.{
  ◌≡◌, refl, subst, ap, sym, ◌∙◌, Option, none, some, String, Bool, true, false, lookup, eq_iff,
  ◌==◌, if◌then◌else◌, Bool-cases, arith, inl, inr, ◌++◌, append_snoc,
}
use btc_infra_tools.Base.Text.{◌⧺◌, split_once, is_whitespace}
use btc_infra_tools.Base.Splits.{Free, strip_prefix-append, split_once-append}
use btc_infra_tools.Watchdog.Log.{format_log_line}
use btc_infra_tools.Watchdog.Events.{
  Calendar, push_word, words, split_whitespace, insert_fields, make_event, parse_log_event,
}

-- No character is white space.
abbrev pub IsWord : String → Type 0
IsWord [] = Unit {0}
IsWord (c ∷ s) = (is_whitespace c ≡ false) × IsWord s

words-IsWord : (w : String) → IsWord w → words w ≡ (w, List.[])
unfolding words
words-IsWord [] h = refl
words-IsWord (c ∷ w) h = rw (words-IsWord w h.1, h.0) refl

words-append : (w rest : String) → IsWord w → words (w ⧺ (" " ⧺ rest)) ≡ (w, split_whitespace rest)
unfolding words split_whitespace is_whitespace
words-append [] rest h = rw (nil-append, cons-append, nil-append) refl
words-append (c ∷ w) rest h = rw (cons-append, words-append w rest h.1, h.0) refl

-- The token of the watch.
token-IsWord : (watch : String) → IsWord watch → IsWord ("watch=" ⧺ watch)
unfolding is_whitespace
token-IsWord watch h =
    rw (cons-append, cons-append, cons-append, cons-append, cons-append, cons-append, nil-append)
      (refl, (refl, (refl, (refl, (refl, (refl, h))))))

split_once-token : (watch : String) → split_once ("watch=" ⧺ watch) "=" ≡ some ("watch", watch)
split_once-token watch =
    let glue : "watch" ⧺ ("=" ⧺ watch) ≡ "watch=" ⧺ watch = sym (append_assoc "watch" "=" watch) in
    subst (λ text. split_once text "=" ≡ some ("watch", watch)) glue
      (split_once-append "watch" "=" "" watch (refl, (refl, (refl, (refl, (refl, tt))))))

push_word-token :
    (watch : String) (ws : List String)
    → push_word ("watch=" ⧺ watch) ws ≡ List.◌∷◌ ("watch=" ⧺ watch) ws
unfolding push_word
push_word-token watch ws = rw cons-append refl

-- The words of a line after its event.
split-token :
    (watch detail : String)
    → IsWord watch
    → split_whitespace ("watch=" ⧺ watch ⧺ " " ⧺ detail)
      ≡ List.◌∷◌ ("watch=" ⧺ watch) (split_whitespace detail)
unfolding split_whitespace
split-token watch detail h =
    let whole : "watch=" ⧺ (watch ⧺ (" " ⧺ detail)) ≡ ("watch=" ⧺ watch) ⧺ (" " ⧺ detail) =
      sym (append_assoc "watch=" watch (" " ⧺ detail)) in
    rw (whole, words-append ("watch=" ⧺ watch) detail (token-IsWord watch h))
      (push_word-token watch _)

split-token_alone :
    (watch : String)
    → IsWord watch
    → split_whitespace ("watch=" ⧺ watch) ≡ List.◌∷◌ ("watch=" ⧺ watch) List.[]
unfolding split_whitespace
split-token_alone watch h =
    rw (words-IsWord ("watch=" ⧺ watch) (token-IsWord watch h)) (push_word-token watch _)

module _ (calendar : Calendar) where
  open calendar use {OffsetDateTime, parse}

  parse-line :
      (stamp event rest : String) {timestamp : OffsetDateTime}
      → parse stamp ≡ some timestamp
      → Free "]" stamp
      → Free ":" event
      → parse_log_event calendar ("[" ⧺ stamp ⧺ "] " ⧺ event ⧺ ": " ⧺ rest)
        ≡ make_event calendar timestamp event (insert_fields (split_whitespace rest) List.[])
  unfolding parse_log_event
  parse-line stamp event rest parsed free_stamp free_event =
      rw
        (
          parse_log_event,
          strip_prefix-append "[" (stamp ⧺ "] " ⧺ event ⧺ ": " ⧺ rest),
          split_once-append stamp "]" " " (event ⧺ ": " ⧺ rest) free_stamp,
          parsed,
          split_once-append event ":" " " rest free_event,
        )
        refl

insert_fields-append :
    (tokens : List String) (fields : List (String × String))
    → insert_fields tokens fields ≡ insert_fields tokens List.[] ++ fields
unfolding insert_fields
insert_fields-append List.[] fields = refl
insert_fields-append (List.◌∷◌ token tokens) fields =
    read (split_once token "=") fields (λ others. insert_fields-append tokens others)
  where
    read :
        (found : Option (String × String)) (fields : List (String × String))
        → ((others : List (String × String))
            → insert_fields tokens others ≡ insert_fields tokens List.[] ++ others)
        → (elim found [
          | none ↦ insert_fields tokens fields
          | some (key, value) ↦ insert_fields tokens (List.◌∷◌ (key, value) fields)
        ])
          ≡ (elim found [
            | none ↦ insert_fields tokens List.[]
            | some (key, value) ↦ insert_fields tokens (List.◌∷◌ (key, value) List.[])
          ])
            ++ fields
    read none fields f = f fields
    read (some pair) fields f =
        f (List.◌∷◌ pair fields)
        ∙ append_snoc (insert_fields tokens List.[]) pair fields
        ∙ ap (λ xs. xs ++ fields) (sym (f (List.◌∷◌ pair List.[])))

lookup-append :
    (key : String) (fields others : List (String × String))
    → lookup key fields ≡ none
    → lookup key (fields ++ others) ≡ lookup key others
lookup-append key List.[] others h = refl
lookup-append key (List.◌∷◌ (name, value) fields) others h = elim (Bool-cases (name == key)) [
  | inl e ↦ absurd (ground (arith, e, h))
  | inr e ↦ rw e (lookup-append key fields others (ground (arith, e, h)))
]

-- The fields of the detail of a line.
abbrev pub fields_of : String → List (String × String)
fields_of detail = insert_fields (split_whitespace detail) List.[]

-- The two forms of a line, as the reader takes them apart.
module _ (stamp watch event : String) where
  abbrev line_with : String → String
  line_with rest = "[" ⧺ stamp ⧺ "] " ⧺ event ⧺ ": " ⧺ rest

  format-alone :
      (detail : String)
      → (detail == "") ≡ true
      → format_log_line stamp watch event detail ≡ line_with ("watch=" ⧺ watch)
  unfolding format_log_line
  format-alone detail h =
      rw h (ap (λ s. "[" ⧺ stamp ⧺ "] " ⧺ event ⧺ s) (append_assoc ": " "watch=" watch))

  format-detailed :
      (detail : String)
      → (detail == "") ≡ false
      → format_log_line stamp watch event detail ≡ line_with ("watch=" ⧺ watch ⧺ " " ⧺ detail)
  unfolding format_log_line
  format-detailed detail h = rw h (
      ap (λ s. "[" ⧺ stamp ⧺ "] " ⧺ event ⧺ s)
        (append_assoc ": " "watch=" (watch ⧺ (" " ⧺ detail))))

insert-token :
    (watch : String) (tokens : List String)
    → insert_fields (List.◌∷◌ ("watch=" ⧺ watch) tokens) List.[]
      ≡ insert_fields tokens List.[] ++ List.◌∷◌ ("watch", watch) List.[]
unfolding insert_fields
insert-token watch tokens =
    rw (insert_fields, split_once-token watch)
      (insert_fields-append tokens (List.◌∷◌ ("watch", watch) List.[]))

-- What a line's words say, where its detail does not name the watch again.
detail-words :
    (watch detail : String) (is_empty : Bool)
    → IsWord watch
    → (detail == "") ≡ is_empty
    → insert_fields
        (split_whitespace (if is_empty then "watch=" ⧺ watch else "watch=" ⧺ watch ⧺ " " ⧺ detail))
        List.[]
      ≡ fields_of detail ++ List.◌∷◌ ("watch", watch) List.[]
unfolding split_whitespace
detail-words watch detail true h e =
    rw (split-token_alone watch h, (eq_iff detail "").0 e) (insert-token watch List.[])
detail-words watch detail false h e =
    rw (split-token watch detail h) (insert-token watch (split_whitespace detail))

module _ (calendar : Calendar) where
  open calendar use {OffsetDateTime, parse}

  -- A line that the watchdog writes is read back as its event and its watch, with the fields of its detail
  -- after the watch's, where the time stamp can be read and has no `]` in it, the event has no `:`, the
  -- watch's name has no white space, and the detail has no field with the name `watch`.
  pub parse_log_event-format_log_line :
      (stamp watch event detail : String) (timestamp : OffsetDateTime)
      → parse stamp ≡ some timestamp
      → Free "]" stamp
      → Free ":" event
      → IsWord watch
      → lookup "watch" (fields_of detail) ≡ none
      → parse_log_event calendar (format_log_line stamp watch event detail)
        ≡ some (record {
          timestamp = timestamp;
          event = event;
          watch = watch;
          fields = fields_of detail ++ List.◌∷◌ ("watch", watch) List.[];
        })
  unfolding make_event
  parse_log_event-format_log_line stamp watch event detail timestamp parsed free_stamp free_event
        is_word no_watch =
      read (detail == "") refl
    where
      found :
          make_event calendar timestamp event
            (fields_of detail ++ List.◌∷◌ ("watch", watch) List.[])
          ≡ some (record {
            timestamp = timestamp;
            event = event;
            watch = watch;
            fields = fields_of detail ++ List.◌∷◌ ("watch", watch) List.[];
          })
      found =
          rw
            (
              make_event,
              lookup-append "watch" (fields_of detail) (List.◌∷◌ ("watch", watch) List.[]) no_watch,
            )
            refl

      read :
          (is_empty : Bool)
          → (detail == "") ≡ is_empty
          → parse_log_event calendar (format_log_line stamp watch event detail)
            ≡ some (record {
              timestamp = timestamp;
              event = event;
              watch = watch;
              fields = fields_of detail ++ List.◌∷◌ ("watch", watch) List.[];
            })
      read true e =
          ap (λ line. parse_log_event calendar line) (format-alone stamp watch event detail e)
          ∙ parse-line calendar stamp event ("watch=" ⧺ watch) parsed free_stamp free_event
          ∙ ap (λ fields. make_event calendar timestamp event fields)
              (detail-words watch detail true is_word e)
          ∙ found
      read false e =
          ap (λ line. parse_log_event calendar line) (format-detailed stamp watch event detail e)
          ∙ parse-line calendar stamp event ("watch=" ⧺ watch ⧺ " " ⧺ detail) parsed free_stamp
              free_event
          ∙ ap (λ fields. make_event calendar timestamp event fields)
              (detail-words watch detail false is_word e)
          ∙ found
