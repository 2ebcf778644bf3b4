-- ===== src/Watchdog/Stats/Counts.antt =====
-- Every confirmed outage of the log is counted once, by the watch that it belongs to
-- (crates/belter-watchdog/src/main.rs).
use btc_infra_tools.Base.{
  ℕ, suc, ◌+◌, ◌≡◌, refl, ap, inl, inr, ◌∙◌, Option, none, some, List, [], ◌∷◌, String, Bool, true,
  false, not, ◌&&◌, ◌==◌, arith, is_some, lookup, length, length-append, count_if,
  count_if-le-length, Option-cases, if◌then◌else◌,
}
use btc_infra_tools.Watchdog.Events.{Calendar, LogEvent, parse_log_event}
use btc_infra_tools.Watchdog.Stats.{
  OutageIncident, WatchStatsBuilder, default_builder, push_open, change_open, note_state,
  tells_state, confirms_outage, is_field, reports_recovery, apply_event, apply, insert_by_outage,
  sort_by_outage, is_recovered,
}
use btc_infra_tools.Watchdog.Stats.Report.{
  report_of, finish, StatsTotals, apply_at, Scan, is_filtered_out, scan_event, scan_lines,
  empty_scan, empty_totals, add_report, finish_all, build_stats_report,
}

module _ (calendar : Calendar) where
  abbrev one_if : Bool → ℕ
  one_if b = if b then 1 else 0

  -- The incidents that a builder holds.
  abbrev tally : WatchStatsBuilder calendar → ℕ
  tally b = length b.incidents + one_if (is_some b.open_incident)

  push_open-tally :
      (b : WatchStatsBuilder calendar)
      → (length (push_open calendar b).incidents ≡ tally b)
        × ((push_open calendar b).open_incident ≡ none)
  unfolding push_open
  push_open-tally b = elim (Option-cases b.open_incident) [
    | inl h ↦ (ground arith, ground arith)
    | inr (i, h) ↦ (ground (arith, length-append b.incidents (i ∷ [])), ground arith)
  ]

  change_open-tally :
      (f : OutageIncident calendar → OutageIncident calendar) (b : WatchStatsBuilder calendar)
      → tally (change_open calendar f b) ≡ tally b
  unfolding change_open
  change_open-tally f b = elim (Option-cases b.open_incident) [
    | inl h ↦ ground arith
    | inr (i, h) ↦ ground arith
  ]

  closed-tally :
      (f : OutageIncident calendar → OutageIncident calendar) (b : WatchStatsBuilder calendar)
      → tally (push_open calendar (change_open calendar f b)) ≡ tally b
  closed-tally f b =
      let changed = change_open calendar f b in
      ground
        (arith, (push_open-tally changed).0, (push_open-tally changed).1, change_open-tally f b)

  tally-if :
      (c : Bool) (x y : WatchStatsBuilder calendar) {n : ℕ}
      → (c ≡ true → tally x ≡ n)
      → (c ≡ false → tally y ≡ n)
      → tally (if c then x else y) ≡ n
  tally-if true x y f g = f refl
  tally-if false x y f g = g refl

  note_state-tally :
      (event : LogEvent calendar) (b : WatchStatsBuilder calendar)
      → tally (note_state calendar event b) ≡ tally b
  unfolding note_state
  note_state-tally event b = elim (Option-cases (lookup "state" event.fields)) [
    | inl h ↦ rw (h, note_state) refl
    | inr (state, h) ↦
        rw (h, note_state) (tally-if (tells_state calendar event.event) _ _ (λ _. refl) (λ _. refl))
  ]

  other_event :
      (event : LogEvent calendar) {m n : ℕ}
      → confirms_outage calendar event ≡ false
      → m ≡ n
      → m ≡ n + one_if (confirms_outage calendar event)
  other_event event c h = ground (arith, c, h)

  apply_event-tally :
      (event : LogEvent calendar) (b : WatchStatsBuilder calendar)
      → tally (apply_event calendar event b) ≡ tally b + one_if (confirms_outage calendar event)
  unfolding apply_event
  apply_event-tally event b =
      tally-if (confirms_outage calendar event) _ _ (λ c. ground (arith, c, (push_open-tally b).0))
        (λ c.
          tally-if (event.event == "recovery.start") _ _
            (λ _. other_event event c (change_open-tally _ b))
            (λ _.
              tally-if (event.event == "recovery.done") _ _
                (λ _. other_event event c (change_open-tally _ b))
                (λ _.
                  tally-if (reports_recovery calendar event) _ _
                    (λ _. other_event event c (closed-tally _ b)) (λ _. other_event event c refl))))

  apply-tally :
      (event : LogEvent calendar) (b : WatchStatsBuilder calendar)
      → tally (apply calendar event b) ≡ tally b + one_if (confirms_outage calendar event)
  unfolding apply
  apply-tally event b =
      apply_event-tally event (note_state calendar event b)
      ∙ ap (λ n. n + one_if (confirms_outage calendar event)) (note_state-tally event b)

  length-insert :
      (x : OutageIncident calendar) (ys : List (OutageIncident calendar))
      → length (insert_by_outage calendar x ys) ≡ suc (length ys)
  unfolding insert_by_outage
  length-insert x [] = refl
  length-insert x (y ∷ ys) = ground (arith, length-insert x ys)

  length-sort :
      (xs : List (OutageIncident calendar)) → length (sort_by_outage calendar xs) ≡ length xs
  unfolding sort_by_outage
  length-sort [] = refl
  length-sort (x ∷ xs) = length-insert x (sort_by_outage calendar xs) ∙ ap suc (length-sort xs)

  finish-confirmed :
      (watch : String) (b : WatchStatsBuilder calendar)
      → (finish calendar watch b).confirmed_outages ≡ tally b
  unfolding finish report_of
  finish-confirmed watch b = length-sort (push_open calendar b).incidents ∙ (push_open-tally b).0

  finish-balance :
      (watch : String) (b : WatchStatsBuilder calendar)
      → (finish calendar watch b).recovered + (finish calendar watch b).unrecovered
        ≡ (finish calendar watch b).confirmed_outages
  unfolding finish report_of
  finish-balance watch b = omega (
    arith,
    count_if-le-length (is_recovered calendar)
        (sort_by_outage calendar (push_open calendar b).incidents),
  )

  -- The incidents of all watches.
  abbrev tally_all : List (String × WatchStatsBuilder calendar) → ℕ
  tally_all [] = 0
  tally_all ((watch, b) ∷ rest) = tally b + tally_all rest

  apply_at-tally :
      (event : LogEvent calendar) (m : List (String × WatchStatsBuilder calendar))
      → tally_all (apply_at calendar event m)
        ≡ tally_all m + one_if (confirms_outage calendar event)
  unfolding apply_at
  apply_at-tally event [] = ground (arith, apply-tally event (default_builder calendar))
  apply_at-tally event ((watch, b) ∷ rest) = ground (
    arith,
    apply-tally event (default_builder calendar),
    apply-tally event b,
    apply_at-tally event rest,
  )

  abbrev pub says_unhealthy : Option String → Bool
  says_unhealthy none = false
  says_unhealthy (some state) = state == "unhealthy"

  abbrev pub lets_through : Option String → LogEvent calendar → Bool
  lets_through none event = true
  lets_through (some watch) event = event.watch == watch

  -- Whether a line of the log tells of a confirmed outage of a watch that the filter lets through: its
  -- event is `check.confirm_result`, and its field `state` says `unhealthy`.
  abbrev pub counts : Option String → Option (LogEvent calendar) → Bool
  counts filter none = false
  counts filter (some event) =
      lets_through filter event
      && (event.event == "check.confirm_result" && says_unhealthy (lookup "state" event.fields))

  says_unhealthy-is_field : (o : Option String) → is_field "unhealthy" o ≡ says_unhealthy o
  says_unhealthy-is_field none = refl
  says_unhealthy-is_field (some state) = refl

  not-not : (b : Bool) → not (not b) ≡ b
  not-not true = refl
  not-not false = refl

  is_filtered_out-lets_through :
      (filter : Option String) (event : LogEvent calendar)
      → not (is_filtered_out calendar filter event) ≡ lets_through filter event
  is_filtered_out-lets_through none event = refl
  is_filtered_out-lets_through (some watch) event = not-not (event.watch == watch)

  confirms_outage-counts :
      (filter : Option String) (event : LogEvent calendar)
      → not (is_filtered_out calendar filter event) && confirms_outage calendar event
        ≡ counts filter (some event)
  unfolding confirms_outage
  confirms_outage-counts filter event =
      rw (says_unhealthy-is_field (lookup "state" event.fields))
        (rw (is_filtered_out-lets_through filter event) refl)

  scan_event-tally :
      (filter : Option String) (event : LogEvent calendar) (scan : Scan calendar)
      → tally_all (scan_event calendar filter event scan).builders
        ≡ tally_all scan.builders + one_if (counts filter (some event))
  unfolding scan_event
  scan_event-tally filter event scan =
      ground (arith, apply_at-tally event scan.builders, confirms_outage-counts filter event)

  scan_lines-tally :
      (filter : Option String) (lines : List String) (scan : Scan calendar)
      → tally_all (scan_lines calendar filter lines scan).builders
        ≡ tally_all scan.builders
          + count_if (λ line. counts filter (parse_log_event calendar line)) lines
  unfolding scan_lines
  scan_lines-tally filter [] scan = omega arith
  scan_lines-tally filter (line ∷ lines) scan =
      elim (Option-cases (parse_log_event calendar line)) [
        | inl h ↦ ground (arith, h, scan_lines-tally filter lines scan)
        | inr (event, h) ↦ ground (
          arith,
          h,
          scan_event-tally filter event scan,
          scan_lines-tally filter lines (scan_event calendar filter event scan),
        )
      ]

  finish_all-total :
      (m : List (String × WatchStatsBuilder calendar)) (total : StatsTotals calendar)
      → ((finish_all calendar m total).0.confirmed_outages ≡ total.confirmed_outages + tally_all m)
        × (total.recovered + total.unrecovered ≡ total.confirmed_outages
            → (finish_all calendar m total).0.recovered
                + (finish_all calendar m total).0.unrecovered
              ≡ (finish_all calendar m total).0.confirmed_outages)
  unfolding finish_all add_report
  finish_all-total [] total = (omega arith, λ h. h)
  finish_all-total ((watch, b) ∷ rest) total =
      let one = finish calendar watch b in
      let ih = finish_all-total rest (add_report calendar one total) in
      (
        ih.0 ∙ omega (arith, finish-confirmed watch b),
        λ h. ih.1 (omega (arith, finish-balance watch b, h)),
      )

  -- The report of a log counts each line once that tells of a confirmed outage of a watch that the
  -- filter lets through, and each of these outages is either recovered or unrecovered.
  pub build_stats_report-total :
      (log_path : String) (lines : List String) (filter : Option String)
      → ((build_stats_report calendar log_path lines filter).total.confirmed_outages
          ≡ count_if (λ line. counts filter (parse_log_event calendar line)) lines)
        × ((build_stats_report calendar log_path lines filter).total.recovered
              + (build_stats_report calendar log_path lines filter).total.unrecovered
            ≡ (build_stats_report calendar log_path lines filter).total.confirmed_outages)
  unfolding build_stats_report
  build_stats_report-total log_path lines filter =
      let scan = scan_lines calendar filter lines (empty_scan calendar) in
      let totals = finish_all-total scan.builders (empty_totals calendar) in
      (
        omega (arith, totals.0, scan_lines-tally filter lines (empty_scan calendar)),
        totals.1 (omega arith),
      )
