-- ===== src/Watchdog/Health/Judged.antt =====
-- When a diagnosis counts as healthy or as syncing, stated without the order of the checks
-- (crates/belter-watchdog/src/main.rs).
use btc_infra_tools.Base.{
  refl, Option, ◌≡◌, ◌↔◌, ◌⊎◌, inl, inr, none, some, String, false, arith, unwrap_or, Option-cases,
}
use btc_infra_tools.Base.Int.{ℤ, eq_ℤ_iff}
use btc_infra_tools.Watchdog.Config.{WatchConfig}
use btc_infra_tools.Watchdog.Json.{Json}
use btc_infra_tools.Watchdog.Json.Shown.{
  At, IsText, segments, json_path_value-At, At-json_path_value, IsText-equals, equals-IsText,
}
use btc_infra_tools.Watchdog.Health.{
  CommandOutput, healthy, misses_code, judge_value, value_at, evaluate_health,
}

misses_code-false :
    (expected code : Option ℤ)
    → (misses_code expected code ≡ false) ↔ ((k : ℤ) → expected ≡ some k → code ≡ some k)
misses_code-false none code = (λ h k p. cc, λ h. refl)
misses_code-false (some k) none = (
  λ h j p. cc,
  λ h. absurd (elim (Option-cases (some k)) [ inl p ↦ cc | inr (j, p) ↦ ground (arith, h k refl) ]),
)
misses_code-false (some k) (some c) =
    (λ h j p. ground (arith, eq_ℤ_iff c k), λ h. ground (arith, eq_ℤ_iff c k, h k refl))

module _ (json : Json) (watch : WatchConfig) (output : CommandOutput) where
  -- The command ended in time, with the expected exit code where one is set.
  pub record Ended : Type 0 where
    pub in_time : output.timed_out ≡ false
    pub exited : (k : ℤ) → watch.healthy_exit_code ≡ some k → output.code ≡ some k

  -- The output is JSON with this value at the path of the watch.
  pub record Shows (path : String) (value : json.Value) : Type 0 where
    pub at_path : watch.healthy_json_path ≡ some path
    pub parsed : json.Value
    pub is_json : json.from_str output.stdout ≡ some parsed
    pub found : At json parsed (segments path) value

  value_at-Shows :
      (path : String) (value : json.Value)
      → watch.healthy_json_path ≡ some path
      → value_at json output.stdout path ≡ some value
      → Shows path value
  unfolding value_at
  value_at-Shows path value hp h = elim (Option-cases (json.from_str output.stdout)) [
    | inl p ↦ absurd (ground (arith, h, p))
    | inr (parsed, p) ↦ record {
      at_path = hp;
      parsed = parsed;
      is_json = p;
      found = json_path_value-At json parsed path value (rw (p, value_at) at h);
    }
  ]

  Shows-value_at :
      (path : String) (value : json.Value)
      → Shows path value
      → value_at json output.stdout path ≡ some value
  unfolding value_at
  Shows-value_at path value s =
      rw (s.is_json, value_at) (At-json_path_value json s.parsed path value s.found)

  -- A diagnosis is healthy exactly if the command ended in time with the expected exit code, and where
  -- a JSON path is set, the output is JSON, each name of the path is found below the one before, and the
  -- value at the end shows as the expected text: it is that text, the truth value, the number or the null
  -- of that spelling, or an array or object that equals the JSON of that text.
  pub evaluate_health-healthy : (evaluate_health json watch output ≡ healthy) ↔ (
      Ended
      × ((watch.healthy_json_path ≡ none)
          ⊎ ((path : String) × (value : json.Value) × Shows path value
              × IsText json value (unwrap_or watch.healthy_equals ""))))
  unfolding evaluate_health judge_value
  evaluate_health-healthy = elim (Option-cases watch.healthy_json_path) [
    | inl hp ↦ (
      λ h. (
        record {
          in_time = ground arith;
          exited = (misses_code-false watch.healthy_exit_code output.code).0 (ground arith);
        },
        inl hp,
      ),
      λ (e, _).
          ground
            (arith, e.in_time, (misses_code-false watch.healthy_exit_code output.code).1 e.exited),
    )
    | inr (path, hp) ↦ (
      λ h. (
        record {
          in_time = ground arith;
          exited = (misses_code-false watch.healthy_exit_code output.code).0 (ground arith);
        },
        elim (Option-cases (value_at json output.stdout path)) [
          | inl hv ↦ absurd (ground arith)
          | inr (value, hv) ↦ inr (
            path,
            value,
            value_at-Shows path value hp hv,
            equals-IsText json value (unwrap_or watch.healthy_equals "") (ground arith),
          )
        ],
      ),
      λ (e, shown). elim shown [
        | inl p ↦ cc
        | inr (p, value, s, q) ↦ ground (
          arith,
          e.in_time,
          (misses_code-false watch.healthy_exit_code output.code).1 e.exited,
          s.at_path,
          Shows-value_at p value s,
          IsText-equals json value (unwrap_or watch.healthy_equals "") q,
        )
      ],
    )
  ]
