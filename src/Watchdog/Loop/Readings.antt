-- ===== src/Watchdog/Loop/Readings.antt =====
-- What stays true of the readings of the clock and of the shutdown token as the trace grows
-- (crates/belter-watchdog/src/main.rs).
use btc_infra_tools.Base.{
  ℕ, ◌≡◌, refl, Option, none, some, [], ◌∷◌, ◌++◌, Bool, true, ◌||◌, inl, inr, arith, leb, ltb,
  if◌then◌else◌, Bool-cases,
}
use btc_infra_tools.Watchdog.World.{
  Event, Trace, asked_shutdown, read_clock, slept, spawned, polled, signalled, killed, collected,
  stamped, wrote, seen_set,
}
use btc_infra_tools.Watchdog.Process.Waits.{reads_late}

pub reads_late-cons :
    (due : ℕ) (e : Event) (t : Trace) → reads_late due t ≡ true → reads_late due (e ∷ t) ≡ true
reads_late-cons due (asked_shutdown b) t h = h
reads_late-cons due (read_clock n) t h = ground (arith, h)
reads_late-cons due (slept n) t h = h
reads_late-cons due (spawned p c r) t h = h
reads_late-cons due (polled r) t h = h
reads_late-cons due (signalled s r) t h = h
reads_late-cons due killed t h = h
reads_late-cons due (collected b r) t h = h
reads_late-cons due (stamped s) t h = h
reads_late-cons due (wrote b s r) t h = h

pub reads_late-append :
    (due : ℕ) (es t : Trace) → reads_late due t ≡ true → reads_late due (es ++ t) ≡ true
reads_late-append due [] t h = h
reads_late-append due (e ∷ es) t h = reads_late-cons due e (es ++ t) (reads_late-append due es t h)

-- A shutdown seen, or a fact that no event changes.
pub seen_or-cons :
    (b : Bool) (e : Event) (t : Trace) → (seen_set t || b) ≡ true → (seen_set (e ∷ t) || b) ≡ true
unfolding seen_set
seen_or-cons b (asked_shutdown s) t h = ground (arith, h)
seen_or-cons b (read_clock n) t h = h
seen_or-cons b (slept n) t h = h
seen_or-cons b (spawned p c r) t h = h
seen_or-cons b (polled r) t h = h
seen_or-cons b (signalled s r) t h = h
seen_or-cons b killed t h = h
seen_or-cons b (collected c r) t h = h
seen_or-cons b (stamped s) t h = h
seen_or-cons b (wrote c s r) t h = h

-- The clock was read at this moment or later.
unfoldable pub Seen : ℕ → Trace → Type 0
Seen now t = (due : ℕ) → leb due now ≡ true → reads_late due t ≡ true

pub waits_until-none :
    (now : ℕ) (next_check : Option ℕ) (t : Trace)
    → Seen now t
    → (elim next_check [ none ↦ none | some due ↦ if ltb now due then some due else none ]) ≡ none
    → (elim next_check [ none ↦ true | some due ↦ reads_late due t ]) ≡ true
unfolding Seen
waits_until-none now none t seen h = refl
waits_until-none now (some due) t seen h = elim (Bool-cases (ltb now due)) [
  | inl late ↦ ground (arith, late, h)
  | inr early ↦ seen due (ground (arith, early))
]
