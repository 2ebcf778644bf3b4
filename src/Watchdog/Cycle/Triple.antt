-- ===== src/Watchdog/Cycle/Triple.antt =====
-- What an action does to the observer of a cycle: preconditions and postconditions, and a rule for
-- each way to build an action.
use mathlib.Core.List.{append_assoc}
use btc_infra_tools.Base.{
  ◌≡◌, refl, ap, sym, ◌∙◌, Option, none, some, [], ◌∷◌, ◌++◌, String, Bool, true, false,
  if◌then◌else◌, arith,
}
use btc_infra_tools.Base.Result.{Error, Result, ok, err}
use btc_infra_tools.Base.Fuel.{Fueled}
use btc_infra_tools.Watchdog.Config.{EffectiveWatch}
use btc_infra_tools.Watchdog.Json.{Json}
use btc_infra_tools.Watchdog.Health.{CommandOutput}
use btc_infra_tools.Watchdog.World.{
  Purpose, admission, diagnosis, repair, Event, Trace, Act, asked_shutdown, read_clock, slept,
  spawned, polled, signalled, killed, collected, stamped, wrote, seen_set, continue, ◌>>=◌, return,
  fail, in_context, perform, attempt, out_of_fuel, with_message, returned, block_on,
}
use btc_infra_tools.Watchdog.Cycle.Phase.{Phase, conclude, advance, observe}

module _ (json : Json) (watch : EffectiveWatch) where
  -- The events that an action adds are acceptable, and its value is as `Q` says.
  pub record After {A : Type 0} (outcome : Fueled A × Trace) (t : Trace) (p : Phase)
      (Q : A → Phase → Type 0) : Type 0 where
    pub added : Trace
    pub grows : outcome.1 ≡ added ++ t
    pub stays_legal : (observe json watch added p).legal ≡ true
    pub post : (a : A) → outcome.0 ≡ some (ok a) → Q a (observe json watch added p)

  pub record Triple {A : Type 0} (P : Phase → Type 0) (act : Act A) (Q : A → Phase → Type 0)
      : Type 0 where
    pub run :
        (t : Trace) (p : Phase)
        → p.stopped ≡ seen_set t
        → p.legal ≡ true
        → P p
        → After (act t) t p Q

  observe-append :
      (es fs : Trace) (p : Phase)
      → observe json watch (es ++ fs) p ≡ observe json watch es (observe json watch fs p)
  unfolding observe
  observe-append [] fs p = refl
  observe-append (e ∷ es) fs p = ap (advance json watch e) (observe-append es fs p)

  conclude-stopped :
      (running : Option Purpose) (output : CommandOutput) (p : Phase)
      → (conclude json watch running output p).stopped ≡ p.stopped
  unfolding conclude
  conclude-stopped none output p = refl
  conclude-stopped (some admission) output p = refl
  conclude-stopped (some diagnosis) output p = refl
  conclude-stopped (some repair) output p = refl

  advance-stopped :
      (e : Event) (t : Trace) (p : Phase)
      → p.stopped ≡ seen_set t
      → (advance json watch e p).stopped ≡ seen_set (e ∷ t)
  unfolding advance seen_set
  advance-stopped (asked_shutdown true) t p h = ground arith
  advance-stopped (asked_shutdown false) t p h = ground arith
  advance-stopped (spawned purpose command r) t p h = h
  advance-stopped (collected timed_out (ok output)) t p h = conclude-stopped p.running _ p ∙ h
  advance-stopped (collected timed_out (err e)) t p h = h
  advance-stopped (read_clock n) t p h = h
  advance-stopped (slept n) t p h = h
  advance-stopped (polled r) t p h = h
  advance-stopped (signalled s r) t p h = h
  advance-stopped killed t p h = h
  advance-stopped (stamped s) t p h = h
  advance-stopped (wrote b s r) t p h = h

  pub observe-stopped :
      (es t : Trace) (p : Phase)
      → p.stopped ≡ seen_set t
      → (observe json watch es p).stopped ≡ seen_set (es ++ t)
  unfolding observe
  observe-stopped [] t p h = h
  observe-stopped (e ∷ es) t p h =
      advance-stopped e (es ++ t) (observe json watch es p) (observe-stopped es t p h)

module _ {json : Json} {watch : EffectiveWatch} where
  module _ {A : Type 0} {Q : A → Phase → Type 0} where
    after-in_context :
        (text : String) {t : Trace} {p : Phase} (outcome : Fueled A × Trace)
        → After json watch outcome t p Q
        → After json watch (with_message text outcome) t p Q
    after-in_context text (none, u) f = record {
      added = f.added;
      grows = f.grows;
      stays_legal = f.stays_legal;
      post = λ b q. cc;
    }
    after-in_context text (some (ok a), u) f = f
    after-in_context text (some (err e), u) f = record {
      added = f.added;
      grows = f.grows;
      stays_legal = f.stays_legal;
      post = λ b q. cc;
    }

    returned-After :
        (t : Trace) (p : Phase) (r : Fueled A) (event : Result A → Event)
        → p.legal ≡ true
        → ((o : Result A)
            → ((advance json watch (event o) p).legal ≡ true)
              × ((a : A) → o ≡ ok a → Q a (advance json watch (event o) p)))
        → After json watch (returned r event t) t p Q
    unfolding observe
    returned-After t p none event l f = record {
      added = [];
      grows = refl;
      stays_legal = l;
      post = λ b q. cc;
    }
    returned-After t p (some o) event l f = record {
      added = event o ∷ [];
      grows = refl;
      stays_legal = (f o).0;
      post = λ b e. (f o).1 b cc;
    }

  module _ {A : Type 0} {P : Phase → Type 0} {Q : A → Phase → Type 0} where
    pub triple-return : (a : A) → ((p : Phase) → P p → Q a p) → Triple json watch P (return a) Q
    unfolding observe return
    triple-return a f = record {
      run = λ t p s l h. record {
        added = [];
        grows = refl;
        stays_legal = l;
        post = λ b e. let q : a ≡ b = cc in rw (← q) (f p h);
      };
    }

    pub triple-fail : (e : Error) → Triple json watch P (fail e) Q
    unfolding observe fail
    triple-fail e = record {
      run = λ t p s l h. record { added = []; grows = refl; stays_legal = l; post = λ b q. cc };
    }

    pub triple-out_of_fuel : Triple json watch P out_of_fuel Q
    unfolding observe out_of_fuel
    triple-out_of_fuel = record {
      run = λ t p s l h. record { added = []; grows = refl; stays_legal = l; post = λ b q. cc };
    }

    pub triple-in_context :
        (text : String) {act : Act A}
        → Triple json watch P act Q
        → Triple json watch P (in_context text act) Q
    unfolding in_context
    triple-in_context text {act} f = record {
      run = λ t p s l h. after-in_context text (act t) (f.run t p s l h);
    }

    pub triple-perform :
        (answer : Trace → A) (event : A → Event)
        → ((t : Trace) (p : Phase)
            → p.stopped ≡ seen_set t
            → p.legal ≡ true
            → P p
            → ((advance json watch (event (answer t)) p).legal ≡ true)
              × Q (answer t) (advance json watch (event (answer t)) p))
        → Triple json watch P (perform answer event) Q
    unfolding observe perform
    triple-perform answer event f = record {
      run = λ t p s l h. record {
        added = event (answer t) ∷ [];
        grows = refl;
        stays_legal = (f t p s l h).0;
        post = λ b e. let q : answer t ≡ b = cc in rw (← q) (f t p s l h).1;
      };
    }

    pub triple-attempt :
        (answer : Trace → Result A) (event : Result A → Event)
        → ((t : Trace) (p : Phase)
            → p.stopped ≡ seen_set t
            → p.legal ≡ true
            → P p
            → ((advance json watch (event (answer t)) p).legal ≡ true)
              × ((a : A) → answer t ≡ ok a → Q a (advance json watch (event (answer t)) p)))
        → Triple json watch P (attempt answer event) Q
    unfolding observe attempt
    triple-attempt answer event f = record {
      run = λ t p s l h. record {
        added = event (answer t) ∷ [];
        grows = refl;
        stays_legal = (f t p s l h).0;
        post = λ b e. (f t p s l h).1 b cc;
      };
    }

    pub triple-block_on :
        (answer : Trace → Fueled A) (event : Result A → Event)
        → ((t : Trace) (p : Phase)
            → p.stopped ≡ seen_set t
            → p.legal ≡ true
            → P p
            → (o : Result A)
            → ((advance json watch (event o) p).legal ≡ true)
              × ((a : A) → o ≡ ok a → Q a (advance json watch (event o) p)))
        → Triple json watch P (block_on answer event) Q
    unfolding block_on
    triple-block_on answer event f = record {
      run = λ t p s l h. returned-After t p (answer t) event l (f t p s l h);
    }

    pub triple-if :
        (b : Bool) {act other : Act A}
        → (b ≡ true → Triple json watch P act Q)
        → (b ≡ false → Triple json watch P other Q)
        → Triple json watch P (if b then act else other) Q
    triple-if true f g = f refl
    triple-if false f g = g refl

    pub triple-option :
        {X : Type 0} (o : Option X) {act : Act A} {next : X → Act A}
        → (o ≡ none → Triple json watch P act Q)
        → ((x : X) → o ≡ some x → Triple json watch P (next x) Q)
        → Triple json watch P (elim o [ none ↦ act | some x ↦ next x ]) Q
    triple-option none f g = f refl
    triple-option (some x) f g = g x refl

    pub triple-from :
        {R : Phase → Type 0} {act : Act A}
        → ((p : Phase) → R p → P p)
        → Triple json watch P act Q
        → Triple json watch R act Q
    triple-from weaken f = record { run = λ t p s l h. f.run t p s l (weaken p h) }

  module _ {A : Type 0} {P : Phase → Type 0} {Q R : A → Phase → Type 0} where
    pub triple-to :
        {act : Act A}
        → ((a : A) (p : Phase) → Q a p → R a p)
        → Triple json watch P act Q
        → Triple json watch P act R
    triple-to weaken f = record {
      run = λ t p s l h.
          let done = f.run t p s l h in
          record {
            added = done.added;
            grows = done.grows;
            stays_legal = done.stays_legal;
            post = λ a e. weaken a _ (done.post a e);
          };
    }

  module _ {A B : Type 0} {Q : A → Phase → Type 0} {R : B → Phase → Type 0} where
    after-continue :
        {t : Trace} {p : Phase} (outcome : Fueled A × Trace) {next : A → Act B}
        → p.stopped ≡ seen_set t
        → After json watch outcome t p Q
        → ((a : A) → Triple json watch (Q a) (next a) R)
        → After json watch (continue outcome next) t p R
    after-continue (none, u) s f g = record {
      added = f.added;
      grows = f.grows;
      stays_legal = f.stays_legal;
      post = λ b q. cc;
    }
    after-continue (some (err e), u) s f g = record {
      added = f.added;
      grows = f.grows;
      stays_legal = f.stays_legal;
      post = λ b q. cc;
    }
    after-continue {t} {p} (some (ok a), u) {next} s f g =
        let h =
          (g a).run u (observe json watch f.added p)
            (rw f.grows (observe-stopped json watch f.added t p s)) f.stays_legal (f.post a refl) in
        record {
          added = h.added ++ f.added;
          grows = h.grows ∙ ap (λ v. h.added ++ v) f.grows ∙ sym (append_assoc h.added f.added t);
          stays_legal = rw (observe-append json watch h.added f.added p) h.stays_legal;
          post = λ b e. rw (observe-append json watch h.added f.added p) (h.post b e);
        }

    pub triple-bind :
        {P : Phase → Type 0} {act : Act A} {next : A → Act B}
        → Triple json watch P act Q
        → ((a : A) → Triple json watch (Q a) (next a) R)
        → Triple json watch P (act >>= next) R
    unfolding ◌>>=◌
    triple-bind {P} {act} f g = record {
      run = λ t p s l h. after-continue (act t) s (f.run t p s l h) g;
    }
