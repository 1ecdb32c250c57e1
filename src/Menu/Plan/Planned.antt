-- ===== src/Menu/Plan/Planned.antt =====
-- internal/tui/menu.go, `askSchedule`: the schedules that the dialogue gives.

use sbackup.Base.{
  String, true, false, List, [], ◌∷◌, Option, none, some, ◌≡◌, refl, sym, ap, subst, ◌∙◌, arith,
  All, map, Result, ok, err, ◌==◌, string_eq, inl, inr, Bool-cases, Result-cases, if◌then◌else◌,
}
use sbackup.Base.Int.{pos}
use sbackup.Base.Time.{minute}
use sbackup.Base.Text.{join}
use sbackup.Config.{Schedule}
use sbackup.Config.Validate.Fields.{at_least}
use sbackup.Menu.{Machine, Session, ◌>>=◌, pure, read_line, next_line}
use sbackup.Menu.Ask.{ask, split_values}
use sbackup.Menu.Plan.{
  valid_clock, clock_expression, expressions, clocks_to_expressions, prepared, at_one_clock,
  at_clocks, with_clocks, of_values, at_interval, switched_off, asked_schedule, ask_schedule,
  was_seen,
}

abbrev pub Valid : List String → Type 0
Valid vs = All (λ v. valid_clock v ≡ true) vs

abbrev pub calendar_text : List String → String
calendar_text vs = join ";" (map clock_expression vs)

-- The schedules that the dialogue makes of the current one.
pub data Planned (machine : Machine) (current : Schedule) : Schedule → Type 0 where
  at_clock_times :
      (v : String) (vs : List String) {s : Schedule}
      → Valid (v ∷ vs)
      → expressions [] (v ∷ vs) ≡ ok (map clock_expression (v ∷ vs))
      → s ≡ record (prepared current) { type = "calendar"; expression = calendar_text (v ∷ vs) }
      → Planned machine current s
  every :
      (value : String) {s : Schedule}
      → at_least (pos minute) (machine.std.parse_duration value) ≡ true
      → s ≡ record (prepared current) { type = "interval"; expression = value }
      → Planned machine current s
  off : {s : Schedule} → s ≡ switched_off (prepared current) → Planned machine current s

some_injective {ℓ} : {A : Type ℓ} {a b : A} → some a ≡ some b → a ≡ b
some_injective h = cc

-- One round of the loop.
expressions-round :
    (seen : List String) (v : String) (vs : List String) {es : List String}
    → expressions seen (v ∷ vs) ≡ ok es
    → (valid_clock v ≡ true)
      × (rest : List String) × (expressions (if was_seen seen v then seen else v ∷ seen) vs
          ≡ ok rest)
      × (es ≡ (if was_seen seen v then rest else clock_expression v ∷ rest))
unfolding expressions
expressions-round seen v vs {es} h = elim (Bool-cases (valid_clock v)) [
  | inr e ↦ absurd (ground arith)
  | inl e ↦ elim (Result-cases (expressions (if was_seen seen v then seen else v ∷ seen) vs)) [
    | inr (r, q) ↦ absurd (ground arith)
    | inl (rest, q) ↦ (e, rest, q, ground arith)
  ]
]

no_expression : (seen : List String) {es : List String} → expressions seen [] ≡ ok es → es ≡ []
unfolding expressions
no_expression seen h = cc

expressions-new :
    (seen : List String) (v : String) (ws : List String) {rest : List String}
    → valid_clock v ≡ true
    → was_seen seen v ≡ false
    → expressions (v ∷ seen) ws ≡ ok rest
    → expressions seen (v ∷ ws) ≡ ok (clock_expression v ∷ rest)
unfolding expressions
expressions-new seen v ws valid new h = rw (new, valid, h) refl

-- The expressions are those of the different clocks, all of which are valid; those clocks give them again.
pub expressions-eq-ok :
    (seen vs : List String) {es : List String}
    → expressions seen vs ≡ ok es
    → (ws : List String) × (es ≡ map clock_expression ws) × Valid ws × (expressions seen ws ≡ ok es)
expressions-eq-ok seen [] {es} h = ([], no_expression seen h, tt, h)
expressions-eq-ok seen (v ∷ vs) {es} h =
    let (valid, rest, e, same) = expressions-round seen v vs h in
    elim (Bool-cases (was_seen seen v)) [
      | inl old ↦
          let p = subst (λ b. es ≡ (if b then rest else clock_expression v ∷ rest)) old same in
          let q = subst (λ b. expressions (if b then seen else v ∷ seen) vs ≡ ok rest) old e in
          let (ws, w, all_valid, again) = expressions-eq-ok seen vs q in
          (ws, p ∙ w, all_valid, again ∙ ap ok (sym p))
      | inr new ↦
          let p = subst (λ b. es ≡ (if b then rest else clock_expression v ∷ rest)) new same in
          let q = subst (λ b. expressions (if b then seen else v ∷ seen) vs ≡ ok rest) new e in
          let (ws, w, all_valid, again) = expressions-eq-ok (v ∷ seen) vs q in
          (
            v ∷ ws,
            p ∙ ap (λ es. clock_expression v ∷ es) w,
            (valid, all_valid),
            expressions-new seen v ws valid new again ∙ ap ok (sym p),
          )
    ]

-- There is one time of day at least.
pub of_values-eq-ok :
    (values : List String) {es : List String}
    → of_values values ≡ ok es
    → (w : String) × (ws : List String) × (es ≡ map clock_expression (w ∷ ws))
      × Valid (w ∷ ws)
      × (expressions [] (w ∷ ws) ≡ ok es)
of_values-eq-ok [] h = cc
of_values-eq-ok (v ∷ vs) {es} h =
    let (valid, rest, e, same) = expressions-round [] v vs h in
    let (ws, w, all_valid, again) = expressions-eq-ok (v ∷ []) vs e in
    (
      v,
      ws,
      same ∙ ap (λ es. clock_expression v ∷ es) w,
      (valid, all_valid),
      expressions-new [] v ws valid refl again ∙ ap ok (sym same),
    )

no_more : (seen : List String) → expressions seen [] ≡ ok []
unfolding expressions
no_more seen = refl

module _ (machine : Machine) (current : Schedule) where
  at_one_clock-Planned :
      (value : String) {s : Schedule}
      → at_one_clock (prepared current) value ≡ some s
      → Planned machine current s
  unfolding at_one_clock join
  at_one_clock-Planned value h = elim (Bool-cases (valid_clock value)) [
    | inl e ↦
        at_clock_times value [] (e, tt) (expressions-new [] value [] e refl (no_more _))
          (ground arith)
    | inr e ↦ absurd (ground arith)
  ]

  with_clocks-Planned :
      (values : List String) (r : Result String (List String)) {s : Schedule}
      → of_values values ≡ r
      → with_clocks (prepared current) r ≡ some s
      → Planned machine current s
  with_clocks-Planned values (err e) q h = cc
  with_clocks-Planned values (ok es) q h =
      let (w, ws, same, valid, again) = of_values-eq-ok values q in
      at_clock_times w ws valid (again ∙ ap ok same) (
        some_injective (sym h)
        ∙ ap (λ es. record (prepared current) { type = "calendar"; expression = join ";" es }) same)

  at_clocks-Planned :
      (value : String) {s : Schedule}
      → at_clocks (prepared current) value ≡ some s
      → Planned machine current s
  unfolding at_clocks clocks_to_expressions
  at_clocks-Planned value h = with_clocks-Planned (split_values value) _ refl h

  at_interval-Planned :
      (value : String) {s : Schedule}
      → at_interval machine (prepared current) value ≡ some s
      → Planned machine current s
  unfolding at_interval
  at_interval-Planned value h =
      elim (Bool-cases (at_least (pos minute) (machine.std.parse_duration value))) [
        | inl e ↦ every value e (ground arith)
        | inr e ↦ absurd (ground arith)
      ]

  first_eq :
      {A : Type 0} (a b : A) (s t : Session)
      → ◌≡◌ {A = Option (A × Session)} (some (a, s)) (some (b, t))
      → a ≡ b
  first_eq a b s t h = cc

  -- The value of a question whose answer is only computed with.
  of_answer :
      {A : Type 0} (fallback : String) (g : String → A) (s : Session) {x : A} {t : Session}
      → (ask fallback >>= λ v. pure (g v)) s ≡ some (x, t)
      → (v : String) × (g v ≡ x)
  unfolding ask read_line ◌>>=◌ pure
  of_answer fallback g s h =
      (if (next_line s.input).0 == "" then fallback else (next_line s.input).0, first_eq _ _ _ _ h)

  none-some : {r : Schedule} → ◌≡◌ {A = Option Schedule} none (some r) → ⊥
  none-some q = cc

  pure-eq : (a r : Option Schedule) (s t : Session) → pure a s ≡ some (r, t) → a ≡ r
  unfolding pure
  pure-eq a r s t h = first_eq a r s t h

  asked_schedule-Planned :
      (choice : String) (s : Session) {r : Schedule} {t : Session}
      → asked_schedule machine current choice s ≡ some (some r, t)
      → Planned machine current r
  unfolding asked_schedule
  asked_schedule-Planned choice s {r} {t} h = elim (Bool-cases (choice == "1")) [
    | inl e ↦
        let (v, q) = of_answer _ (at_one_clock (prepared current)) s (rw e at h) in
        at_one_clock-Planned v q
    | inr e ↦ elim (Bool-cases (choice == "2")) [
      | inl e2 ↦
          let (v, q) = of_answer _ (at_clocks (prepared current)) s (rw e2 at (rw e at h)) in
          at_clocks-Planned v q
      | inr e2 ↦ elim (Bool-cases (choice == "3")) [
        | inl e3 ↦
            let (v, q) =
              of_answer _ (at_interval machine (prepared current)) s
                (rw e3 at (rw e2 at (rw e at h))) in
            at_interval-Planned v q
        | inr e3 ↦ elim (Bool-cases (choice == "4")) [
          | inl e4 ↦
              off (
                some_injective (sym (pure-eq _ _ s t (rw e4 at (rw e3 at (rw e2 at (rw e at h)))))))
          | inr e4 ↦
              absurd (none-some (pure-eq _ _ s t (rw e4 at (rw e3 at (rw e2 at (rw e at h))))))
        ]
      ]
    ]
  ]

  -- Every schedule that the dialogue gives is one of these.
  pub ask_schedule-Planned :
      (s : Session) {r : Schedule} {t : Session}
      → ask_schedule machine current s ≡ some (some r, t)
      → Planned machine current r
  unfolding ask_schedule ask read_line ◌>>=◌ pure
  ask_schedule-Planned s h = asked_schedule-Planned _ _ h
