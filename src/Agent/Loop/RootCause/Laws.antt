-- ===== src/Agent/Loop/RootCause/Laws.antt =====
-- The rule that `RootCauseRuleEngine.evaluate` finds, and what its governance audit says
-- (app/services/agent_loop_service.py).
use test_platform_backend.Prelude.{
  ◌≤◌, ◌≡◌, refl, sym, ap, ◌↔◌, inl, inr, String, Bool, true, false, not, Option, some, List, [],
  ◌∷◌, ◌++◌, select, find, All, All-map, Has, All-Has, All-of_Has, Has-append_right, find_cases,
  select_nil_iff, Has-select, Has-of_select, Bool-cases, arith,
}
use test_platform_backend.Permission.{has_code}
use test_platform_backend.Agent.Loop.RootCause.{AgentRootCauseRule, Observation, matches_rule}
use test_platform_backend.Agent.Loop.RootCause.Rules.{default_root_cause_rules, rc_rule_missing}
use test_platform_backend.Agent.Loop.RootCause.Engine.{
  ids, ensure_default_rules, is_violation, by_priority, audit_rule_governance, evaluate,
}
use test_platform_backend.Agent.Loop.RootCause.Order.{
  Ascending, All-by_priority, by_priority-Ascending, Has-by_priority,
}
use mathlib.Core.Path.{subst}
use text.Mathlib.Text.{◌==◌ as str_eq}
use text.Mathlib.TextEquality.{eq_iff}

module _ {F : Type 0} where
  has_code-append :
      (c : String) (xs ys : List (AgentRootCauseRule F))
      → has_code c (ids xs) ≡ true
      → has_code c (ids (xs ++ ys)) ≡ true
  unfolding has_code
  has_code-append c [] ys h = cc
  has_code-append c (x ∷ xs) ys h = elim (Bool-cases (str_eq c x.rule_id)) [
    | inl same ↦ rw same refl
    | inr other ↦ (let k = rw other at h in rw other (has_code-append c xs ys k))
  ]

  has_code_of_Has :
      (r : AgentRootCauseRule F) (xs : List (AgentRootCauseRule F))
      → Has r xs
      → has_code r.rule_id (ids xs) ≡ true
  unfolding has_code
  has_code_of_Has r [] h = absurd h
  has_code_of_Has r (x ∷ xs) (inl e) =
      rw ((eq_iff r.rule_id x.rule_id).1 (ap (λ (r : AgentRootCauseRule F). r.rule_id) e)) refl
  has_code_of_Has r (x ∷ xs) (inr h) = ground (arith, has_code_of_Has r xs h)

  none_named :
      (c : String) (xs : List (AgentRootCauseRule F))
      → has_code c (ids xs) ≡ true
      → All (λ (r : AgentRootCauseRule F). str_eq c r.rule_id ≡ false) xs
      → ⊥
  unfolding has_code
  none_named c [] h p = cc
  none_named c (x ∷ xs) h p = none_named c xs (let e = p.0 in rw e at h) p.1

  missing_there :
      (zero_float : F) → Has (rc_rule_missing zero_float) (default_root_cause_rules zero_float)
  missing_there zero_float =
      inr (inr (inr (inr (inr (inr (inr (inr (inr (inr (inr (inr (inl refl))))))))))))

  -- After the seeding, each default rule's id is in the table.
  default_named :
      (zero_float : F) (rules : List (AgentRootCauseRule F)) (r : AgentRootCauseRule F)
      → Has r (default_root_cause_rules zero_float)
      → has_code r.rule_id (ids (ensure_default_rules zero_float rules)) ≡ true
  unfolding ensure_default_rules
  default_named zero_float rules r h = elim (Bool-cases (has_code r.rule_id (ids rules))) [
    | inl there ↦ has_code-append r.rule_id rules _ there
    | inr absent ↦ has_code_of_Has r (rules ++ _) (
        Has-append_right r rules _ (
          Has-select r (λ r. not (has_code r.rule_id (ids rules)))
            (default_root_cause_rules zero_float) h (rw absent refl)))
  ]

  module _ (float_leb : F → F → Bool) (reasons : List String) (o : Observation F) where
    abbrev pub applies : AgentRootCauseRule F → Bool
    applies r = matches_rule float_leb r.match_expression reasons o

    -- What `evaluate` finds in a table: an active rule that matches, with the least priority of
    -- those, or, where none matches, the rule for that. It always finds one.
    pub data Found (table : List (AgentRootCauseRule F))
        : Option (AgentRootCauseRule F) → Type 0 where
      first :
          (r : AgentRootCauseRule F)
          → Has r table
          → r.is_active ≡ true
          → applies r ≡ true
          → All
              (λ (s : AgentRootCauseRule F).
                s.is_active ≡ true → applies s ≡ true → r.priority ≤ s.priority)
              table
          → Found table (some r)
      missing :
          (r : AgentRootCauseRule F)
          → Has r table
          → r.rule_id ≡ "RC_RULE_MISSING"
          → All (λ (s : AgentRootCauseRule F). s.is_active ≡ true → applies s ≡ false) table
          → Found table (some r)

    first_least :
        (rs : List (AgentRootCauseRule F)) (r : AgentRootCauseRule F)
        → Ascending rs
        → find applies rs ≡ some r
        → All (λ (s : AgentRootCauseRule F). applies s ≡ true → r.priority ≤ s.priority) rs
    first_least [] r h e = tt
    first_least (x ∷ rs) r h e = elim (Bool-cases (applies x)) [
      | inl pass ↦
          let same : x ≡ r = (let k = rw pass at e in ground arith) in
          subst
            (λ (x' : AgentRootCauseRule F).
              All (λ (s : AgentRootCauseRule F). applies s ≡ true → x'.priority ≤ s.priority)
                (x ∷ rs))
            same ((λ _. omega arith), All-map (λ s le _. le) rs h.0)
      | inr fail ↦ (λ pass. absurd (ground arith), first_least rs r h.1 (rw fail at e))
    ]

    module _ (le_id : String → String → Bool) (zero_float : F)
        (rules : List (AgentRootCauseRule F)) where
      -- With the default rules seeded, the search for a root cause always finds a rule. It is an
      -- active rule that matches, and no active rule that matches has a smaller priority; or, if
      -- none matches, it is the rule RC_RULE_MISSING.
      pub evaluate-Found :
          Found
            (ensure_default_rules zero_float rules)
            (evaluate le_id float_leb zero_float rules reasons o)
      unfolding evaluate
      evaluate-Found =
          let table = ensure_default_rules zero_float rules in
          let active = select (λ (r : AgentRootCauseRule F). r.is_active) table in
          let ordered = by_priority le_id active in
          elim (find_cases applies ordered) [
            | inl (r, e, pass, there) ↦
                let within =
                  Has-of_select r (λ (r : AgentRootCauseRule F). r.is_active) table
                    (All-Has (λ x. Has x active) r ordered
                      (All-by_priority le_id (λ x. Has x active) active
                        (All-of_Has (λ x. Has x active) active (λ x h. h)))
                      there) in
                let least = first_least ordered r (by_priority-Ascending le_id active) e in
                rw e (
                  first r within.0 within.1 pass (
                    All-of_Has
                      (λ s. s.is_active ≡ true → applies s ≡ true → r.priority ≤ s.priority) table
                      (λ s h on.
                        All-Has (λ s. applies s ≡ true → r.priority ≤ s.priority) s ordered least
                          (Has-by_priority le_id s active (Has-select s _ table h on)))))
            | inr (e, fails) ↦ elim (find_cases (λ r. str_eq "RC_RULE_MISSING" r.rule_id) table) [
              | inl (r, found, named, there) ↦
                  rw (e, found)
                    (missing r there (sym ((eq_iff "RC_RULE_MISSING" r.rule_id).0 named)) (
                      All-of_Has (λ s. s.is_active ≡ true → applies s ≡ false) table
                        (λ s h on.
                          All-Has (λ s. applies s ≡ false) s ordered fails
                            (Has-by_priority le_id s active (Has-select s _ table h on)))))
              | inr (found, unnamed) ↦ absurd (
                  none_named "RC_RULE_MISSING" table
                    (default_named zero_float rules (rc_rule_missing zero_float)
                      (missing_there zero_float))
                    unnamed)
            ]
          ]

  -- What a rule that is found must have: it bounds the priority by that of a rule known to match.
  pub Found-bound :
      (float_leb : F → F → Bool) (reasons : List String) (o : Observation F)
      (table : List (AgentRootCauseRule F)) (known r : AgentRootCauseRule F)
      → Has known table
      → known.is_active ≡ true
      → matches_rule float_leb known.match_expression reasons o ≡ true
      → (found : Option (AgentRootCauseRule F)) → Found float_leb reasons o table found
      → found ≡ some r
      → r.priority ≤ known.priority
  Found-bound float_leb reasons o table known r there on fits _ (first r' _ _ _ least) e =
      let le =
        All-Has
          (λ (s : AgentRootCauseRule F).
            s.is_active ≡ true
            → matches_rule float_leb s.match_expression reasons o ≡ true
            → r'.priority ≤ s.priority)
          known table least there on fits in
      let same : r' ≡ r = ground arith in
      subst (λ (x : AgentRootCauseRule F). x.priority ≤ known.priority) same le
  Found-bound float_leb reasons o table known r there on fits _ (missing r' _ _ fails) e =
      let no_match =
        All-Has
          (λ (s : AgentRootCauseRule F).
            s.is_active ≡ true → matches_rule float_leb s.match_expression reasons o ≡ false)
          known table fails there on in
      absurd (clash fits no_match)
    where
      clash : {b : Bool} → b ≡ true → b ≡ false → ⊥
      clash m n = ground arith

  All-append :
      (P : AgentRootCauseRule F → Type 0) (xs ys : List (AgentRootCauseRule F))
      → (All P xs × All P ys) ↔ All P (xs ++ ys)
  All-append P [] ys = (λ h. h.1, λ h. (tt, h))
  All-append P (x ∷ xs) ys =
      let rest = All-append P xs ys in
      (λ h. (h.0.0, rest.0 (h.0.1, h.1)), λ h. (let k = rest.1 h.1 in ((h.0, k.0), k.1)))

  -- The governance audit, which seeds the default rules and then checks every priority against its
  -- band, reports no violation exactly if the rules that were there before the seeding have none:
  -- the default rules are all inside their bands.
  pub audit_rule_governance_iff :
      (le_id : String → String → Bool) (zero_float : F) (rules : List (AgentRootCauseRule F))
      → (audit_rule_governance le_id zero_float rules ≡ [])
        ↔ All (λ r. is_violation r ≡ false) rules
  unfolding audit_rule_governance ensure_default_rules
  audit_rule_governance_iff le_id zero_float rules =
      let table = ensure_default_rules zero_float rules in
      let ok : AgentRootCauseRule F → Type 0 = λ r. is_violation r ≡ false in
      let nil = select_nil_iff is_violation (by_priority le_id table) in
      let new =
        select (λ r. not (has_code r.rule_id (ids rules))) (default_root_cause_rules zero_float) in
      let split = All-append ok rules new in
      (
        λ h.
            (split.1 (
              All-of_Has ok table (λ r there.
                All-Has ok r (by_priority le_id table) (nil.0 h)
                  (Has-by_priority le_id r table there)))).0,
        λ h. nil.1 (
            All-by_priority le_id ok table (
              split.0 (
                h,
                All-of_Has ok new (λ r there.
                    All-Has ok r (default_root_cause_rules zero_float) (defaults_within zero_float)
                      (Has-of_select r (λ r. not (has_code r.rule_id (ids rules)))
                        (default_root_cause_rules zero_float) there).0),
              ))),
      )
    where
      defaults_within :
          (zero_float : F) → All (λ r. is_violation r ≡ false) (default_root_cause_rules zero_float)
      defaults_within zero_float = (
        refl,
        (
          refl,
          (
            refl,
            (refl, (refl, (refl, (refl, (refl, (refl, (refl, (refl, (refl, (refl, tt)))))))))),
          ),
        ),
      )
