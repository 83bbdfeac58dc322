-- ===== src/Agent/Loop/RootCause/Order.antt =====
-- The order in which `RootCauseRuleEngine` reads its rules (app/services/agent_loop_service.py).
use test_platform_backend.Prelude.{
  ◌≤◌, refl, inl, inr, String, Bool, List, [], ◌∷◌, All, All-map, Has, Bool-cases, arith,
}
use test_platform_backend.Agent.Loop.RootCause.{AgentRootCauseRule}
use test_platform_backend.Agent.Loop.RootCause.Engine.{rule_before, insert_rule, by_priority}

module _ {F : Type 0} where
  -- Each rule comes before all of a lower priority, which is a larger number.
  abbrev pub Ascending : List (AgentRootCauseRule F) → Type 0
  Ascending [] = Unit
  Ascending (r ∷ rs) = All (λ (s : AgentRootCauseRule F). r.priority ≤ s.priority) rs × Ascending rs

  module _ (le_id : String → String → Bool) where
    module _ (P : AgentRootCauseRule F → Type 0) where
      All-insert_rule :
          (r : AgentRootCauseRule F) (rs : List (AgentRootCauseRule F))
          → P r
          → All P rs
          → All P (insert_rule le_id r rs)
      unfolding insert_rule
      All-insert_rule r [] p ps = (p, tt)
      All-insert_rule r (s ∷ rs) p ps = elim (Bool-cases (rule_before le_id r s)) [
        | inl before ↦ rw before (p, ps)
        | inr after ↦ rw after (ps.0, All-insert_rule r rs p ps.1)
      ]

      pub All-by_priority :
          (rs : List (AgentRootCauseRule F)) → All P rs → All P (by_priority le_id rs)
      unfolding by_priority
      All-by_priority [] ps = tt
      All-by_priority (r ∷ rs) ps =
          All-insert_rule r (by_priority le_id rs) ps.0 (All-by_priority rs ps.1)

    Ascending-insert_rule :
        (r : AgentRootCauseRule F) (rs : List (AgentRootCauseRule F))
        → Ascending rs
        → Ascending (insert_rule le_id r rs)
    unfolding insert_rule
    Ascending-insert_rule r [] h = (tt, tt)
    Ascending-insert_rule r (s ∷ rs) h = elim (Bool-cases (rule_before le_id r s)) [
      | inl before ↦ rw before (
        (
          ground arith,
          All-map (λ t k. (let le : s.priority ≤ t.priority = k in ground arith)) rs h.0,
        ),
        h,
      )
      | inr after ↦ rw after (
        All-insert_rule (λ t. s.priority ≤ t.priority) r rs (ground arith) h.0,
        Ascending-insert_rule r rs h.1,
      )
    ]

    pub by_priority-Ascending :
        (rs : List (AgentRootCauseRule F)) → Ascending (by_priority le_id rs)
    unfolding by_priority
    by_priority-Ascending [] = tt
    by_priority-Ascending (r ∷ rs) =
        Ascending-insert_rule r (by_priority le_id rs) (by_priority-Ascending rs)

    Has-insert_rule_head :
        (r : AgentRootCauseRule F) (rs : List (AgentRootCauseRule F))
        → Has r (insert_rule le_id r rs)
    unfolding insert_rule
    Has-insert_rule_head r [] = inl refl
    Has-insert_rule_head r (s ∷ rs) = elim (Bool-cases (rule_before le_id r s)) [
      | inl before ↦ rw before (inl refl)
      | inr after ↦ rw after (inr (Has-insert_rule_head r rs))
    ]

    Has-insert_rule_tail :
        (a r : AgentRootCauseRule F) (rs : List (AgentRootCauseRule F))
        → Has a rs
        → Has a (insert_rule le_id r rs)
    unfolding insert_rule
    Has-insert_rule_tail a r [] h = absurd h
    Has-insert_rule_tail a r (s ∷ rs) h = elim (Bool-cases (rule_before le_id r s)) [
      | inl before ↦ rw before (inr h)
      | inr after ↦
          rw after (elim h [ inl e ↦ inl e | inr k ↦ inr (Has-insert_rule_tail a r rs k) ])
    ]

    pub Has-by_priority :
        (a : AgentRootCauseRule F) (rs : List (AgentRootCauseRule F))
        → Has a rs
        → Has a (by_priority le_id rs)
    unfolding by_priority
    Has-by_priority a [] h = absurd h
    Has-by_priority a (r ∷ rs) (inl e) = rw e (Has-insert_rule_head r (by_priority le_id rs))
    Has-by_priority a (r ∷ rs) (inr h) =
        Has-insert_rule_tail a r (by_priority le_id rs) (Has-by_priority a rs h)
