-- ===== src/Agent/Memory/Gate/Safe.antt =====
-- Which memories `retrieve` of app/services/agent_memory_service.py returns, and in what order.
use test_platform_backend.Prelude.{
  ℕ, ◌≡◌, refl, String, Bool, true, false, ◌&&◌, not, Option, none, some, List, arith,
}
use test_platform_backend.Agent.Memory.{Floats, ProjectMemory, SourceProfile, RetrievalProfile}
use test_platform_backend.Agent.Memory.Rows.{source_profile}
use test_platform_backend.Agent.Memory.Gate.{
  GateReason, is_retrievable, passed, is_environment_updated, unless_filtered, source_gate,
  hard_gate_filter_reason, passes,
}
use text.Mathlib.Text.{◌==◌ as str_eq}

module _ {F : Type 0} (fl : Floats F) where
  -- What a task of high risk may rely on.
  pub record IsTrusted (profiles : List (SourceProfile F)) (p : RetrievalProfile F)
      (m : ProjectMemory F) : Type 0 where
    pub environment : is_environment_updated m.stale_reason ≡ false
    pub allowed : p.allow_memory_for_high_risk ≡ true
    pub source : SourceProfile F
    pub known : source_profile fl profiles m.source_type ≡ some source
    pub source_allowed : source.allowed_for_high_risk ≡ true
    pub not_agent : str_eq m.authority "agent" ≡ false

  -- What any task may rely on.
  pub record IsUsable (now : ℕ) (profiles : List (SourceProfile F)) (p : RetrievalProfile F)
      (high_risk : Bool) (m : ProjectMemory F) : Type 0 where
    pub status : is_retrievable m.status ≡ true
    pub fresh : passed m.expires_at now ≡ false
    pub confident : fl.leb p.min_confidence m.confidence ≡ true
    pub not_stale : fl.leb m.stale_score p.max_stale_score ≡ true
    pub trusted : high_risk ≡ true → IsTrusted profiles p m

  filter_next :
      (bad : Bool) (r : GateReason) (rest : Option GateReason)
      → passes fl (unless_filtered bad r rest) ≡ true
      → (bad ≡ false) × (passes fl rest ≡ true)
  filter_next true r rest h = absurd (ground arith)
  filter_next false r rest h = (refl, h)

  source_gate-passes :
      (source : Option (SourceProfile F)) (authority : String)
      → passes fl (source_gate source authority) ≡ true
      → (s : SourceProfile F) × (source ≡ some s)
        × (s.allowed_for_high_risk ≡ true)
        × (str_eq authority "agent" ≡ false)
  unfolding source_gate
  source_gate-passes none authority h = absurd (ground arith)
  source_gate-passes (some s) authority h =
      let a = filter_next (not s.allowed_for_high_risk) _ _ h in
      let b = filter_next (str_eq authority "agent") _ none a.1 in
      (s, refl, not_false s.allowed_for_high_risk a.0, b.0)
    where
      not_false : (b : Bool) → not b ≡ false → b ≡ true
      not_false b h = ground arith

  pub hard_gate_filter_reason-IsUsable :
      (now : ℕ) (profiles : List (SourceProfile F)) (m : ProjectMemory F) (p : RetrievalProfile F)
      (high_risk : Bool)
      → passes fl (hard_gate_filter_reason fl now profiles m p high_risk) ≡ true
      → IsUsable now profiles p high_risk m
  unfolding hard_gate_filter_reason
  hard_gate_filter_reason-IsUsable now profiles m p high_risk h =
      let a = filter_next (not (is_retrievable m.status)) _ _ h in
      let b = filter_next (passed m.expires_at now) _ _ a.1 in
      let c = filter_next (high_risk && is_environment_updated m.stale_reason) _ _ b.1 in
      let d = filter_next (not (fl.leb p.min_confidence m.confidence)) _ _ c.1 in
      let e = filter_next (not (fl.leb m.stale_score p.max_stale_score)) _ _ d.1 in
      let f = filter_next (high_risk && not p.allow_memory_for_high_risk) _ _ e.1 in
      record {
        status = not_false (is_retrievable m.status) a.0;
        fresh = b.0;
        confident = not_false (fl.leb p.min_confidence m.confidence) d.0;
        not_stale = not_false (fl.leb m.stale_score p.max_stale_score) e.0;
        trusted = λ risky.
            (let (s, known, allowed, other) =
                source_gate-passes (source_profile fl profiles m.source_type) m.authority
                  (let k = f.1 in rw risky at k) in
              record {
                environment = (let k = c.0 in rw risky at k);
                allowed = not_false p.allow_memory_for_high_risk (let k = f.0 in rw risky at k);
                source = s;
                known = known;
                source_allowed = allowed;
                not_agent = other;
              });
      }
    where
      not_false : (b : Bool) → not b ≡ false → b ≡ true
      not_false b h = ground arith
