-- ===== src/Tests/Loops.antt =====
-- The context of a run with two pieces of evidence, and an observation of a high-risk step.
use test_platform_backend.Prelude.{
  ℕ, ◌≡◌, refl, leb, true, false, none, some, [], ◌∷◌, elem, Bool, String,
}
use test_platform_backend.Session.{Result, ok, request}
use test_platform_backend.Permission.{require_project_access}
use test_platform_backend.Agent.Model.{AgentContextBuild, AgentToolCall}
use test_platform_backend.Agent.Policy.{
  ensure_context_allows_execution, is_trusted_high_risk_evidence, is_agent_memory,
}
use test_platform_backend.Agent.Loop.Evidence.{EvidenceRef, immutable, decision_dependency, ids_of}
use test_platform_backend.Agent.Loop.Budget.{apply_budget}
use test_platform_backend.Agent.Loop.Context.{Rows, BuildRequest, build}
use test_platform_backend.Agent.Loop.Context.Built.{build-ensure_context_allows_execution}
use test_platform_backend.Agent.Loop.RootCause.{Observation, Entry, unset}
use test_platform_backend.Agent.Loop.RootCause.Engine.{ensure_default_rules, evaluate}
use test_platform_backend.Agent.Loop.RootCause.Laws.{Found, evaluate-Found}
use test_platform_backend.Agent.Loop.Observe.{ObservationRequest, LoopRows}
use test_platform_backend.Tests.Rows.{owner, tester_access, journal, approved_call}

abbrev seen : ℕ → EvidenceRef
seen id = record {
  evidence_ref_id = id;
  ref_type = 1;
  ref_id = id;
  memory_id = none;
  mutability_class = immutable;
  dependency_role = decision_dependency;
  active_for_policy = true;
  version_id = some 1;
  content_hash = none;
  snapshot_id = none;
  superseded_by_ref = none;
}

abbrev rows : Rows
rows = record { journal = journal; builds = []; watches = [] }

-- The second piece is required; the budget leaves it out.
abbrev asked : ℕ → BuildRequest
asked budget = record {
  step_index = 0;
  token_budget = budget;
  evidence_refs = seen 1 ∷ seen 2 ∷ [];
  memory_ids_used = [];
  required_evidence_ref_ids = 2 ∷ [];
}

abbrev sized : BuildRequest → ℕ
sized p = 400

abbrev built_with : ℕ → Result AgentContextBuild × Rows
built_with budget = request (build owner tester_access sized (asked budget) 30) rows

abbrev whole_build : AgentContextBuild
whole_build = elim (built_with 100).0 [ ok b ↦ b | _ ↦ empty_build ]
  where
    empty_build : AgentContextBuild
    empty_build = test_platform_backend.Tests.Rows.build

build-ensure_context_allows_execution_example :
    let cut = apply_budget (seen 1 ∷ seen 2 ∷ []) 100 100 in
    ((built_with 100).1.builds ≡ whole_build ∷ [])
    × (whole_build.omitted_evidence_refs ≡ ids_of cut.omitted)
    × ((id : ℕ)
        → elem id (2 ∷ []) ≡ true
        → (elem id whole_build.omitted_evidence_refs ≡ false)
          × (elem id (ids_of (seen 1 ∷ seen 2 ∷ [])) ≡ true → elem id (ids_of cut.kept) ≡ true))
unfolding build ensure_context_allows_execution require_project_access is_trusted_high_risk_evidence
    is_agent_memory
build-ensure_context_allows_execution_example =
    build-ensure_context_allows_execution owner tester_access sized (asked 100) 30 rows
      (built_with 100).1 whole_build approved_call refl refl refl

abbrev no_entries : String → Entry ℕ
no_entries key = unset

abbrev stuck : Observation ℕ
stuck = record {
  degradation_level = test_platform_backend.Agent.Model.undegraded;
  evidence_complete = true;
  high_risk_next = false;
  entries = no_entries;
}

abbrev by_text : String → String → Bool
by_text s t = true

evaluate-Found_example :
    Found leb
      ("policy_loop" ∷ [])
      stuck
      (ensure_default_rules 0 [])
      (evaluate by_text leb 0 [] ("policy_loop" ∷ []) stuck)
evaluate-Found_example = evaluate-Found leb ("policy_loop" ∷ []) stuck by_text 0 []

abbrev cut_build : AgentContextBuild
cut_build = record test_platform_backend.Tests.Rows.build { required_evidence_complete = false }

abbrev loop_rows : LoopRows ℕ
loop_rows = record { rows = record rows { builds = cut_build ∷ [] }; rules = []; observations = [] }

abbrev reported : ObservationRequest ℕ
reported = record {
  decision_context_build_id = cut_build.context_build_id;
  reasons = "max_iterations" ∷ [];
  next_action_is_high_risk = true;
  observation = no_entries;
}

abbrev same_number : ℕ → ℕ
same_number n = n
