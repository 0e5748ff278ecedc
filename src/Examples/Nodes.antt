-- ===== src/Examples/Nodes.antt =====
-- The nodes at concrete inputs.
use surveyforge.Base.{
  String, List, map, Dict, some, true, subset, contains, lookup, insert, same_set, keys, ◌+◌, ◌*◌,
  ◌≤◌, ◌≡◌, refl, [], ◌∷◌, length,
}
use surveyforge.Runtime.Errors.{ok}
use surveyforge.Runtime.World.{transaction}
use surveyforge.Runtime.Runs.{update_rows, update_stage, find_run}
use surveyforge.Runtime.Evidence.{list_by_section, save, evidence_item_valid}
use surveyforge.Runtime.Budget.{check, budget_per_role}
use surveyforge.Runtime.Gateway.{call, register}
use surveyforge.Roles.{role_in}
use surveyforge.Schemas.Planner.{planner_section_valid, planner_output_valid}
use surveyforge.Schemas.PaperId.{paper_id_valid}
use surveyforge.Schemas.Research.{CandidatePaper, ResearcherWideOutput, s2, deep_output_valid}
use surveyforge.Schemas.Synthesis.{synthesizer_output_valid}
use surveyforge.Llm.Structured.{structured_call}
use surveyforge.Synthesis.Grounding.{
  validate_grounding, output_paper_ids, output_evidence_ids, check_paper_facts, belongs, check_row,
  check_cell, check_claim, check_coverage,
}
use surveyforge.Synthesis.Tokens.{packed_total_tokens, format_evidence_items, estimate_tokens, join}
use surveyforge.Agents.Deep.Fetch.{fetch_all, register_lookups, add_abstract}
use surveyforge.Agents.Deep.Store.{register_write, write_cards}
use surveyforge.State.{Note, SurveyState, make_initial_state}
use surveyforge.Synthesis.Node.{synthesizer_node, paper_map, prepare}
use surveyforge.Synthesis.Node.Budgeted.{Prepared, Keeps, prepare_lem}
use surveyforge.Synthesis.Node.Justified.{
  StateDone, synthesizer_node-StateDone, synthesizer_node_bounded,
}
use surveyforge.Agents.Wide.{record_section, note_of}
use surveyforge.Agents.Wide.Handoff.{Handed, record_section-Handed}
use surveyforge.Agents.Planner.{planner_node}
use surveyforge.Agents.Planner.Outline.{Planned, planner_node-Planned}
use surveyforge.Agents.Deep.{researcher_deep_node, user_message}
use surveyforge.Agents.Deep.Queue.{QueueDone, researcher_deep_node-QueueDone}
use surveyforge.Examples.Data.{
  plan, planner_deps, world, synthesizer_deps, outlined, grounded, deep_deps, queued, item, section,
}

abbrev synthesized : SurveyState
synthesized = record outlined { structured_extracts = ("s1", grounded) ∷ [] }

synthesizer_node_run : (synthesizer_node synthesizer_deps "run_1" outlined world).0 ≡ ok synthesized
unfolding synthesizer_node transaction update_stage find_run planner_section_valid list_by_section
    paper_id_valid check budget_per_role packed_total_tokens format_evidence_items structured_call
    synthesizer_output_valid validate_grounding subset output_paper_ids contains output_evidence_ids
    lookup insert paper_map same_set make_initial_state check_paper_facts belongs check_row
    check_cell check_claim check_coverage
synthesizer_node_run = refl

synthesizer_node-StateDone_example : StateDone synthesizer_deps "run_1" outlined world synthesized
synthesizer_node-StateDone_example =
    synthesizer_node-StateDone synthesizer_deps "run_1" outlined synthesized world
      synthesizer_node_run

abbrev deep_done : SurveyState
deep_done = record queued { deep_read_queue = "s2:9" ∷ [] }

researcher_deep_node_run :
    (researcher_deep_node deep_deps "run_1" queued
      (record world { db = record world.db { evidence_items = [] } })).0
    ≡ ok deep_done
unfolding researcher_deep_node transaction update_stage find_run planner_section_valid contains
    lookup insert fetch_all call register_write register register_lookups role_in add_abstract check
    budget_per_role user_message make_initial_state structured_call deep_output_valid paper_id_valid
    subset same_set keys write_cards save evidence_item_valid join update_rows
researcher_deep_node_run = refl

researcher_deep_node-QueueDone_example : QueueDone deep_deps "run_1" queued deep_done
researcher_deep_node-QueueDone_example =
    researcher_deep_node-QueueDone deep_deps "run_1" queued deep_done
      (record world { db = record world.db { evidence_items = [] } }) researcher_deep_node_run

synthesizer_node_bounded_example :
    let w' = (synthesizer_node synthesizer_deps "run_1" outlined world).1 in
    (w'.db.evidence_items ≡ world.db.evidence_items)
    × (w'.db.tool_calls ≡ world.db.tool_calls)
    × (w'.llm_calls ≤ world.llm_calls + 2 * length outlined.outline)
synthesizer_node_bounded_example = synthesizer_node_bounded synthesizer_deps "run_1" outlined world

prepare_lem_example :
    Prepared synthesizer_deps
      (estimate_tokens "Synthesize Speed")
      (item ∷ [])
      (prepare synthesizer_deps section (item ∷ []) world).0
    × Keeps 0 world (prepare synthesizer_deps section (item ∷ []) world).1
prepare_lem_example = prepare_lem synthesizer_deps section (item ∷ []) world

abbrev planned : SurveyState
planned = record (make_initial_state "graphs") { outline = plan.sections }

planner_node_run :
    (planner_node planner_deps "run_1" (make_initial_state "graphs") world).0 ≡ ok planned
unfolding planner_node transaction update_stage find_run structured_call planner_output_valid
    make_initial_state
planner_node_run = refl

planner_node-Planned_example : Planned planner_deps (make_initial_state "graphs") planned
planner_node-Planned_example =
    planner_node-Planned planner_deps "run_1" (make_initial_state "graphs") planned world
      planner_node_run

-- Four papers of one section, of which one is queued.
abbrev candidate : String → CandidatePaper
candidate pid = record {
  paper_id = pid;
  title = "T";
  source = s2;
  why_relevant = "fast";
  handoff_to_deep = true;
}

abbrev wide_output : ResearcherWideOutput
wide_output = record {
  section_id = "s1";
  query = "graphs";
  candidate_papers =
      candidate "s2:1" ∷ (candidate "s2:2" ∷ (candidate "s2:3" ∷ (candidate "s2:4" ∷ [])));
  notes = "";
}

abbrev noted : Dict (List Note) × List String
noted = (
  ("s1", map note_of wide_output.candidate_papers) ∷ [],
  "s2:1" ∷ ("s2:2" ∷ ("s2:3" ∷ ("s2:4" ∷ []))),
)

record_section_run : record_section "s1" (some wide_output) [] [] ("s2:1" ∷ []) ≡ ok noted
unfolding record_section insert contains
record_section_run = refl

record_section-Handed_example : Handed "s1" ([], "s2:1" ∷ []) noted
record_section-Handed_example =
    record_section-Handed "s1" (some wide_output) [] ([], "s2:1" ∷ []) noted record_section_run
