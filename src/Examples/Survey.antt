-- ===== src/Examples/Survey.antt =====
-- Wide research, the writer and the whole graph at concrete inputs.
use mathlib.Core.List.{append-nil, append_assoc}
use surveyforge.Base.{
  String, ◌*◌, length, Option, none, some, List, [], ◌∷◌, ◌++◌, map, ◌≡◌, sym, ap, ◌∙◌, refl, Dict,
  true, contains, lookup, insert, keys, subset, same_set,
}
use surveyforge.Roles.{researcher_wide, role_in}
use surveyforge.Runtime.Errors.{ok}
use surveyforge.Runtime.Json.{Json, str, null, obj, arr, cons, nil, field, end}
use surveyforge.Runtime.World.{World, transaction}
use surveyforge.Runtime.World.Ends.{Within}
use surveyforge.Runtime.Gateway.{ToolPolicy, Impl, call, register}
use surveyforge.Schemas.Planner.{planner_section_valid}
use surveyforge.Schemas.Research.{ResearcherWideOutput, wide_output_valid, s2}
use surveyforge.Runtime.Budget.{check, budget_per_role}
use surveyforge.Schemas.PaperId.{paper_id_valid}
use surveyforge.Llm.Model.{Llm, human}
use surveyforge.Runtime.Runs.{update_rows, update_stage, find_run, update_rows, note_error_category}
use surveyforge.State.{make_initial_state, SurveyState, Note}
use surveyforge.Agents.Wide.{note_of, record_section}
use surveyforge.Agents.Wide.React.{Deps, Outcome, react_one_section, completed, submit_tool}
use surveyforge.Agents.Wide.React.Turns.{QuietTools, Settled, react_one_section-Settled}
use surveyforge.Agents.Wide.Node.{researcher_wide_node}
use surveyforge.Agents.Wide.Node.Researched.{
  Researched, researcher_wide_node-Researched, researcher_wide_node_bounded,
}
use surveyforge.Writing.{write_node, draft, draft_lines}
use surveyforge.Writing.Drafts.{Complete, draft_lines-Complete, Written, write_node-Written}
use surveyforge.Schemas.Synthesis.{SynthesizerOutput, synthesizer_output_valid}
use surveyforge.Schemas.Planner.{planner_output_valid}
use surveyforge.Llm.Structured.{structured_call}
use surveyforge.Runtime.Evidence.{list_by_section, save, evidence_item_valid}
use surveyforge.Schemas.Research.{deep_output_valid}
use surveyforge.Synthesis.Grounding.{
  validate_grounding, output_paper_ids, output_evidence_ids, check_paper_facts, belongs, check_row,
  check_cell, check_claim, check_coverage,
}
use surveyforge.Synthesis.Tokens.{packed_total_tokens, format_evidence_items, join}
use surveyforge.Agents.Deep.Tending.{QuietLookups}
use surveyforge.Agents.Deep.Fetch.{fetch_all, register_lookups, add_abstract}
use surveyforge.Agents.Deep.Store.{register_write, write_cards}
use surveyforge.Synthesis.Node.{synthesizer_node, paper_map, empty_output_for_section}
use surveyforge.Agents.Planner.{planner_node}
use surveyforge.Agents.Deep.{researcher_deep_node, user_message}
use surveyforge.Graph.{
  StateGraph, Chain, in_turn, with_nodes, with_edges, start_node, RunsChains, Parts, Settings,
  build_graph, wired,
}
use surveyforge.Graph.Pipeline.{pipeline, invoke-pipeline, Surveyed, pipeline-Surveyed}
use surveyforge.Examples.Data.{
  world, section, outlined, policy, externals, plan, grounded, planner_deps, deep_deps,
  synthesizer_deps,
}

-- The answer to a prompt alone is a search; the next one submits what the prompt names.
abbrev wide_llm : Llm
wide_llm n (human sid ∷ []) = ok (record {
  content = "";
  tool_calls = record { name = "arxiv_search"; args = null; id = "c1" } ∷ [];
  usage_metadata = some (100, 10);
})
wide_llm n (human sid ∷ (m ∷ ms)) = ok (record {
  content = "";
  tool_calls = record { name = submit_tool; args = str sid; id = "c2" } ∷ [];
  usage_metadata = none;
})
wide_llm n _ = ok (record { content = ""; tool_calls = []; usage_metadata = none })

abbrev found : String → ResearcherWideOutput
found sid = record {
  section_id = sid;
  query = "graphs";
  candidate_papers =
      record {
        paper_id = "s2:1";
        title = "T";
        source = s2;
        why_relevant = "fast";
        handoff_to_deep = true;
      }
      ∷ [];
  notes = "";
}

abbrev search_result : Json
search_result =
    obj (field "papers" (arr (cons (obj (field "paper_id" (str "arxiv:1") end)) nil)) end)

abbrev search_impl : Impl
search_impl args w = (ok search_result, w)

abbrev search_policy : String → ToolPolicy
search_policy name = record (policy name) { allowed_roles = researcher_wide ∷ [] }

abbrev read_submitted : Json → Option ResearcherWideOutput
read_submitted (str sid) = some (found sid)
read_submitted _ = none

abbrev pub wide_deps : Deps
wide_deps = record {
  llm = wide_llm;
  template = λ s. s.section_id;
  loads = λ text. none;
  dumps = λ v. "{}";
  show_exc = λ e. "error";
  show_num = λ n. "1";
  show_text = λ s. s;
  decode = read_submitted;
  externals = externals;
  arxiv_policy = search_policy "arxiv_search";
  arxiv_impl = search_impl;
  s2_policy = search_policy "s2_lookup";
  s2_impl = search_impl;
  web_policy = search_policy "web_search";
  web_impl = search_impl;
}

pub wide-QuietTools : QuietTools wide_deps
wide-QuietTools = (λ args w. refl, λ args w. refl, λ args w. refl)

abbrev submitted : Outcome
submitted = completed (found "s1") ("arxiv:1" ∷ [])

react_one_section_run : (react_one_section wide_deps "run_1" section "s1" world).0 ≡ ok submitted
unfolding react_one_section check budget_per_role transaction call lookup register insert role_in
    wide_output_valid paper_id_valid contains
react_one_section_run = refl

react_one_section-Settled_example : Settled section submitted
react_one_section-Settled_example =
    react_one_section-Settled wide_deps "run_1" section "s1" world submitted wide-QuietTools
      react_one_section_run

abbrev researched : SurveyState
researched = record outlined {
  section_notes = ("s1", map note_of (found "s1").candidate_papers) ∷ [];
  deep_read_queue = "s2:1" ∷ [];
}

researcher_wide_node_run : (researcher_wide_node wide_deps "run_1" outlined world).0 ≡ ok researched
unfolding researcher_wide_node react_one_section check budget_per_role transaction call lookup
    register insert role_in wide_output_valid paper_id_valid contains update_stage find_run
    planner_section_valid record_section make_initial_state update_rows
researcher_wide_node_run = refl

researcher_wide_node-Researched_example : Researched outlined.outline outlined researched
researcher_wide_node-Researched_example =
    researcher_wide_node-Researched wide_deps "run_1" outlined researched world wide-QuietTools
      researcher_wide_node_run

researcher_wide_node_bounded_example :
    Within "run_1"
      (8 * length outlined.outline)
      world
      (researcher_wide_node wide_deps "run_1" outlined world).1
researcher_wide_node_bounded_example =
    researcher_wide_node_bounded wide_deps "run_1" outlined world wide-QuietTools

draft_lines-Complete_example : Complete grounded (draft_lines "Speed" (some grounded))
draft_lines-Complete_example = draft_lines-Complete "Speed" grounded

abbrev to_write : SurveyState
to_write = record outlined { structured_extracts = ("s1", grounded) ∷ [] }

abbrev drafted : SurveyState
drafted = record to_write {
  section_drafts = ("s1", draft to_write.structured_extracts section) ∷ [];
}

write_node_run : (write_node "run_1" to_write world).0 ≡ ok drafted
unfolding write_node transaction update_stage find_run insert make_initial_state
write_node_run = refl

write_node-Written_example : Written to_write drafted
write_node-Written_example = write_node-Written "run_1" to_write drafted world write_node_run

pub deep-QuietLookups : QuietLookups deep_deps
deep-QuietLookups = (λ args w. refl, λ args w. refl)

-- A library that keeps the nodes in order, and runs them so.
abbrev pub in_order : StateGraph
in_order = record {
  Graph = Chain;
  new_graph = [];
  add_node = λ name f g. g ++ ((name, f) ∷ []);
  add_edge = λ a b g. g;
  invoke = in_turn;
}

edges_lem : (start : String) (ns : Chain) (g : Chain) → with_edges in_order start ns g ≡ g
edges_lem start [] g = refl
edges_lem start ((name, f) ∷ ns) g = edges_lem name ns g

nodes_lem : (ns g : Chain) → with_nodes in_order ns g ≡ g ++ ns
nodes_lem [] g = sym (append-nil g)
nodes_lem ((name, f) ∷ ns) g =
    nodes_lem ns (g ++ ((name, f) ∷ [])) ∙ append_assoc g ((name, f) ∷ []) ns

pub in_order-RunsChains : RunsChains in_order
in_order-RunsChains ns run_id state w h =
    ap (λ g. in_turn g run_id state w)
      (edges_lem start_node ns (with_nodes in_order ns []) ∙ nodes_lem ns [])

abbrev pub parts : Parts
parts = record {
  planner = planner_deps;
  wide = wide_deps;
  deep = deep_deps;
  synthesizer = synthesizer_deps;
}

abbrev pub settings : Settings
settings = record {
  routing = ok tt;
  database_url = some "postgres";
  connect = λ url. ok tt;
  parts = ok parts;
}

build_graph_run : build_graph in_order settings ≡ ok (wired in_order parts)
unfolding build_graph
build_graph_run = refl

invoke-pipeline_example :
    in_turn (wired in_order parts) "run_1" outlined world ≡ pipeline parts "run_1" outlined world
invoke-pipeline_example =
    invoke-pipeline in_order settings (wired in_order parts) parts "run_1" outlined world
      in_order-RunsChains refl build_graph_run

abbrev begun : SurveyState
begun = make_initial_state "graphs"

abbrev no_evidence : World
no_evidence = record world { db = record world.db { evidence_items = [] } }

abbrev noted_for : String → String × List Note
noted_for sid = (sid, map note_of (found sid).candidate_papers)

abbrev extracts : Dict SynthesizerOutput
extracts =
    ("s1", grounded)
    ∷ (("s2", empty_output_for_section (record section { section_id = "s2" }))
        ∷ (("s3", empty_output_for_section (record section { section_id = "s3" })) ∷ []))

abbrev surveyed : SurveyState
surveyed = record begun {
  outline = plan.sections;
  section_notes = noted_for "s1" ∷ (noted_for "s2" ∷ (noted_for "s3" ∷ []));
  deep_read_queue = [];
  structured_extracts = extracts;
  section_drafts =
      ("s1", draft extracts section)
      ∷ (("s2", draft extracts (record section { section_id = "s2" }))
          ∷ (("s3", draft extracts (record section { section_id = "s3" })) ∷ []));
}

pipeline_run : (pipeline parts "run_1" begun no_evidence).0 ≡ ok surveyed
unfolding pipeline write_node researcher_wide_node react_one_section check budget_per_role
    transaction call lookup register insert role_in wide_output_valid paper_id_valid contains
    update_stage find_run planner_section_valid record_section make_initial_state planner_node
    structured_call planner_output_valid researcher_deep_node synthesizer_node list_by_section
    packed_total_tokens format_evidence_items synthesizer_output_valid validate_grounding subset
    output_paper_ids output_evidence_ids paper_map same_set check_paper_facts belongs check_row
    check_cell check_claim check_coverage fetch_all register_lookups add_abstract register_write
    write_cards save evidence_item_valid join keys user_message deep_output_valid
    empty_output_for_section update_rows note_error_category
pipeline_run = refl

pipeline-Surveyed_example :
    Surveyed parts "run_1" begun (pipeline parts "run_1" begun no_evidence).1 surveyed
pipeline-Surveyed_example =
    pipeline-Surveyed parts "run_1" begun surveyed no_evidence wide-QuietTools pipeline_run
