-- ===== src/Examples/Data.antt =====
-- The data of the examples.
use surveyforge.Base.{ℕ, true, false, String, ◌<>◌, Option, none, some, [], ◌∷◌}
use surveyforge.Roles.{researcher_deep}
use surveyforge.Runtime.Errors.{ok}
use surveyforge.Runtime.Json.{Json, null, Fields, end, field, str}
use surveyforge.Runtime.World.{World, Run, EvidenceItem, untrusted_content}
use surveyforge.Runtime.Runs.{new_run}
use surveyforge.Runtime.Gateway.{Externals, ToolPolicy, Impl, ToolGateway, new_gateway, register}
use surveyforge.Schemas.Planner.{PlannerSection, PlannerOutput}
use surveyforge.Schemas.Research.{ResearcherDeepOutput, s2}
use surveyforge.Schemas.Synthesis.{SynthesizerOutput, default_taxonomy}
use surveyforge.Llm.Model.{Llm}
use surveyforge.Llm.Structured.{Parsers}
use surveyforge.State.{SurveyState, make_initial_state}
use surveyforge.Synthesis.Node as Synthesizer
use surveyforge.Agents.Planner as Planner
use surveyforge.Agents.Deep as Deep

abbrev pub empty_world : World
empty_world = record {
  db = record { runs = []; evidence_items = []; tool_calls = [] };
  clock = 7;
  now = 7;
  ids = 0;
  llm_calls = 0;
  usage = λ r. record { actual_input_tokens = 0; actual_output_tokens = 0; overflow_count = 0 };
}

abbrev pub item : EvidenceItem
item = record {
  evidence_id = "E-run_1-s1-0";
  run_id = "run_1";
  paper_id = "s2:1";
  section_id = "s1";
  claim = "it is faster";
  source_span = none;
  source_locator = none;
  confidence = 900_000;
  created_by = researcher_deep;
}

abbrev pub other_item : EvidenceItem
other_item = record item { evidence_id = "E-run_1-s1-1"; paper_id = "s2:2"; confidence = 100_000 }

abbrev pub run_1 : Run
run_1 = new_run "run_1" "graphs" "key" empty_world

-- A run, and its evidence.
abbrev pub world : World
world = record empty_world {
  db = record { runs = run_1 ∷ []; evidence_items = item ∷ []; tool_calls = [] };
}

abbrev pub section : PlannerSection
section = record {
  section_id = "s1";
  title = "Speed";
  research_questions = "what is fast?" ∷ ("why?" ∷ []);
  must_find_evidence = "a benchmark" ∷ [];
}

abbrev pub grounded : SynthesizerOutput
grounded = record {
  section_id = "s1";
  papers_cited = "s2:1" ∷ [];
  claims =
      record {
        evidence_id = "E-run_1-s1-0";
        paper_id = "s2:1";
        claim = "it is faster";
        confidence = 900_000;
      }
      ∷ [];
  paper_facts =
      record {
        paper_id = "s2:1";
        method = "m";
        dataset = "d";
        metric = "t";
        result = "r";
        evidence_ids = "E-run_1-s1-0" ∷ [];
      }
      ∷ [];
  comparison_matrix = record {
    dimensions = "method" ∷ [];
    rows =
        record {
          paper_id = "s2:1";
          cells = ("method", record { value = "m"; evidence_ids = "E-run_1-s1-0" ∷ [] }) ∷ [];
        }
        ∷ [];
  };
  taxonomy = default_taxonomy;
  cross_paper_synthesis = [];
  coverage_gaps = [];
}

abbrev pub answering : String → Llm
answering tool_name n messages = ok (record {
  content = "";
  tool_calls = record { name = tool_name; args = null; id = "c1" } ∷ [];
  usage_metadata = none;
})

abbrev pub no_parsers : Parsers
no_parsers = record { json_fence = λ text. none; bare_json = λ text. none; loads = λ text. none }

abbrev pub show_conf : ℕ → String
show_conf n = "0.90"

abbrev pub synthesizer_deps : Synthesizer.Deps
synthesizer_deps = record {
  llm = answering "synthesizer_output";
  parsers = no_parsers;
  validate = λ v. none;
  decode = λ v. some grounded;
  template = λ s. "Synthesize " <> s.title;
  supports_fc = true;
  show_conf = show_conf;
  repair_text = λ e. "repair";
  show_ids = λ ids. "ids";
}

abbrev pub outlined : SurveyState
outlined = record (make_initial_state "graphs") { outline = section ∷ [] }

-- A tool that doubles as each of the lookups.
abbrev pub policy : String → ToolPolicy
policy tool_name = record {
  tool_name = tool_name;
  tool_version = "0.1.0";
  allowed_roles = researcher_deep ∷ [];
  input_schema = λ args. some args;
  output_schema = λ v. some v;
  cache_ttl_seconds = some 60;
  idempotent = true;
  result_trust = untrusted_content;
  max_result_bytes = 1_000;
}

abbrev pub impl : Impl
impl args w = (ok (str "an abstract"), w)

abbrev pub externals : Externals
externals = record { digest = λ v. "digest"; encoded_len = λ v. 13; uuid = λ n. "1" }

abbrev pub gateway : ToolGateway
gateway = register (policy "s2_lookup") impl (new_gateway "run_1")

abbrev pub paper_args : Fields
paper_args = field "paper_id" (str "s2:1") end

abbrev pub read_abstract : Json → Option (Option (Option String))
read_abstract (str text) = some (some (some text))
read_abstract _ = none

abbrev pub deep_output : ResearcherDeepOutput
deep_output = record {
  section_id = "s1";
  paper_ids_processed = "s2:1" ∷ [];
  evidence_cards =
      record {
        evidence_id = "E1";
        paper_id = "s2:1";
        section_id = "s1";
        claim = "it is faster";
        source_span = none;
        confidence = 900_000;
      }
      ∷ [];
  insufficient_evidence_paper_ids = [];
}

abbrev pub deep_deps : Deep.Deps
deep_deps = record {
  llm = answering "researcher_deep_output";
  parsers = no_parsers;
  validate = λ v. none;
  decode = λ v. some deep_output;
  template = λ sid papers wanted. "Read for " <> sid;
  supports_fc = true;
  externals = externals;
  lookups = record {
    s2_policy = policy "s2_lookup";
    s2_impl = impl;
    s2_read = read_abstract;
    arxiv_policy = policy "arxiv_lookup";
    arxiv_impl = impl;
    arxiv_read = read_abstract;
  };
  schema = record {
    read_item = λ fs. some item;
    dump_item = λ i. field "evidence_id" (str i.evidence_id) end;
    write_output = λ v. some v;
    max_result_bytes = 1_000;
    show_num = λ n. "0";
  };
}

abbrev pub queued : SurveyState
queued = record outlined {
  section_notes =
      (
        "s1",
        record {
          paper_id = "s2:1";
          title = "T";
          source = s2;
          why_relevant = "fast";
          handoff_to_deep = true;
          forced_exit_stub = false;
        }
            ∷ [],
      )
      ∷ [];
  deep_read_queue = "s2:1" ∷ ("web:x" ∷ ("s2:9" ∷ []));
}

abbrev pub plan : PlannerOutput
plan = record {
  topic = "graphs";
  sections =
      section
      ∷ (record section { section_id = "s2" } ∷ (record section { section_id = "s3" } ∷ []));
  rationale = "it covers them";
}

abbrev pub planner_deps : Planner.Deps
planner_deps = record {
  llm = answering "planner_output";
  parsers = no_parsers;
  validate = λ v. none;
  decode = λ v. some plan;
  template = λ topic. "Plan " <> topic;
  supports_fc = true;
}
