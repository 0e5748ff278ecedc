-- ===== src/Agents/Wide/React.antt =====
-- The loop over the model's turns for one section: `_react_one_section` of
-- src/litweave/agents/researcher_wide.py, with the tools it calls and what it reads from their results.
pub mod Turns
use surveyforge.Base.{
  ℕ, zero, suc, ◌+◌, Bool, true, false, String, ◌<>◌, ◌==◌, Option, none, some, List, [], ◌∷◌, ◌++◌,
  ◌⊎◌, inl, inr, contains, if◌then◌else◌,
}
use surveyforge.Roles.{AgentRole, researcher_wide}
use surveyforge.Runtime.Errors.{Result, ok, err, Exc, value_error, validation_error}
use surveyforge.Runtime.Json.{Json, Items, nil, cons, Fields, end, obj, arr, str, get_key}
use surveyforge.Runtime.World.{
  World, Exec, Trust, trusted_internal, untrusted_content, transaction, ◌>>=◌,
}
use surveyforge.Runtime.Budget.{BudgetSpec, check, record_usage}
use surveyforge.Runtime.Gateway.{
  Externals, ToolGateway, ToolPolicy, ToolResult, Impl, new_gateway, register, call,
}
use surveyforge.Runtime.Trust.{wrap_untrusted}
use surveyforge.Schemas.Planner.{PlannerSection}
use surveyforge.Schemas.Research.{ResearcherWideOutput, wide_output_valid}
use surveyforge.Llm.Model.{Llm, Message, human, ai, tool, Response, ToolRequest, invoke}

-- What the node is given: the model, the prompt; `json.loads`, `json.dumps`, the texts of exceptions,
-- of numbers, and of quoted texts; the reading of a `ResearcherWideOutput`; the gateway's externals; the search tools.
pub record Deps : Type 0 where
  pub llm : Llm
  pub template : PlannerSection → String
  pub loads : String → Option Json
  pub dumps : Json → String
  pub show_exc : Exc → String
  pub show_num : ℕ → String
  pub show_text : String → String
  pub decode : Json → Option ResearcherWideOutput
  pub externals : Externals
  pub arxiv_policy : ToolPolicy
  pub arxiv_impl : Impl
  pub s2_policy : ToolPolicy
  pub s2_impl : Impl
  pub web_policy : ToolPolicy
  pub web_impl : Impl

abbrev pub max_turns : ℕ
max_turns = 8

abbrev pub submit_tool : String
submit_tool = "submit_results"

abbrev pub submit_policy : ToolPolicy
submit_policy = record {
  tool_name = submit_tool;
  tool_version = "0.1.0";
  allowed_roles = researcher_wide ∷ [];
  input_schema = λ args. some args;
  output_schema = λ v. some v;
  cache_ttl_seconds = none;
  idempotent = false;
  result_trust = trusted_internal;
  max_result_bytes = 5_000_000;
}

abbrev pub echo : Impl
echo args w = (ok (obj args), w)

unfoldable pub register_wide_tools : Deps → ToolGateway → ToolGateway
register_wide_tools d gw = register submit_policy echo (
    register d.web_policy d.web_impl
      (register d.s2_policy d.s2_impl (register d.arxiv_policy d.arxiv_impl gw)))

-- `{p["paper_id"]}` if it is there and not empty.
unfoldable pub id_of : Json → List String
unfolding get_key
id_of v = elim (get_key "paper_id" v) [
  | some (str pid) ↦ if pid == "" then [] else pid ∷ []
  | _ ↦ []
]

unfoldable pub ids_of_items : Items → List String
unfolding id_of
ids_of_items nil = []
ids_of_items (cons v vs) = id_of v ++ ids_of_items vs

-- `output.get(key, [])`
unfoldable pub ids_under : String → Json → List String
unfolding ids_of_items get_key
ids_under key v = elim (get_key key v) [ some (arr items) ↦ ids_of_items items | _ ↦ [] ]

unfoldable pub paper_ids_of_result : String → Json → Result (List String)
unfolding ids_under get_key id_of
paper_ids_of_result tool_name v =
    if tool_name == "arxiv_search"
    then ok (ids_under "papers" v)
    else if tool_name == "s2_lookup"
    then elim (get_key "paper" v) [ some p ↦ ok (id_of p) | none ↦ ok [] ]
    else if tool_name == "web_search"
    then ok (ids_under "results" v)
    else err (value_error tool_name)

-- `seen |= ids`
unfoldable pub union : List String → List String → List String
union seen [] = seen
union seen (pid ∷ pids) = union (if contains seen pid then seen else seen ++ (pid ∷ [])) pids

-- What the loop carries from turn to turn.
pub record Talk : Type 0 where
  pub messages : List Message
  pub total_input_tokens : ℕ
  pub seen : List String
  pub had_mismatch : Bool

pub record Outcome : Type 0 where
  pub output : Option ResearcherWideOutput
  pub error_category : Option String
  pub seen : List String

abbrev pub completed : ResearcherWideOutput → List String → Outcome
completed o seen = record { output = some o; error_category = none; seen = seen }

abbrev pub forced : String → List String → Outcome
forced category seen = record { output = none; error_category = some category; seen = seen }

abbrev pub say : Message → Talk → Talk
say m talk = record talk { messages = talk.messages ++ (m ∷ []) }

-- `**args` of a call; the library hands over a dict.
abbrev pub fields_of : Json → Fields
fields_of (obj fs) = fs
fields_of _ = end

-- `try: m; except Exception`
abbrev pub captured : {A : Type 0} → Exec A → Exec (Result A)
captured m w = (ok (m w).0, (m w).1)

module _ (d : Deps) (run_id : String) (section : PlannerSection) where
  -- `model_validate` of an output.
  unfoldable pub read_output : Json → Option ResearcherWideOutput
  read_output v = elim (d.decode v) [
    | none ↦ none
    | some o ↦ if wide_output_valid o then some o else none
  ]

  unfoldable pub on_submit : ToolRequest → Talk → Outcome ⊎ Talk
  unfolding read_output
  on_submit tc talk = elim (read_output tc.args) [
    | none ↦ inr (say (tool ("submit_results invalid: " <> d.show_exc validation_error) tc.id) talk)
    | some o ↦
        if o.section_id == section.section_id
        then inl (completed o talk.seen)
        else inr (
            say
              (tool
                ("submit_results section_id mismatch: got "
                  <> (d.show_text o.section_id
                      <> (", expected "
                          <> (d.show_text section.section_id
                              <> (". Re-call submit_results with section_id="
                                  <> (d.show_text section.section_id <> "."))))))
                tc.id)
              (record talk { had_mismatch = true }))
  ]

  -- What the model is shown of a result.
  unfoldable pub content_of : ℕ → String → ToolResult → String
  unfolding wrap_untrusted
  content_of turn tool_name r = elim r.result_trust [
    | trusted_internal ↦ d.dumps r.output
    | untrusted_content ↦
        wrap_untrusted (d.dumps r.output) tool_name
          ("E-wide-" <> (section.section_id <> ("-T" <> d.show_num turn)))
  ]

  unfoldable pub after_tool :
      ℕ → ToolRequest → Talk → Result (Result ToolResult) × World → Result Talk × World
  unfolding content_of paper_ids_of_result union
  after_tool turn tc talk (err e, w) = (err e, w)
  after_tool turn tc talk (ok (err e), w) =
      (ok (say (tool ("tool error: " <> d.show_exc e) tc.id) talk), w)
  after_tool turn tc talk (ok (ok r), w) = elim (paper_ids_of_result tc.name r.output) [
    | err e ↦ (err e, w)
    | ok ids ↦ (
      ok (
          say (tool (content_of turn tc.name r) tc.id)
            (record talk { seen = union talk.seen ids })),
      w,
    )
  ]

  -- One call of a real tool, in its transaction, which an exception of the tool does not leave.
  unfoldable pub on_tool : ℕ → ToolRequest → Talk → Exec Talk
  unfolding after_tool register_wide_tools
  on_tool turn tc talk w = after_tool turn tc talk (
      transaction
        (captured (
          call d.externals (register_wide_tools d (new_gateway run_id)) researcher_wide tc.name
            (fields_of tc.args)))
        w)

  -- The calls of one answer, in order; a valid submission ends the section.
  unfoldable pub calls_loop : ℕ → List ToolRequest → Talk → Exec (Outcome ⊎ Talk)
  unfolding on_submit on_tool
  calls_loop turn [] talk = λ w. (ok (inr talk), w)
  calls_loop turn (tc ∷ tcs) talk = elim (tc.name == submit_tool) [
    | true ↦ elim (on_submit tc talk) [
      | inl o ↦ λ w. (ok (inl o), w)
      | inr talk' ↦ calls_loop turn tcs talk'
    ]
    | false ↦ on_tool turn tc talk >>= λ talk'. calls_loop turn tcs talk'
  ]

  -- An answer without calls: its content may be the output.
  unfoldable pub from_content : Response → Talk → Outcome
  unfolding read_output
  from_content resp talk = elim (if resp.content == "" then none else d.loads resp.content) [
    | none ↦ forced "context_overflow" talk.seen
    | some v ↦ elim (read_output v) [
      | none ↦ forced "context_overflow" talk.seen
      | some o ↦
          if o.section_id == section.section_id
          then completed o talk.seen
          else forced "schema_invalid" talk.seen
    ]
  ]

  abbrev pub count_usage : Response → Talk → Talk
  count_usage resp talk = elim resp.usage_metadata [
    | none ↦ talk
    | some (input, output) ↦ record talk { total_input_tokens = talk.total_input_tokens + input }
  ]

  abbrev pub note_usage : Response → World → World
  note_usage resp w = elim resp.usage_metadata [
    | none ↦ w
    | some (input, output) ↦ record_usage researcher_wide input output w
  ]

  unfoldable pub after_answer : ℕ → Talk → Response → Exec (Outcome ⊎ Talk)
  unfolding from_content calls_loop record_usage
  after_answer turn talk resp w =
      let heard = say (ai resp) (count_usage resp talk) in
      elim resp.tool_calls [
        | [] ↦ (ok (inl (from_content resp heard)), note_usage resp w)
        | tc ∷ tcs ↦ calls_loop turn (tc ∷ tcs) heard (note_usage resp w)
      ]

  unfoldable pub after_check :
      ℕ → Talk → Result BudgetSpec × World → Result (Outcome ⊎ Talk) × World
  unfolding after_answer invoke
  after_check turn talk (err e, w) = (ok (inl (forced "context_overflow" talk.seen)), w)
  after_check turn talk (ok spec, w) = (invoke d.llm talk.messages >>= after_answer turn talk) w

  unfoldable pub one_turn : ℕ → Talk → Exec (Outcome ⊎ Talk)
  unfolding after_check
  one_turn turn talk w = after_check turn talk (check researcher_wide talk.total_input_tokens w)

  -- The loop, by the turns that are left; `turn` counts from 1.
  unfoldable pub turns : ℕ → ℕ → Talk → Exec Outcome
  unfolding one_turn
  turns zero turn talk = λ w. (
    ok (forced (if talk.had_mismatch then "schema_invalid" else "context_overflow") talk.seen),
    w,
  )
  turns (suc left) turn talk = one_turn turn talk >>= λ s. elim s [
    | inl o ↦ λ w. (ok o, w)
    | inr talk' ↦ turns left (suc turn) talk'
  ]

  unfoldable pub react_one_section : String → Exec Outcome
  unfolding turns
  react_one_section user_message = turns max_turns 1 (record {
    messages = human user_message ∷ [];
    total_input_tokens = 0;
    seen = [];
    had_mismatch = false;
  })
