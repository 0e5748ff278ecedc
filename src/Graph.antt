-- ===== src/Graph.antt =====
-- src/litweave/graph.py: the graph of the five nodes, which the library langgraph runs. What langgraph
-- offers, the pool of connections and the factories of the nodes are arguments.
pub mod Pipeline
pub mod Tending
use surveyforge.Base.{
  Bool, true, false, not, ◌&&◌, String, ◌==◌, Option, none, some, List, [], ◌∷◌, map, contains, ◌≡◌,
  if◌then◌else◌,
}
use surveyforge.Runtime.Errors.{Result, ok, err, runtime_error}
use surveyforge.Runtime.World.{World, Exec, ◌>>=◌}
use surveyforge.State.{SurveyState}
use surveyforge.Agents.Planner.{planner_node}
use surveyforge.Agents.Planner as Planner
use surveyforge.Agents.Wide.React as Wide
use surveyforge.Agents.Wide.Node.{researcher_wide_node}
use surveyforge.Agents.Deep.{researcher_deep_node}
use surveyforge.Agents.Deep as Deep
use surveyforge.Synthesis.Node.{synthesizer_node}
use surveyforge.Synthesis.Node as Synthesizer
use surveyforge.Writing.{write_node}

-- A node, given the run's id, which is the thread's.
abbrev pub Node : Type 0
Node = String → SurveyState → Exec SurveyState

-- `StateGraph` of langgraph, and a compiled graph's `invoke`.
pub record StateGraph : Type 1 where
  pub Graph : Type 0
  pub new_graph : Graph
  pub add_node : String → Node → Graph → Graph
  pub add_edge : String → String → Graph → Graph
  pub invoke : Graph → Node

abbrev pub start_node : String
start_node = "__start__"

abbrev pub end_node : String
end_node = "__end__"

-- What each factory closes over.
pub record Parts : Type 0 where
  pub planner : Planner.Deps
  pub wide : Wide.Deps
  pub deep : Deep.Deps
  pub synthesizer : Synthesizer.Deps

-- `routing` is what loading the routing file gives, `connect` what opening the pool and setting up
-- the saver gives, `parts` what the factories give; each may be an exception.
pub record Settings : Type 0 where
  pub routing : Result (Unit {0})
  pub database_url : Option String
  pub connect : String → Result (Unit {0})
  pub parts : Result Parts

unfoldable pub make_postgres_checkpointer : Settings → Result (Unit {0})
make_postgres_checkpointer s = elim s.database_url [
  | none ↦ err (runtime_error "LITWEAVE_DATABASE_URL")
  | some url ↦ if url == "" then err (runtime_error "LITWEAVE_DATABASE_URL") else s.connect url
]

module _ (lib : StateGraph) where
  unfoldable pub wired : Parts → lib.Graph
  wired p =
      let g1 =
        lib.add_node "planner" (λ run_id state. planner_node p.planner run_id state)
          lib.new_graph in
      let g2 =
        lib.add_node "researcher_wide" (λ run_id state. researcher_wide_node p.wide run_id state)
          g1 in
      let g3 =
        lib.add_node "researcher_deep" (λ run_id state. researcher_deep_node p.deep run_id state)
          g2 in
      let g4 =
        lib.add_node "synthesize" (λ run_id state. synthesizer_node p.synthesizer run_id state)
          g3 in
      let g5 = lib.add_node "write" write_node g4 in
      let e1 = lib.add_edge start_node "planner" g5 in
      let e2 = lib.add_edge "planner" "researcher_wide" e1 in
      let e3 = lib.add_edge "researcher_wide" "researcher_deep" e2 in
      let e4 = lib.add_edge "researcher_deep" "synthesize" e3 in
      let e5 = lib.add_edge "synthesize" "write" e4 in lib.add_edge "write" end_node e5

  -- The checkpointer comes before the factories, and an exception of either ends it.
  unfoldable pub build_graph : Settings → Result lib.Graph
  unfolding wired make_postgres_checkpointer
  build_graph s = elim s.routing [
    | err e ↦ err e
    | ok r ↦ elim (make_postgres_checkpointer s) [
      | err e ↦ err e
      | ok c ↦ elim s.parts [ err e ↦ err e | ok parts ↦ ok (wired parts) ]
    ]
  ]

-- The nodes of a chain, added in order, and the edges between them.
abbrev pub Chain : Type 0
Chain = List (String × Node)

module _ (lib : StateGraph) where
  abbrev pub with_nodes : Chain → lib.Graph → lib.Graph
  with_nodes [] g = g
  with_nodes ((name, f) ∷ ns) g = with_nodes ns (lib.add_node name f g)

  abbrev pub with_edges : String → Chain → lib.Graph → lib.Graph
  with_edges from [] g = lib.add_edge from end_node g
  with_edges from ((name, f) ∷ ns) g = with_edges name ns (lib.add_edge from name g)

abbrev pub in_turn : Chain → Node
in_turn [] run_id state = λ w. (ok state, w)
in_turn ((name, f) ∷ ns) run_id state = f run_id state >>= λ state'. in_turn ns run_id state'

abbrev pub distinct : List String → Bool
distinct [] = true
distinct (name ∷ names) = not (contains names name) && distinct names

-- Documented behaviour of langgraph: of nodes with names of their own, along whose edges the graph
-- is a chain from start to end, each is run once, in the order of the edges.
abbrev pub RunsChains : StateGraph → Type 0
RunsChains lib =
    (ns : Chain) (run_id : String) (state : SurveyState) (w : World)
    → distinct (start_node ∷ (end_node ∷ map (λ (name, f). name) ns)) ≡ true
    → lib.invoke (with_edges lib start_node ns (with_nodes lib ns lib.new_graph)) run_id state w
      ≡ in_turn ns run_id state w
