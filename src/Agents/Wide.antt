-- ===== src/Agents/Wide.antt =====
-- src/litweave/agents/researcher_wide.py: what the node does with the outcome of a section: its notes
-- and the queue for the deep researcher.
pub mod Handoff
pub mod Node
pub mod React
use text.Mathlib.Text.{is_le}
use Prim.Native.String.{compare}
use surveyforge.Base.{
  ℕ, zero, suc, Bool, true, false, not, ◌&&◌, String, Option, none, some, List, [], ◌∷◌, ◌++◌, map,
  take, contains, ltb, starts_with, Dict, insert, if◌then◌else◌,
}
use surveyforge.Runtime.Errors.{Result, ok, err, value_error}
use surveyforge.Schemas.Research.{CandidatePaper, ResearcherWideOutput, Source, arxiv, s2, web}
use surveyforge.State.{Note}

abbrev pub max_handoff : ℕ
max_handoff = 3

unfoldable pub source_from_prefix : String → Result Source
source_from_prefix pid =
    if starts_with pid "arxiv:"
    then ok arxiv
    else if starts_with pid "s2:"
    then ok s2
    else if starts_with pid "web:"
    then ok web
    else err (value_error pid)

-- A dumped candidate.
abbrev pub note_of : CandidatePaper → Note
note_of p = record {
  paper_id = p.paper_id;
  title = p.title;
  source = p.source;
  why_relevant = p.why_relevant;
  handoff_to_deep = p.handoff_to_deep;
  forced_exit_stub = false;
}

abbrev pub stub_of : String → Source → Note
stub_of pid source = record {
  paper_id = pid;
  title = "";
  source = source;
  why_relevant = "<forced-exit stub: not triaged by Wide>";
  handoff_to_deep = true;
  forced_exit_stub = true;
}

unfoldable pub stubs : List String → Result (List Note)
unfolding source_from_prefix
stubs [] = ok []
stubs (pid ∷ pids) = elim (source_from_prefix pid) [
  | err e ↦ err e
  | ok source ↦ elim (stubs pids) [ err e ↦ err e | ok notes ↦ ok (stub_of pid source ∷ notes) ]
]

-- `sorted` on texts, by insertion.
unfoldable pub insert_text : String → List String → List String
insert_text x [] = x ∷ []
insert_text x (y ∷ ys) = if is_le (compare x y) then x ∷ (y ∷ ys) else y ∷ insert_text x ys

unfoldable pub sorted : List String → List String
unfolding insert_text
sorted [] = []
sorted (x ∷ xs) = insert_text x (sorted xs)

-- The loop over the candidates; `n` counts those handed over in this section.
unfoldable pub hand_off : ℕ → List CandidatePaper → List String → List String
hand_off n [] queue = queue
hand_off n (p ∷ papers) queue =
    elim (p.handoff_to_deep && not (contains queue p.paper_id) && ltb n max_handoff) [
      | true ↦ hand_off (suc n) papers (queue ++ (p.paper_id ∷ []))
      | false ↦ hand_off n papers queue
    ]

-- The loop over the papers of a forced exit.
unfoldable pub hand_off_seen : List String → List String → List String
hand_off_seen [] queue = queue
hand_off_seen (pid ∷ pids) queue = elim (contains queue pid) [
  | true ↦ hand_off_seen pids queue
  | false ↦ hand_off_seen pids (queue ++ (pid ∷ []))
]

-- What follows the loop over turns: the notes and the queue, given the output, if there is one, and
-- the ids that were seen, which is a set.
unfoldable pub record_section :
    String
    → Option ResearcherWideOutput
    → List String
    → Dict (List Note)
    → List String
    → Result (Dict (List Note) × List String)
unfolding stubs sorted hand_off hand_off_seen
record_section sid (some o) seen notes queue =
    ok (insert sid (map note_of o.candidate_papers) notes, hand_off 0 o.candidate_papers queue)
record_section sid none seen notes queue = elim (stubs seen) [
  | err e ↦ err e
  | ok new ↦ ok (insert sid new notes, hand_off_seen (take max_handoff (sorted seen)) queue)
]
