-- ===== src/Schemas/Research.antt =====
-- src/litweave/schemas/research.py. A confidence is a whole number of millionths, so 1.0 is `conf_one`;
-- a negative one has no counterpart here.
use surveyforge.Base.{ℕ, Bool, ◌&&◌, String, List, Option, leb, all, starts_with}
use surveyforge.Schemas.PaperId.{paper_id_valid}

pub data Source : Type 0 where
  arxiv s2 web : Source

unfoldable pub source_prefix : Source → String
source_prefix arxiv = "arxiv:"
source_prefix s2 = "s2:"
source_prefix web = "web:"

pub record CandidatePaper : Type 0 where
  pub paper_id : String
  pub title : String
  pub source : Source
  pub why_relevant : String
  pub handoff_to_deep : Bool

-- The id's validator, then `_paper_id_prefix_matches_source`.
unfoldable pub candidate_valid : CandidatePaper → Bool
unfolding source_prefix
candidate_valid c = paper_id_valid c.paper_id && starts_with c.paper_id (source_prefix c.source)

pub record ResearcherWideOutput : Type 0 where
  pub section_id : String
  pub query : String
  pub candidate_papers : List CandidatePaper
  pub notes : String

unfoldable pub wide_output_valid : ResearcherWideOutput → Bool
unfolding candidate_valid
wide_output_valid o = all candidate_valid o.candidate_papers

abbrev pub conf_one : ℕ
conf_one = 1_000_000

pub record EvidenceCard : Type 0 where
  pub evidence_id : String
  pub paper_id : String
  pub section_id : String
  pub claim : String
  pub source_span : Option String
  pub confidence : ℕ

unfoldable pub card_valid : EvidenceCard → Bool
card_valid c = paper_id_valid c.paper_id && leb c.confidence conf_one

pub record ResearcherDeepOutput : Type 0 where
  pub section_id : String
  pub paper_ids_processed : List String
  pub evidence_cards : List EvidenceCard
  pub insufficient_evidence_paper_ids : List String

unfoldable pub deep_output_valid : ResearcherDeepOutput → Bool
unfolding card_valid
deep_output_valid o =
    all paper_id_valid o.paper_ids_processed
    && all card_valid o.evidence_cards
    && all paper_id_valid o.insufficient_evidence_paper_ids
