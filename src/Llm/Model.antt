-- ===== src/Llm/Model.antt =====
-- A language model as the program sees it: what it answers to the messages of its n-th call, which
-- may be an exception. Nothing is known of the answers.
use surveyforge.Base.{ℕ, ◌+◌, String, Option, List}
use surveyforge.Runtime.Errors.{Result}
use surveyforge.Runtime.Json.{Json}
use surveyforge.Runtime.World.{Exec}

pub record ToolRequest : Type 0 where
  pub name : String
  pub args : Json
  pub id : String

pub record Response : Type 0 where
  pub content : String
  pub tool_calls : List ToolRequest
  pub usage_metadata : Option (ℕ × ℕ)

-- `schema_prompt` is the system message that dumps the schema.
pub data Message : Type 0 where
  human : String → Message
  schema_prompt : Message
  ai : Response → Message
  tool : String → String → Message

abbrev pub Llm : Type 0
Llm = ℕ → List Message → Result Response

unfoldable pub invoke : Llm → List Message → Exec Response
invoke llm messages w = (llm w.llm_calls messages, record w { llm_calls = w.llm_calls + 1 })
