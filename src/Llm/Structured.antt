-- ===== src/Llm/Structured.antt =====
-- src/litweave/llm/structured_output.py: `structured_call`. The two regular expressions, `json.loads` and
-- `jsonschema.validate` are arguments (`Parsers`); `validate v` is none, or why `v` is refused.
use surveyforge.Base.{
  ℕ, zero, suc, ◌+◌, ◌≤◌, Bool, String, ◌<>◌, ◌==◌, Option, none, some, List, [], ◌∷◌, ◌++◌, ◌≡◌,
  refl, ◌⊎◌, inl, inr, arith, if◌then◌else◌, sym, subst,
}
use surveyforge.Runtime.Errors.{Result, Result-cases, ok, err, Exc, structured_call_error}
use surveyforge.Runtime.Json.{Json}
use surveyforge.Runtime.World.{World, Exec, ◌>>=◌}
use surveyforge.Llm.Model.{Llm, Message, human, schema_prompt, Response, ToolRequest, invoke}

⊎-cases : {A B : Type 0} (s : A ⊎ B) → ((a : A) × (s ≡ inl a)) ⊎ ((b : B) × (s ≡ inr b))
⊎-cases (inl a) = inl (a, refl)
⊎-cases (inr b) = inr (b, refl)

pub record Parsers : Type 0 where
  pub json_fence : String → Option String
  pub bare_json : String → Option String
  pub loads : String → Option Json

module _ (ps : Parsers) where
  abbrev try_loads : Option String → Option Json
  try_loads none = none
  try_loads (some text) = ps.loads text

  abbrev or_else : Option Json → Option Json → Option Json
  or_else (some v) o = some v
  or_else none o = o

  unfoldable pub extract_json : String → Option Json
  extract_json text =
      if text == ""
      then none
      else or_else (try_loads (ps.json_fence text)) (try_loads (ps.bare_json text))

  -- The arguments of the first call of the bound tool.
  unfoldable pub first_call : String → List ToolRequest → Option Json
  first_call tool_name [] = none
  first_call tool_name (tc ∷ tcs) =
      if tc.name == tool_name then some tc.args else first_call tool_name tcs

  unfoldable pub candidate_of : Bool → String → Response → Option Json
  unfolding extract_json first_call
  candidate_of supports_fc tool_name resp =
      or_else (if supports_fc then first_call tool_name resp.tool_calls else none)
        (extract_json resp.content)

  module _ (llm : Llm) (validate : Json → Option String) (tool_name : String)
      (supports_fc : Bool) where
    -- A valid candidate, or why there is none.
    unfoldable pub judge : Response → Json ⊎ String
    unfolding candidate_of
    judge resp = elim (candidate_of supports_fc tool_name resp) [
      | none ↦ inr "no candidate JSON found"
      | some v ↦ elim (validate v) [ none ↦ inl v | some e ↦ inr ("schema invalid: " <> e) ]
    ]

    abbrev corrective : List Message → String → List Message
    corrective messages last_error =
        schema_prompt
        ∷ (messages
            ++ (human (
                  "Your previous reply was rejected ("
                  <> (last_error
                      <> "). Reply with ONLY a JSON object that conforms to the schema."))
                ∷ []))

    -- The loop, by the retries that are left.
    unfoldable pub attempts : List Message → ℕ → List Message → Exec Json
    unfolding judge invoke
    attempts messages zero current = do
      resp ← invoke llm current
      λ w. elim (judge resp) [ inl v ↦ (ok v, w) | inr e ↦ (err (structured_call_error e), w) ]
    attempts messages (suc retries) current = do
      resp ← invoke llm current
      λ w. elim (judge resp) [
        | inl v ↦ (ok v, w)
        | inr e ↦ attempts messages retries (corrective messages e) w
      ]

    unfoldable pub structured_call : List Message → ℕ → Exec Json
    unfolding attempts
    structured_call messages max_retries =
        attempts messages max_retries (if supports_fc then messages else schema_prompt ∷ messages)

    judge-valid : (resp : Response) (v : Json) → judge resp ≡ inl v → validate v ≡ none
    unfolding judge
    judge-valid resp v h = ground arith

    -- A value that the schema accepts; or an exception of the model, or one raised when every
    -- attempt has been made. One call of the model at least, `retries + 1` at most, and no other
    -- effect.
    abbrev pub Outcome : ℕ → World → Result Json × World → Type 0
    Outcome retries w out =
        (((v : Json) × (out.0 ≡ ok v) × (validate v ≡ none))
          ⊎ ((n : ℕ) × (messages : List Message) × (e : Exc) × (llm n messages ≡ err e)
              × (out.0 ≡ err e))
          ⊎ ((why : String) × (out.0 ≡ err (structured_call_error why))
              × (out.1.llm_calls ≡ w.llm_calls + retries + 1)))
        × (out.1 ≡ record w { llm_calls = out.1.llm_calls })
        × (w.llm_calls + 1 ≤ out.1.llm_calls)
        × (out.1.llm_calls ≤ w.llm_calls + retries + 1)

    module _ (messages current : List Message) (w : World) where
      abbrev next : World
      next = record w { llm_calls = w.llm_calls + 1 }

      attempts_raised :
          (retries : ℕ) (e : Exc)
          → llm w.llm_calls current ≡ err e
          → attempts messages retries current w ≡ (err e, next)
      unfolding attempts
      attempts_raised zero e h = ground arith
      attempts_raised (suc retries) e h = ground arith

      attempts_valid :
          (retries : ℕ) (resp : Response) (v : Json)
          → llm w.llm_calls current ≡ ok resp
          → judge resp ≡ inl v
          → attempts messages retries current w ≡ (ok v, next)
      unfolding attempts
      attempts_valid zero resp v h j = rw (h, attempts) (rw (j, attempts))
      attempts_valid (suc retries) resp v h j = rw (h, attempts) (rw (j, attempts))

      attempts_exhausted :
          (resp : Response) (why : String)
          → llm w.llm_calls current ≡ ok resp
          → judge resp ≡ inr why
          → attempts messages zero current w ≡ (err (structured_call_error why), next)
      unfolding attempts
      attempts_exhausted resp why h j = rw (h, attempts) (rw (j, attempts))

      attempts_again :
          (retries : ℕ) (resp : Response) (why : String)
          → llm w.llm_calls current ≡ ok resp
          → judge resp ≡ inr why
          → attempts messages (suc retries) current w
            ≡ attempts messages retries (corrective messages why) next
      unfolding attempts
      attempts_again retries resp why h j = rw (h, attempts) (rw (j, attempts))

    Outcome-suc :
        (retries : ℕ) (w : World) (out : Result Json × World)
        → Outcome retries (record w { llm_calls = w.llm_calls + 1 }) out
        → Outcome (suc retries) w out
    Outcome-suc retries w (r, w') (a, b, c, d) = (result a, b, omega arith, omega arith)
      where
        result :
            (((v : Json) × (r ≡ ok v) × (validate v ≡ none))
              ⊎ ((n : ℕ) × (messages : List Message) × (e : Exc) × (llm n messages ≡ err e)
                  × (r ≡ err e))
              ⊎ ((why : String) × (r ≡ err (structured_call_error why))
                  × (w'.llm_calls ≡ w.llm_calls + 1 + retries + 1)))
            → (((v : Json) × (r ≡ ok v) × (validate v ≡ none))
                ⊎ ((n : ℕ) × (messages : List Message) × (e : Exc) × (llm n messages ≡ err e)
                    × (r ≡ err e))
                ⊎ ((why : String) × (r ≡ err (structured_call_error why))
                    × (w'.llm_calls ≡ w.llm_calls + suc retries + 1)))
        result (inl x) = inl x
        result (inr (inl x)) = inr (inl x)
        result (inr (inr (why, e, n))) = inr (inr (why, e, omega arith))

    attempts-Outcome :
        (messages : List Message) (retries : ℕ) (current : List Message) (w : World)
        → Outcome retries w (attempts messages retries current w)
    attempts-Outcome messages zero current w = elim (Result-cases (llm w.llm_calls current)) [
      | inr (e, h) ↦
          subst (Outcome zero w) (sym (attempts_raised messages current w zero e h))
            (inr (inl (w.llm_calls, current, e, h, refl)), refl, omega arith, omega arith)
      | inl (resp, h) ↦ elim (⊎-cases (judge resp)) [
        | inl (v, j) ↦
            subst (Outcome zero w) (sym (attempts_valid messages current w zero resp v h j))
              (inl (v, refl, judge-valid resp v j), refl, omega arith, omega arith)
        | inr (why, j) ↦
            subst (Outcome zero w) (sym (attempts_exhausted messages current w resp why h j))
              (inr (inr (why, refl, omega arith)), refl, omega arith, omega arith)
      ]
    ]
    attempts-Outcome messages (suc retries) current w =
        elim (Result-cases (llm w.llm_calls current)) [
          | inr (e, h) ↦
              subst (Outcome (suc retries) w)
                (sym (attempts_raised messages current w (suc retries) e h))
                (inr (inl (w.llm_calls, current, e, h, refl)), refl, omega arith, omega arith)
          | inl (resp, h) ↦ elim (⊎-cases (judge resp)) [
            | inl (v, j) ↦
                subst (Outcome (suc retries) w)
                  (sym (attempts_valid messages current w (suc retries) resp v h j))
                  (inl (v, refl, judge-valid resp v j), refl, omega arith, omega arith)
            | inr (why, j) ↦
                subst (Outcome (suc retries) w)
                  (sym (attempts_again messages current w retries resp why h j))
                  (Outcome-suc retries w _ (
                    attempts-Outcome messages retries (corrective messages why)
                      (record w { llm_calls = w.llm_calls + 1 })))
          ]
        ]

    -- A structured call returns a value that the schema accepts, or passes on an exception of the
    -- model, or raises `StructuredCallError` after exactly `max_retries + 1` calls of the model; it
    -- calls the model once at least and `max_retries + 1` times at most, and changes nothing else.
    pub structured_call-Outcome :
        (messages : List Message) (max_retries : ℕ) (w : World)
        → Outcome max_retries w (structured_call messages max_retries w)
    unfolding structured_call
    structured_call-Outcome messages max_retries w = attempts-Outcome messages max_retries _ w
