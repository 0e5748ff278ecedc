-- ===== src/Runtime/Trust.antt =====
-- src/litweave/runtime/trust.py: `wrap_untrusted`, which labels content from outside. `html.escape` is
-- Python's.
use Prim.Native.Char.{code}
use surveyforge.Base.{ℕ, Bool, true, false, ◌&&◌, String, ◌<>◌, eqb, if◌then◌else◌}

-- What `html.escape` writes for a character; quotes are escaped on demand.
unfoldable pub escape_char : Bool → ℕ → String → String
escape_char quote c self =
    if eqb c 38
    then "&amp;"
    else if eqb c 60
    then "&lt;"
    else if eqb c 62
    then "&gt;"
    else if quote && eqb c 34
    then "&quot;"
    else if quote && eqb c 39
    then "&#x27;"
    else self

unfoldable pub html_escape : Bool → String → String
unfolding escape_char
html_escape quote String.[] = ""
html_escape quote (String.◌∷◌ c s) =
    escape_char quote (code c) (String.◌∷◌ c String.[]) <> html_escape quote s

unfoldable pub wrap_untrusted : String → String → String → String
unfolding html_escape
wrap_untrusted content source_tool evidence_id =
    "<evidence_pack><evidence id=\""
    <> (html_escape true evidence_id
        <> ("\" trust=\"untrusted_content\" source_tool=\""
            <> (html_escape true source_tool
                <> ("\">" <> (html_escape false content <> "</evidence></evidence_pack>")))))
