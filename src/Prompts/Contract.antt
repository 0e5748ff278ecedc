-- ===== src/Prompts/Contract.antt =====
-- What a template that the registry gives has been checked for.
use surveyforge.Base.{
  ◌≡◌, refl, ap, ◌∙◌, sym, subst, inl, inr, Bool, ◌<>◌, true, false, not, Bool-cases, Option-cases,
  some, String, ◌==◌, eq_iff, List, [], ◌∷◌, none, all, is_empty, contains, arith, lookup, insert,
  lookup-insert, lookup-insert_self,
}
use surveyforge.Roles.{AgentRole, role_value}
use surveyforge.Runtime.Errors.{Result, ok, err}
use surveyforge.Runtime.Json.{Json, Fields, str, arr, obj, null, bool, num}
use surveyforge.Runtime.Json.Access.{then_read}
use surveyforge.Prompts.{
  Site, PromptTemplate, Registry, schema_names, placeholder_markers, or_refuse, text_in, is_known,
  is_hashable, read_schema, tools_known, braces_valid, has_rules, check_body, make_template,
  check_meta, read_prompt, keep_template, load, value_at, elements, read_completion, fill_includes,
  split_front_matter,
}

or_refuse-ok {ℓ} :
    {A : Type ℓ} (b : Bool) (r : Result A) (a : A) → or_refuse b r ≡ ok a → (b ≡ true) × (r ≡ ok a)
unfolding or_refuse
or_refuse-ok true r a h = (refl, h)
or_refuse-ok false r a h = absurd (cc)

then_read-ok {ℓ} :
    {A B : Type ℓ} (r : Result A) (f : A → Result B) (b : B)
    → then_read r f ≡ ok b
    → (a : A) × (r ≡ ok a) × (f a ≡ ok b)
then_read-ok (ok a) f b h = (a, refl, h)
then_read-ok (err e) f b h = absurd (cc)

module _ (s : Site) where
  -- No marker, no include, only identifiers between braces, and the rules where the role cites.
  abbrev pub CleanBody : AgentRole → String → Type 0
  CleanBody role body =
      (all (λ marker. not (text_in marker body)) placeholder_markers ≡ true)
      × (is_empty (s.includes body) ≡ true)
      × (braces_valid s body ≡ true)
      × (has_rules s role body ≡ true)

  abbrev pub Honours : String → PromptTemplate → Type 0
  Honours name t =
      (role_value t.role ≡ name)
      × (contains schema_names t.schema_name ≡ true)
      × (all is_known t.allowed_tools ≡ true)
      × CleanBody t.role t.body

  check_body-CleanBody :
      (role : AgentRole) (body checked : String)
      → check_body s role body ≡ ok checked
      → CleanBody role checked
  unfolding check_body
  check_body-CleanBody role body checked h =
      let (no_marker, h1) =
        or_refuse-ok (all (λ marker. not (text_in marker body)) placeholder_markers) _ checked h in
      let (no_include, h2) = or_refuse-ok (is_empty (s.includes body)) _ checked h1 in
      let (braces, h3) = or_refuse-ok (braces_valid s body) _ checked h2 in
      let (rules, h4) = or_refuse-ok (has_rules s role body) (ok body) checked h3 in
      let same : body ≡ checked = ground arith in
      subst (CleanBody role) same (no_marker, no_include, braces, rules)

  read_schema-Known :
      (v : Json) (name : String) → read_schema v ≡ ok name → contains schema_names name ≡ true
  unfolding read_schema
  read_schema-Known (str text) name h =
      let (known, same) = or_refuse-ok (contains schema_names text) (ok text) name h in
      let same' : text ≡ name = ground arith in
      subst (λ x. contains schema_names x ≡ true) same' known
  read_schema-Known null name h = absurd (cc)
  read_schema-Known (bool b) name h = absurd (cc)
  read_schema-Known (num n) name h = absurd (cc)
  read_schema-Known (arr vs) name h = absurd (cc)
  read_schema-Known (obj fs) name h = absurd (cc)

  tools_known-Known :
      (tools known : List Json) → tools_known s tools ≡ ok known → all is_known known ≡ true
  unfolding tools_known
  tools_known-Known tools known h = elim (Bool-cases (all is_hashable tools)) [
    | inr e ↦ absurd (ground arith)
    | inl e ↦
        let got : tools_known s tools ≡ or_refuse (all is_known tools) (ok tools) =
          rw (e, tools_known) refl in
        let (fine, same) = or_refuse-ok (all is_known tools) (ok tools) known (sym got ∙ h) in
        let same' : tools ≡ known = ground arith in subst (λ x. all is_known x ≡ true) same' fine
  ]

  make_template-Honours :
      (role : AgentRole) (meta : Fields) (body : String) (t : PromptTemplate)
      → make_template s role meta body ≡ ok t
      → Honours (role_value role) t
  unfolding make_template
  make_template-Honours role meta body t h =
      let (name, schema, h1) = then_read-ok (read_schema (value_at meta "schema")) _ t h in
      let (items, listed, h2) = then_read-ok (elements s (value_at meta "allowed_tools")) _ t h1 in
      let (tools, known, h3) = then_read-ok (tools_known s items) _ t h2 in
      let (completion, read, h4) =
        then_read-ok (read_completion (value_at meta "completion_tools")) _ t h3 in
      let (filled, fill, h5) = then_read-ok (fill_includes s (s.includes body) body) _ t h4 in
      let (checked, clean, h6) = then_read-ok (check_body s role filled) _ t h5 in
      let (forbidden, listed', h7) = then_read-ok (elements s (value_at meta "forbidden")) _ t h6 in
      let made : PromptTemplate = record {
        role = role;
        version = value_at meta "version";
        schema_name = name;
        allowed_tools = tools;
        forbidden = forbidden;
        completion_tools = completion;
        body = checked;
      } in
      let same : made ≡ t = ground arith in
      subst (Honours (role_value role)) same (
        refl,
        read_schema-Known (value_at meta "schema") name schema,
        tools_known-Known items tools known,
        check_body-CleanBody role filled checked clean,
      )

  check_meta-Honours :
      (role : AgentRole) (meta : Fields) (body : String) (t : PromptTemplate)
      → check_meta s role meta body ≡ ok t
      → Honours (role_value role) t
  unfolding check_meta
  check_meta-Honours role meta body t h =
      let (required, h1) = or_refuse-ok _ _ t h in
      let (fits, h2) = or_refuse-ok _ (make_template s role meta body) t h1 in
      make_template-Honours role meta body t h2

  read_prompt-Honours :
      (role : AgentRole) (t : PromptTemplate)
      → read_prompt s role ≡ ok t
      → Honours (role_value role) t
  unfolding read_prompt
  read_prompt-Honours role t h = elim (Option-cases (s.read_file (role_value role <> ".md"))) [
    | inl e ↦ absurd (ground arith)
    | inr (text, e) ↦
        let got : read_prompt s role
            ≡ then_read (split_front_matter text) (λ parts.
              then_read (s.safe_load parts.0) (λ meta. check_meta s role meta parts.1)) =
          rw (e, read_prompt) refl in
        let (parts, split, h1) = then_read-ok (split_front_matter text) _ t (sym got ∙ h) in
        let (meta, loaded, h2) = then_read-ok (s.safe_load parts.0) _ t h1 in
        check_meta-Honours role meta parts.1 t h2
  ]

  abbrev pub AllHonoured : Registry → Type 0
  AllHonoured r =
      (name : String) (t : PromptTemplate) → lookup name r.cache ≡ some t → Honours name t

  keep_template-Honoured :
      (role : AgentRole) (r : Registry) (res : Result PromptTemplate) (t : PromptTemplate)
      → AllHonoured r
      → ((t' : PromptTemplate) → res ≡ ok t' → Honours (role_value role) t')
      → (keep_template role r res).0 ≡ ok t
      → Honours (role_value role) t
        × AllHonoured (keep_template role r res).1
        × (lookup (role_value role) (keep_template role r res).1.cache ≡ some t)
  unfolding keep_template
  keep_template-Honoured role r (err e) t good new h = absurd (cc)
  keep_template-Honoured role r (ok t') t good new h =
      let same : t' ≡ t = ground arith in
      (
        subst (Honours (role_value role)) same (new t' refl),
        put,
        lookup-insert_self (role_value role) t' r.cache ∙ ap some same,
      )
    where
      put :
          (name : String) (x : PromptTemplate)
          → lookup name (insert (role_value role) t' r.cache) ≡ some x
          → Honours name x
      put name x e = elim (Bool-cases (role_value role == name)) [
        | inl b ↦
            let same : t' ≡ x = ground (arith, lookup-insert (role_value role) name t' r.cache) in
            let named : role_value role ≡ name = ground (arith, eq_iff (role_value role) name) in
            subst (λ n. Honours n x) named (subst (Honours (role_value role)) same (new t' refl))
        | inr b ↦ good name x (ground (arith, lookup-insert (role_value role) name t' r.cache))
      ]

-- Loads one after the other, of any roles, with the files and readings of each.
abbrev pub loads : List (Site × AgentRole) → Registry → Registry
loads [] r = r
loads ((s, role) ∷ rest) r = loads rest (load s role r).1

keep_template-Keeps :
    (name : String) (t : PromptTemplate) (other : AgentRole) (r : Registry)
    (res : Result PromptTemplate)
    → lookup (role_value other) r.cache ≡ none
    → lookup name r.cache ≡ some t
    → lookup name (keep_template other r res).1.cache ≡ some t
unfolding keep_template
keep_template-Keeps name t other r (err e) fresh h = h
keep_template-Keeps name t other r (ok t') fresh h = elim (Bool-cases (role_value other == name)) [
  | inl same ↦ absurd (cc (ap (λ k. lookup k r.cache) ((eq_iff (role_value other) name).0 same)))
  | inr f ↦ ground (arith, lookup-insert (role_value other) name t' r.cache)
]

loads-Keeps :
    (name : String) (t : PromptTemplate) (ls : List (Site × AgentRole)) (r : Registry)
    → lookup name r.cache ≡ some t
    → lookup name (loads ls r).cache ≡ some t
unfolding load
loads-Keeps name t [] r h = h
loads-Keeps name t ((s, other) ∷ ls) r h =
    loads-Keeps name t ls (load s other r).1
      (elim (Option-cases (lookup (role_value other) r.cache)) [
        | inr (t', e) ↦
            let got : load s other r ≡ (ok t', r) = rw (e, load) refl in
            subst (λ x. lookup name x.1.cache ≡ some t) (sym got) h
        | inl e ↦
            let got : load s other r ≡ keep_template other r (read_prompt s other) =
              rw (e, load) refl in
            subst (λ x. lookup name x.1.cache ≡ some t) (sym got)
              (keep_template-Keeps name t other r (read_prompt s other) e h)
      ])

module _ (s : Site) (role : AgentRole) (r : Registry) (t : PromptTemplate) where
  load-Kept :
      AllHonoured s r
      → (load s role r).0 ≡ ok t
      → Honours s (role_value role) t
        × AllHonoured s (load s role r).1
        × (lookup (role_value role) (load s role r).1.cache ≡ some t)
  unfolding load
  load-Kept good h = elim (Option-cases (lookup (role_value role) r.cache)) [
    | inr (t', e) ↦
        let got : load s role r ≡ (ok t', r) = rw (e, load) refl in
        let same : t' ≡ t = ground arith in
        subst
          (λ x.
            Honours s (role_value role) t
            × AllHonoured s x.1
            × (lookup (role_value role) x.1.cache ≡ some t))
          (sym got)
          (
            subst (Honours s (role_value role)) same (good (role_value role) t' e),
            good,
            e ∙ ap some same,
          )
    | inl e ↦
        let got : load s role r ≡ keep_template role r (read_prompt s role) = rw (e, load) refl in
        subst
          (λ x.
            Honours s (role_value role) t
            × AllHonoured s x.1
            × (lookup (role_value role) x.1.cache ≡ some t))
          (sym got)
          (keep_template-Honoured s role r (read_prompt s role) t good
            (λ t' x. read_prompt-Honours s role t' x) (subst (λ x. x.0 ≡ ok t) got h))
  ]

-- Where every template that the registry keeps under a name has been checked for it, a call that
-- gives a template gives one that has: it is of the role, its schema is a known name and its
-- tools are known, and its body has no marker, no include, only identifiers between its braces,
-- and the citation rules where the role cites; the same holds of all that the registry keeps
-- then; and after any later calls, of any roles and whatever the files are then, a call for that
-- role gives the same template and changes nothing.
pub load-Honoured :
    (s s' : Site) (role : AgentRole) (r : Registry) (t : PromptTemplate)
    (ls : List (Site × AgentRole))
    → AllHonoured s r
    → (load s role r).0 ≡ ok t
    → Honours s (role_value role) t
      × AllHonoured s (load s role r).1
      × (load s' role (loads ls (load s role r).1) ≡ (ok t, loads ls (load s role r).1))
unfolding load
load-Honoured s s' role r t ls good h =
    let (honoured, all_good, held) = load-Kept s role r t good h in
    let still = loads-Keeps (role_value role) t ls (load s role r).1 held in
    (honoured, all_good, rw (still, load) refl)
