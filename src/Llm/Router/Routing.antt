-- ===== src/Llm/Router/Routing.antt =====
-- What the router keeps, and what a file of bindings that loads has.
use surveyforge.Base.{
  ◌≡◌, refl, ap, ◌∙◌, subst, sym, inl, inr, true, false, Bool, List, ◌∷◌, String, ◌==◌, eq_iff,
  lookup-insert, Bool-cases, Option-cases, none, some, [], all, arith, Dict, lookup, insert,
  lookup-insert_self,
}
use surveyforge.Roles.{
  AgentRole, planner, researcher_wide, researcher_deep, synthesizer, writer, critic_section,
  critic_final, judge_default, judge_final, lite_worker, role_value,
}
use surveyforge.Runtime.Errors.{Result, Result-cases, ok, err, key_error}
use surveyforge.Runtime.Json.{Json, null, bool, num, str, arr, obj}
use surveyforge.Llm.Providers.{Env, Client}
use surveyforge.Llm.Router.{
  RoleBinding, Bindings, Overrides, Router, Readings, all_roles, is_overridden, build_for,
  keep_client, cached_client, get_llm, binding, is_bound, complete_or_raise, read_bindings,
  load_routing_yaml,
}

bound-some :
    (b : Bindings) (role : AgentRole)
    → is_bound b role ≡ true
    → (rb : RoleBinding) × (lookup (role_value role) b ≡ some rb)
unfolding is_bound
bound-some b role h = elim (Option-cases (lookup (role_value role) b)) [
  | inl e ↦ absurd (ground arith)
  | inr (rb, e) ↦ (rb, e)
]

all_bound :
    (b : Bindings) (role : AgentRole) → all (is_bound b) all_roles ≡ true → is_bound b role ≡ true
all_bound b planner h = ground arith
all_bound b researcher_wide h = ground arith
all_bound b researcher_deep h = ground arith
all_bound b synthesizer h = ground arith
all_bound b writer h = ground arith
all_bound b critic_section h = ground arith
all_bound b critic_final h = ground arith
all_bound b judge_default h = ground arith
all_bound b judge_final h = ground arith
all_bound b lite_worker h = ground arith

complete-all : (b b' : Bindings) → complete_or_raise b ≡ ok b' → all (is_bound b') all_roles ≡ true
unfolding complete_or_raise
complete-all b b' h = elim (Bool-cases (all (is_bound b) all_roles)) [
  | inr f ↦ absurd (ground arith)
  | inl t ↦
      let same : b ≡ b' = ground arith in subst (λ x. all (is_bound x) all_roles ≡ true) same t
]

loaded-all :
    (rd : Readings) (raw : Json) (b : Bindings)
    → load_routing_yaml rd raw ≡ ok b
    → all (is_bound b) all_roles ≡ true
unfolding load_routing_yaml
loaded-all rd (obj fs) b h = elim (Result-cases (read_bindings rd fs [])) [
  | inr (e, f) ↦ absurd (ground arith)
  | inl (b0, f) ↦ complete-all b0 b (ground arith)
]
loaded-all rd null b h = absurd (cc)
loaded-all rd (bool v) b h = absurd (cc)
loaded-all rd (num v) b h = absurd (cc)
loaded-all rd (str v) b h = absurd (cc)
loaded-all rd (arr v) b h = absurd (cc)

-- A routing file that loads has a binding for every role, so that a router over it raises for none,
-- whatever it keeps.
pub load_routing_yaml-binding :
    (rd : Readings) (raw : Json) (b : Bindings) (cache : Dict Client) (role : AgentRole)
    → load_routing_yaml rd raw ≡ ok b
    → (rb : RoleBinding) × (binding role (record { bindings = b; cache = cache }) ≡ ok rb)
unfolding binding
load_routing_yaml-binding rd raw b cache role h =
    let (rb, e) = bound-some b role (all_bound b role (loaded-all rd raw b h)) in
    (rb, rw (e, binding) refl)

module _ (env : Env) (role : AgentRole) (r : Router) where
  kept :
      (o : Overrides) (rb : RoleBinding) (c : Client)
      → is_overridden o ≡ false
      → lookup (role_value role) r.bindings ≡ some rb
      → lookup (role_value role) r.cache ≡ some c
      → get_llm env role o r ≡ (ok c, r)
  unfolding get_llm cached_client
  kept o rb c plain bound held =
      rw (bound, get_llm) (rw (plain, cached_client) (rw (held, get_llm) refl))

  unbound :
      (o : Overrides)
      → lookup (role_value role) r.bindings ≡ none
      → get_llm env role o r ≡ (err (key_error (role_value role)), r)
  unfolding get_llm
  unbound o h = rw (h, get_llm) refl

  built_new :
      (o : Overrides) (rb : RoleBinding)
      → lookup (role_value role) r.bindings ≡ some rb
      → cached_client (is_overridden o) (role_value role) r ≡ none
      → get_llm env role o r
        ≡ keep_client (is_overridden o) (role_value role) r (build_for env rb o)
  unfolding get_llm
  built_new o rb bound fresh = rw (bound, get_llm) (rw (fresh, get_llm) refl)

-- The client stands in the cache, under a role that is bound.
abbrev Holds : AgentRole → Client → Router → Type 0
Holds role c r =
    ((rb : RoleBinding) × (lookup (role_value role) r.bindings ≡ some rb))
    × (lookup (role_value role) r.cache ≡ some c)

module _ (role : AgentRole) (r : Router) where
  keep_client-Holds :
      (rb : RoleBinding) (res : Result Client) (c : Client)
      → lookup (role_value role) r.bindings ≡ some rb
      → (keep_client false (role_value role) r res).0 ≡ ok c
      → Holds role c (keep_client false (role_value role) r res).1
  unfolding keep_client
  keep_client-Holds rb (err e) c bound h = absurd (cc)
  keep_client-Holds rb (ok c') c bound h =
      let same : c' ≡ c = ground arith in
      (
        (rb, bound),
        subst (λ x. lookup (role_value role) (insert (role_value role) c' r.cache) ≡ some x) same
            (lookup-insert_self (role_value role) c' r.cache),
      )

  keep_client_overridden : (res : Result Client) → (keep_client true (role_value role) r res).1 ≡ r
  unfolding keep_client
  keep_client_overridden (err e) = refl
  keep_client_overridden (ok c) = refl

  module _ (env : Env) (o : Overrides) where
    got-Holds :
        (c : Client)
        → is_overridden o ≡ false
        → (get_llm env role o r).0 ≡ ok c
        → Holds role c (get_llm env role o r).1
    unfolding cached_client
    got-Holds c plain h = elim (Option-cases (lookup (role_value role) r.bindings)) [
      | inl e ↦ absurd (ground (arith, unbound env role r o e))
      | inr (rb, bound) ↦ elim (Option-cases (lookup (role_value role) r.cache)) [
        | inr (c', held) ↦
            let got = kept env role r o rb c' plain bound held in
            let same : c' ≡ c = ground arith in
            subst (λ x. Holds role c x.1) (sym got)
              ((rb, bound), subst (λ x. lookup (role_value role) r.cache ≡ some x) same held)
        | inl fresh ↦
            let got : get_llm env role o r
                ≡ keep_client false (role_value role) r (build_for env rb o) =
              subst
                (λ b. get_llm env role o r ≡ keep_client b (role_value role) r (build_for env rb o))
                plain (built_new env role r o rb bound (rw plain fresh)) in
            subst (λ x. Holds role c x.1) (sym got)
              (keep_client-Holds rb (build_for env rb o) c bound (subst (λ x. x.0 ≡ ok c) got h))
      ]
    ]

    overridden_same : is_overridden o ≡ true → (get_llm env role o r).1 ≡ r
    unfolding cached_client
    overridden_same set = elim (Option-cases (lookup (role_value role) r.bindings)) [
      | inl e ↦ ap (λ x. x.1) (unbound env role r o e)
      | inr (rb, bound) ↦
          ap (λ x. x.1) (built_new env role r o rb bound (rw set refl))
          ∙ subst (λ b. (keep_client b (role_value role) r (build_for env rb o)).1 ≡ r) (sym set)
              (keep_client_overridden (build_for env rb o))
    ]

-- What a client that is kept under another role leaves.
keep_client-Holds_other :
    (role : AgentRole) (c : Client) (given : Bool) (other : String) (r : Router)
    (res : Result Client)
    → (given ≡ false → lookup other r.cache ≡ none)
    → Holds role c r
    → Holds role c (keep_client given other r res).1
unfolding keep_client
keep_client-Holds_other role c given other r (err e) fresh h = h
keep_client-Holds_other role c true other r (ok c') fresh h = h
keep_client-Holds_other role c false other r (ok c') fresh (bound, held) =
    let free = fresh refl in
    (
      bound,
      elim (Bool-cases (other == role_value role)) [
        | inl t ↦
            let same : other ≡ role_value role = (eq_iff other (role_value role)).0 t in
            absurd (cc (ap (λ k. lookup k r.cache) same))
        | inr f ↦ ground (arith, lookup-insert other (role_value role) c' r.cache)
      ],
    )

cached_client-none :
    (given : Bool) (name : String) (r : Router)
    → cached_client given name r ≡ none
    → given ≡ false
    → lookup name r.cache ≡ none
unfolding cached_client
cached_client-none true name r h p = absurd (cc)
cached_client-none false name r h p = h

get_llm-Holds :
    (env : Env) (other role : AgentRole) (o : Overrides) (c : Client) (r : Router)
    → Holds role c r
    → Holds role c (get_llm env other o r).1
unfolding get_llm
get_llm-Holds env other role o c r h = elim (Option-cases (lookup (role_value other) r.bindings)) [
  | inl e ↦ subst (λ x. Holds role c x.1) (sym (unbound env other r o e)) h
  | inr (rb, bound) ↦ elim (Option-cases (cached_client (is_overridden o) (role_value other) r)) [
    | inr (c', held) ↦
        let got : get_llm env other o r ≡ (ok c', r) =
          rw (bound, get_llm) (rw (held, get_llm) refl) in
        subst (λ x. Holds role c x.1) (sym got) h
    | inl fresh ↦
        subst (λ x. Holds role c x.1) (sym (built_new env other r o rb bound fresh))
          (keep_client-Holds_other role c (is_overridden o) (role_value other) r
            (build_for env rb o) (cached_client-none (is_overridden o) (role_value other) r fresh)
            h)
  ]
]

-- Calls one after the other, of any roles, with the environment and the overrides of each.
abbrev pub calls : List (Env × AgentRole × Overrides) → Router → Router
calls [] r = r
calls ((env, role, o) ∷ rest) r = calls rest (get_llm env role o r).1

calls-Holds :
    (role : AgentRole) (c : Client) (cs : List (Env × AgentRole × Overrides)) (r : Router)
    → Holds role c r
    → Holds role c (calls cs r)
calls-Holds role c [] r h = h
calls-Holds role c ((env, other, o) ∷ cs) r h =
    calls-Holds role c cs (get_llm env other o r).1 (get_llm-Holds env other role o c r h)

-- A client that the router gave for a role without overrides is the one that it gives for that role
-- without overrides after any later calls, whatever their roles, overrides and results are and
-- whatever the environment is then, and such a call changes nothing; a call with an override, of any
-- role and on any router, never changes what the router keeps.
pub get_llm_lem :
    (env later : Env) (role other : AgentRole) (r any_router : Router)
    (plain again changed : Overrides) (c : Client) (cs : List (Env × AgentRole × Overrides))
    → is_overridden plain ≡ false
    → is_overridden again ≡ false
    → is_overridden changed ≡ true
    → (get_llm env role plain r).0 ≡ ok c
    → (get_llm later role again (calls cs (get_llm env role plain r).1)
        ≡ (ok c, calls cs (get_llm env role plain r).1))
      × ((get_llm later other changed any_router).1 ≡ any_router)
get_llm_lem env later role other r any_router plain again changed c cs p q s h =
    let ((rb, bound), held) =
      calls-Holds role c cs (get_llm env role plain r).1 (got-Holds role r env plain c p h) in
    (
      kept later role (calls cs (get_llm env role plain r).1) again rb c q bound held,
      overridden_same other any_router later changed s,
    )
