-- ===== src/Llm/RateLimit/Limited/Shared.antt =====
-- All clients of a provider share its limiter.
use surveyforge.Base.{
  ◌≡◌, ◌+◌, ℕ, refl, ap, ◌∙◌, subst, sym, inl, inr, Bool, true, false, Bool-cases, Option-cases,
  none, some, String, ◌==◌, eq_iff, List, [], ◌∷◌, ◌++◌, arith, lookup, insert, lookup-insert,
  lookup-insert_self, if◌then◌else◌,
}
use surveyforge.Roles.{AgentRole, role_value}
use surveyforge.Runtime.Errors.{Result, Result-cases, ok, err}
use surveyforge.Llm.Providers.{Env, build_chat_model}
use surveyforge.Llm.Router.{RoleBinding, or_default, given_text}
use surveyforge.Llm.RateLimit.{Limiter, Bucket, new_limiter, limits_of}
use surveyforge.Llm.RateLimit.Limited.{
  Handle, Callback, limit, LimitedClient, LimitedRouter, Keywords, provider_value, any_given,
  add_limiter, limiter_for, flat, build_limited, keep_limited, after_limiter, cached_limited,
  get_limited,
}

-- The client's last callback is the limiter that the router has for its provider.
abbrev pub Limited : LimitedRouter → LimitedClient → Type 0
Limited r c =
    (h : Handle) × (others : List Callback) × (lookup (provider_value c.provider) r.limiters
      ≡ some h)
    × (c.callbacks ≡ others ++ (limit h ∷ []))

-- A limiter that a provider has is never replaced.
abbrev pub Stable : LimitedRouter → LimitedRouter → Type 0
Stable r r' =
    (provider : String) (h : Handle)
    → lookup provider r.limiters ≡ some h
    → lookup provider r'.limiters ≡ some h

-- Every client that is kept is limited.
abbrev pub AllLimited : LimitedRouter → Type 0
AllLimited r = (role : String) (c : LimitedClient) → lookup role r.cache ≡ some c → Limited r c

Stable-Limited :
    (r r' : LimitedRouter) (c : LimitedClient) → Stable r r' → Limited r c → Limited r' c
Stable-Limited r r' c s (h, others, e, f) = (h, others, s (provider_value c.provider) h e, f)

-- What `limiter_for` makes sure of where it gives a limiter.
abbrev Found : String → LimitedRouter → Handle → LimitedRouter → Type 0
Found provider r h r' = Stable r r' × (r'.cache ≡ r.cache) × (lookup provider r'.limiters ≡ some h)

add_limiter-Found :
    (provider : String) (r r' : LimitedRouter) (res : Result (Limiter × Bucket)) (h : Handle)
    → lookup provider r.limiters ≡ none
    → add_limiter provider r res ≡ (ok h, r')
    → Found provider r h r'
unfolding add_limiter
add_limiter-Found provider r r' (err e) h fresh done = absurd (cc)
add_limiter-Found provider r r' (ok (l, bucket)) h fresh done =
    let made : Handle = record { id = r.made; limiter = l } in
    let next : LimitedRouter = record r {
      limiters = insert provider made r.limiters;
      made = r.made + 1;
    } in
    let same : made ≡ h = ground arith in
    let same' : next ≡ r' = ap (λ x. x.1) done in
    subst (λ x. Found provider r x r') same
      (subst (λ x. Found provider r made x) same'
        (
          (λ p g e. ground (arith, lookup-insert provider p made r.limiters, eq_iff provider p)),
          refl,
          lookup-insert_self provider made r.limiters,
        ))

limiter_for-Found :
    (now : ℕ) (provider : String) (r r' : LimitedRouter) (h : Handle)
    → limiter_for now provider r ≡ (ok h, r')
    → Found provider r h r'
unfolding limiter_for
limiter_for-Found now provider r r' h done = elim (Option-cases (lookup provider r.limiters)) [
  | inr (g, e) ↦
      let got : limiter_for now provider r ≡ (ok g, r) = rw (e, limiter_for) refl in
      let same : g ≡ h = ground arith in
      let same' : r ≡ r' = ap (λ x. x.1) (sym got ∙ done) in
      subst (λ x. Found provider r h x) same'
        ((λ p f i. i), refl, subst (λ x. lookup provider r.limiters ≡ some x) same e)
  | inl e ↦
      let limits = limits_of r.per_provider r.default provider in
      let got : limiter_for now provider r
          ≡ add_limiter provider r (new_limiter limits.0 limits.1 now) =
        rw (e, limiter_for) refl in
      add_limiter-Found provider r r' (new_limiter limits.0 limits.1 now) h e (sym got ∙ done)
]

-- What a call that gives a client has seen to.
abbrev pub Served : LimitedRouter → LimitedClient → LimitedRouter → Type 0
Served r c r' = Stable r r' × AllLimited r' × Limited r' c

module _ (env : Env) (b : RoleBinding) (k : Keywords) (h : Handle) where
  build_limited-Limited :
      (r : LimitedRouter) (c : LimitedClient)
      → build_limited env b k h ≡ ok c
      → lookup (provider_value b.provider) r.limiters ≡ some h
      → Limited r c
  unfolding build_limited
  build_limited-Limited r c done found =
      elim (Result-cases (
        build_chat_model env b.provider
          (if given_text (flat k.model_override) then flat k.model_override else some b.model)
          (or_default k.temperature b.temperature) (or_default k.max_tokens b.max_tokens)
          k.options)) [
            | inr (e, f) ↦ absurd (ground arith)
            | inl (client, f) ↦
                let built : LimitedClient = record {
                  provider = b.provider;
                  client = client;
                  callbacks = or_default k.callbacks [] ++ (limit h ∷ []);
                } in
                let same : built ≡ c = ground arith in
                subst (Limited r) same (h, or_default k.callbacks [], found, refl)
          ]

keep_limited-Served :
    (given : Bool) (role : String) (r0 r : LimitedRouter) (res : Result LimitedClient)
    (c : LimitedClient)
    → Stable r0 r
    → AllLimited r
    → ((c' : LimitedClient) → res ≡ ok c' → Limited r c')
    → (keep_limited given role r res).0 ≡ ok c
    → Served r0 c (keep_limited given role r res).1
unfolding keep_limited
keep_limited-Served given role r0 r (err e) c s good new h = absurd (cc)
keep_limited-Served true role r0 r (ok c') c s good new h =
    let same : c' ≡ c = ground arith in (s, good, subst (Limited r) same (new c' refl))
keep_limited-Served false role r0 r (ok c') c s good new h =
    let same : c' ≡ c = ground arith in (s, put, subst (Limited r) same (new c' refl))
  where
    put :
        (j : String) (x : LimitedClient) → lookup j (insert role c' r.cache) ≡ some x → Limited r x
    put j x e = elim (Bool-cases (role == j)) [
      | inl t ↦
          let same : c' ≡ x = ground (arith, lookup-insert role j c' r.cache) in
          subst (Limited r) same (new c' refl)
      | inr f ↦ good j x (ground (arith, lookup-insert role j c' r.cache))
    ]

after_limiter-Served :
    (env : Env) (role : String) (b : RoleBinding) (k : Keywords) (r0 : LimitedRouter)
    (found : Result Handle × LimitedRouter) (c : LimitedClient)
    → AllLimited r0
    → ((h : Handle) (r : LimitedRouter)
        → found ≡ (ok h, r)
        → Found (provider_value b.provider) r0 h r)
    → (after_limiter env role b k found).0 ≡ ok c
    → Served r0 c (after_limiter env role b k found).1
unfolding after_limiter
after_limiter-Served env role b k r0 (err e, r) c good get h = absurd (cc)
after_limiter-Served env role b k r0 (ok l, r) c good get h =
    let (s, same, held) = get l r refl in
    keep_limited-Served (any_given k) role r0 r (build_limited env b k l) c s
      (λ j x e. Stable-Limited r0 r x s (good j x (ap (lookup j) (sym same) ∙ e)))
      (λ c' e. build_limited-Limited env b k l r c' e held) h

cached_limited-Limited :
    (given : Bool) (role : String) (r : LimitedRouter) (c : LimitedClient)
    → AllLimited r
    → cached_limited given role r ≡ some c
    → Limited r c
unfolding cached_limited
cached_limited-Limited true role r c good h = absurd (cc)
cached_limited-Limited false role r c good h = good role c h

-- Where every client that the rate limited router keeps has the limiter of its provider as its last
-- callback, a call that gives a client gives one that has it too; the same holds of what the router
-- keeps then, and no provider's limiter is ever replaced, so that all its clients share one.
pub get_limited-Served :
    (env : Env) (now : ℕ) (role : AgentRole) (k : Keywords) (r : LimitedRouter) (c : LimitedClient)
    → AllLimited r
    → (get_limited env now role k r).0 ≡ ok c
    → Served r c (get_limited env now role k r).1
unfolding get_limited
get_limited-Served env now role k r c good h =
    elim (Option-cases (lookup (role_value role) r.bindings)) [
      | inl e ↦ absurd (ground arith)
      | inr (b, e) ↦ elim (Option-cases (cached_limited (any_given k) (role_value role) r)) [
        | inr (c', f) ↦
            let got : get_limited env now role k r ≡ (ok c', r) =
              rw (e, get_limited) (rw (f, get_limited) refl) in
            let same : c' ≡ c = ground arith in
            subst (λ x. Served r c x.1) (sym got)
              (
                (λ p g i. i),
                good,
                subst (Limited r) same
                    (cached_limited-Limited (any_given k) (role_value role) r c' good f),
              )
        | inl f ↦
            let found = limiter_for now (provider_value b.provider) r in
            let got : get_limited env now role k r ≡ after_limiter env (role_value role) b k found =
              rw (e, get_limited) (rw (f, get_limited) refl) in
            subst (λ x. Served r c x.1) (sym got)
              (after_limiter-Served env (role_value role) b k r found c good
                (λ l r' x. limiter_for-Found now (provider_value b.provider) r r' l x)
                (subst (λ x. x.0 ≡ ok c) got h))
      ]
    ]
