-- ===== src/Runtime/Json/Sanitize.antt =====
-- `sanitize_args` of src/litweave/runtime/tool_gateway.py
use surveyforge.Base.{
  ◌↔◌, subst, ℕ, ◌+◌, Bool, true, false, not, ◌&&◌, ◌||◌, List, [], ◌∷◌, ◌++◌, ◌⊎◌, inl, inr,
  String, ◌≡◌, refl, arith, codes, leb, eqb, eqb→eq, any, if◌then◌else◌,
}
use surveyforge.Runtime.Json.{
  Json, null, bool, num, str, arr, obj, Items, nil, cons, Fields, end, field,
}

-- `k.lower()`, as far as ASCII characters of the result and what stands between them go: of the
-- characters outside ASCII, the Kelvin sign becomes a letter k, and the dotted capital I a letter i
-- with a combining dot; any other becomes none in ASCII and stays.
unfoldable pub lower : List ℕ → List ℕ
lower [] = []
lower (c ∷ cs) =
    let rest = lower cs in
    if leb b'A' c && leb c b'Z'
    then (c + 32) ∷ rest
    else if eqb c 0x212a
    then b'k' ∷ rest
    else if eqb c 0x130
    then b'i' ∷ (0x307 ∷ rest)
    else c ∷ rest

unfoldable pub prefix_of : List ℕ → List ℕ → Bool
prefix_of [] s = true
prefix_of (p ∷ ps) [] = false
prefix_of (p ∷ ps) (c ∷ cs) = eqb p c && prefix_of ps cs

-- `p in s`
unfoldable pub occurs : List ℕ → List ℕ → Bool
unfolding prefix_of
occurs p [] = prefix_of p []
occurs p (c ∷ cs) = prefix_of p (c ∷ cs) || occurs p cs

abbrev pub secret_field_patterns : List String
secret_field_patterns = "_key" ∷ "_token" ∷ "_secret" ∷ "password" ∷ "authorization" ∷ []

unfoldable pub is_secret : String → Bool
unfolding occurs prefix_of lower
is_secret k = any (λ p. occurs (codes p) (lower (codes k))) secret_field_patterns

-- `_strip`
unfoldable mutual
  pub strip : Json → Json
  strip null = null
  strip (bool b) = bool b
  strip (num n) = num n
  strip (str s) = str s
  strip (arr xs) = arr (strip_items xs)
  strip (obj fs) = obj (strip_fields fs)

  pub strip_items : Items → Items
  strip_items nil = nil
  strip_items (cons x xs) = cons (strip x) (strip_items xs)

  pub strip_fields : Fields → Fields
  strip_fields end = end
  strip_fields (field k v fs) =
      let rest = strip_fields fs in if is_secret k then rest else field k (strip v) rest

unfoldable pub sanitize_args : Fields → Fields
unfolding strip
sanitize_args args = strip_fields args

-- No field name at any depth matches a secret pattern.
abbrev mutual
  pub no_secret : Json → Bool
  no_secret null = true
  no_secret (bool b) = true
  no_secret (num n) = true
  no_secret (str s) = true
  no_secret (arr xs) = no_secret_items xs
  no_secret (obj fs) = no_secret_fields fs

  pub no_secret_items : Items → Bool
  no_secret_items nil = true
  no_secret_items (cons x xs) = no_secret x && no_secret_items xs

  pub no_secret_fields : Fields → Bool
  no_secret_fields end = true
  no_secret_fields (field k v fs) = not (is_secret k) && no_secret v && no_secret_fields fs

mutual
  unfolding strip

  no_secret-strip : (v : Json) → no_secret (strip v) ≡ true
  no_secret-strip null = refl
  no_secret-strip (bool b) = refl
  no_secret-strip (num n) = refl
  no_secret-strip (str s) = refl
  no_secret-strip (arr xs) = no_secret-strip_items xs
  no_secret-strip (obj fs) = no_secret-strip_fields fs

  no_secret-strip_items : (xs : Items) → no_secret_items (strip_items xs) ≡ true
  no_secret-strip_items nil = refl
  no_secret-strip_items (cons x xs) = ground (arith, no_secret-strip x, no_secret-strip_items xs)

  no_secret-strip_fields : (fs : Fields) → no_secret_fields (strip_fields fs) ≡ true
  no_secret-strip_fields end = refl
  no_secret-strip_fields (field k v fs) =
      ground (arith, no_secret-strip v, no_secret-strip_fields fs)

mutual
  unfolding strip

  strip_id : (v : Json) → no_secret v ≡ true → strip v ≡ v
  strip_id null h = refl
  strip_id (bool b) h = refl
  strip_id (num n) h = refl
  strip_id (str s) h = refl
  strip_id (arr xs) h = cc (strip_items_id xs h)
  strip_id (obj fs) h = cc (strip_fields_id fs h)

  strip_items_id : (xs : Items) → no_secret_items xs ≡ true → strip_items xs ≡ xs
  strip_items_id nil h = refl
  strip_items_id (cons x xs) h =
      ground (arith, strip_id x (ground arith), strip_items_id xs (ground arith))

  strip_fields_id : (fs : Fields) → no_secret_fields fs ≡ true → strip_fields fs ≡ fs
  strip_fields_id end h = refl
  strip_fields_id (field k v fs) h =
      ground (arith, strip_id v (ground arith), strip_fields_id fs (ground arith))

-- A text stands in another.
abbrev pub Within : List ℕ → List ℕ → Type 0
Within p s = (front : List ℕ) × (back : List ℕ) × (s ≡ front ++ (p ++ back))

or_true : (a b : Bool) → (a || b) ≡ true → (a ≡ true) ⊎ (b ≡ true)
or_true true b h = inl refl
or_true false b h = inr h

prefix_of_iff : (p s : List ℕ) → (prefix_of p s ≡ true) ↔ ((back : List ℕ) × (s ≡ p ++ back))
unfolding prefix_of
prefix_of_iff [] s = (λ h. (s, refl), λ h. refl)
prefix_of_iff (x ∷ p) [] = (λ h. absurd (cc), λ (back, e). absurd (cc))
prefix_of_iff (x ∷ p) (c ∷ s) = (
  λ h.
      let same : x ≡ c = eqb→eq x c (ground arith) in
      let (back, e) = (prefix_of_iff p s).0 (ground arith) in (back, cc),
  λ (back, e).
      let same : c ≡ x = ground arith in
      let rest : s ≡ p ++ back = ground arith in ground (arith, (prefix_of_iff p s).1 (back, rest)),
)

occurs-Within : (p s front back : List ℕ) → s ≡ front ++ (p ++ back) → occurs p s ≡ true
unfolding occurs
occurs-Within p [] [] back e = (prefix_of_iff p []).1 (back, e)
occurs-Within p [] (f ∷ front) back e = absurd (cc)
occurs-Within p (c ∷ s) [] back e = ground (arith, (prefix_of_iff p (c ∷ s)).1 (back, e))
occurs-Within p (c ∷ s) (f ∷ front) back e =
    let rest : s ≡ front ++ (p ++ back) = ground arith in
    ground (arith, occurs-Within p s front back rest)

Within-occurs : (p s : List ℕ) → occurs p s ≡ true → Within p s
unfolding occurs
Within-occurs p [] h = let (back, e) = (prefix_of_iff p []).0 h in ([], back, e)
Within-occurs p (c ∷ s) h = elim (or_true (prefix_of p (c ∷ s)) (occurs p s) h) [
  | inl t ↦ let (back, e) = (prefix_of_iff p (c ∷ s)).0 t in ([], back, e)
  | inr t ↦ let (front, back, e) = Within-occurs p s t in (c ∷ front, back, cc)
]

occurs_iff : (p s : List ℕ) → (occurs p s ≡ true) ↔ Within p s
occurs_iff p s = (Within-occurs p s, λ (front, back, e). occurs-Within p s front back e)

-- The names of fields that hold secrets.
abbrev pub NamesSecret : String → Type 0
NamesSecret k =
    Within (codes "_key") (lower (codes k))
    ⊎ Within (codes "_token") (lower (codes k))
    ⊎ Within (codes "_secret") (lower (codes k))
    ⊎ Within (codes "password") (lower (codes k))
    ⊎ Within (codes "authorization") (lower (codes k))

is_secret_iff : (k : String) → (is_secret k ≡ true) ↔ NamesSecret k
unfolding is_secret
is_secret_iff k =
    let s = lower (codes k) in
    (
      λ h. elim (or_true _ _ h) [
        | inl t ↦ inl ((occurs_iff (codes "_key") s).0 t)
        | inr h ↦ elim (or_true _ _ h) [
          | inl t ↦ inr (inl ((occurs_iff (codes "_token") s).0 t))
          | inr h ↦ elim (or_true _ _ h) [
            | inl t ↦ inr (inr (inl ((occurs_iff (codes "_secret") s).0 t)))
            | inr h ↦ elim (or_true _ _ h) [
              | inl t ↦ inr (inr (inr (inl ((occurs_iff (codes "password") s).0 t))))
              | inr h ↦
                  inr (inr (inr (inr ((occurs_iff (codes "authorization") s).0 (ground arith)))))
            ]
          ]
        ]
      ],
      λ n. elim n [
        | inl w ↦ ground (arith, (occurs_iff (codes "_key") s).1 w)
        | inr (inl w) ↦ ground (arith, (occurs_iff (codes "_token") s).1 w)
        | inr (inr (inl w)) ↦ ground (arith, (occurs_iff (codes "_secret") s).1 w)
        | inr (inr (inr (inl w))) ↦ ground (arith, (occurs_iff (codes "password") s).1 w)
        | inr (inr (inr (inr w))) ↦ ground (arith, (occurs_iff (codes "authorization") s).1 w)
      ],
    )

-- What is sanitized names no secret at any depth, and arguments are kept whole exactly where they
-- name none; and a name is a secret's exactly where `_key`, `_token`, `_secret`, `password` or
-- `authorization` stands in its lower case.
pub sanitize_args_lem :
    (args : Fields)
    → (no_secret_fields (sanitize_args args) ≡ true)
      × ((sanitize_args args ≡ args) ↔ (no_secret_fields args ≡ true))
      × ((k : String) → (is_secret k ≡ true) ↔ NamesSecret k)
unfolding sanitize_args
sanitize_args_lem args = (
  no_secret-strip_fields args,
  (
    λ e. subst (λ fs. no_secret_fields fs ≡ true) e (no_secret-strip_fields args),
    strip_fields_id args,
  ),
  is_secret_iff,
)
