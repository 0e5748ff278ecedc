-- ===== src/Runtime/World/Ends.antt =====
-- A postcondition of an action of a run, with what the action leaves alone, and its rule for
-- sequencing.
use surveyforge.Base.{◌≡◌, refl, ◌∙◌, subst, inl, inr, Option-cases, ℕ, ◌+◌, ◌≤◌, String, arith}
use surveyforge.Runtime.Errors.{Result, ok, err}
use surveyforge.Runtime.World.{World, Run, Exec, continue, commit_or_rollback, transaction}
use surveyforge.Runtime.Runs.{find_run, update_run, update_stage, note_error_category}
use surveyforge.Runtime.Runs.Laws.{KeepsKeys, staged-KeepsKeys, noted-KeepsKeys}
use surveyforge.Runtime.Runs.Tending.{Tends, same-Tends, Tends-trans}

-- The evidence is as it was, the model was called `n` times at most, and no row of the runs but that
-- of `run_id` has changed.
abbrev pub Within : String → ℕ → World → World → Type 0
Within run_id n w w' =
    (w'.db.evidence_items ≡ w.db.evidence_items)
    × (w'.llm_calls ≤ w.llm_calls + n)
    × Tends run_id w w'

-- Nothing that this is about has changed.
abbrev pub Unmoved : World → World → Type 0
Unmoved w w' =
    (w'.db.evidence_items ≡ w.db.evidence_items)
    × (w'.llm_calls ≡ w.llm_calls)
    × (w'.db.runs ≡ w.db.runs)

pub Unmoved-Within : (run_id : String) (n : ℕ) (w w' : World) → Unmoved w w' → Within run_id n w w'
Unmoved-Within run_id n w w' (e, c, r) = (e, omega arith, same-Tends run_id w w' r)

pub stay-Within : (run_id : String) (n : ℕ) (w : World) → Within run_id n w w
stay-Within run_id n w = Unmoved-Within run_id n w w (refl, refl, refl)

pub Within-trans :
    (run_id : String) (m n l : ℕ) (a b c : World)
    → m + n ≤ l
    → Within run_id m a b
    → Within run_id n b c
    → Within run_id l a c
Within-trans run_id m n l a b c le (e, g, t) (e', g', t') =
    (e' ∙ e, omega arith, Tends-trans run_id a b c t t')

-- Where the action returns, its result satisfies `P`; and in any case it stays within `n`.
abbrev pub Ends : {A : Type 0} → String → (A → Type 0) → ℕ → World → Result A × World → Type 0
Ends run_id P n w r = ((a : _) → r.0 ≡ ok a → P a) × Within run_id n w r.1

module _ {A : Type 0} (run_id : String) (P : A → Type 0) where
  pub Ends-ok : (a : A) (n : ℕ) (w : World) → P a → Ends run_id P n w (ok a, w)
  Ends-ok a n w p =
      (λ b h. let same : a ≡ b = ground arith in subst P same p, stay-Within run_id n w)

  pub Ends-more :
      (m n : ℕ) (w : World) (r : Result A × World)
      → m ≤ n
      → Ends run_id P m w r
      → Ends run_id P n w r
  Ends-more m n w r le (f, (a, c, t)) = (f, (a, omega arith, t))

  pub Ends-after :
      (n : ℕ) (w w' : World) (r : Result A × World)
      → Within run_id 0 w w'
      → Ends run_id P n w' r
      → Ends run_id P n w r
  Ends-after n w w' r k (f, k') = (f, Within-trans run_id 0 n n w w' r.1 (omega arith) k k')

  commit-Ends :
      (n : ℕ) (w : World) (r : Result A × World)
      → Ends run_id P n w r
      → Ends run_id P n w (commit_or_rollback w.db r)
  unfolding commit_or_rollback
  commit-Ends n w (ok a, w') h = h
  commit-Ends n w (err e, w') (f, (a, c, t)) =
      (λ b h. absurd (cc), (refl, c, same-Tends run_id w (record w' { db = w.db }) refl))

  pub Ends-transaction :
      (n : ℕ) (m : Exec A) (w : World)
      → Ends run_id P n (record w { now = w.clock }) (m (record w { now = w.clock }))
      → Ends run_id P n w (transaction m w)
  unfolding transaction
  Ends-transaction n m w h = commit-Ends n w (m (record w { now = w.clock })) h

module _ {A B : Type 0} (run_id : String) (P : A → Type 0) (Q : B → Type 0) where
  pub Ends-bind :
      (m n : ℕ) (w : World) (r : Result A × World) (f : A → Exec B)
      → Ends run_id P m w r
      → ((a : A) (w' : World) → P a → Ends run_id Q n w' (f a w'))
      → Ends run_id Q (m + n) w (continue f r)
  Ends-bind m n w (err e, w') f (p, (k, c, t)) next = (λ b h. absurd (cc), (k, omega arith, t))
  Ends-bind m n w (ok a, w') f (p, k) next =
      let (q, l) = next a w' (p a refl) in
      (q, Within-trans run_id m n (m + n) w w' (f a w').1 (omega arith) k l)

abbrev pub Anything : {A : Type 0} → A → Type 0
Anything a = Unit

module _ (run_id : String) where
  updated-Within :
      (f : Run → Run) (w : World) → KeepsKeys f → Within run_id 0 w (update_run run_id f w).1
  unfolding update_run
  updated-Within f w p = elim (Option-cases (find_run run_id w.db.runs)) [
    | inl e ↦ rw (e, update_run) (stay-Within run_id 0 w)
    | inr (r, e) ↦ rw (e, update_run) (refl, omega arith, (f, p, refl))
  ]

  pub stage-Ends :
      (stage : String) (w : World)
      → Ends run_id Anything 0 w (transaction (update_stage run_id stage) w)
  unfolding update_stage
  stage-Ends stage w =
      Ends-transaction run_id Anything 0 (update_stage run_id stage) w
        (λ a h. tt, updated-Within _ (record w { now = w.clock }) (staged-KeepsKeys stage w.clock))

  pub note-Ends :
      (category : String) (w : World)
      → Ends run_id Anything 0 w (transaction (note_error_category run_id category) w)
  unfolding note_error_category
  note-Ends category w =
      Ends-transaction run_id Anything 0 (note_error_category run_id category) w (
        λ a h. tt,
        updated-Within _ (record w { now = w.clock }) (noted-KeepsKeys category w.clock),
      )
