-- ===== src/Tools/Lookups.antt =====
-- What a lookup of a paper does: its requests and its outcome.
use surveyforge.Base.{◌≡◌, refl, ◌⊎◌, inl, inr, ℕ, ◌≤◌, false, Bool-cases, String}
use surveyforge.Runtime.Errors.{Exc, Result, Result-cases, ok, err, validation_error}
use surveyforge.Runtime.Json.{Json}
use surveyforge.Runtime.World.{World}
use surveyforge.Tools.Http.Retries.{
  Retried, Interpreted, with_retries-Retried, after_request-Interpreted,
}
use surveyforge.Tools.S2 as S2
use surveyforge.Tools.Arxiv as Arxiv

module _ (site : S2.Site) where
  -- The outcome of a lookup: an id that is refused makes no request.
  abbrev pub Looked : String → World → Result Json × World → Type 0
  Looked pid w out =
      ((S2.input_valid pid ≡ false) × (out ≡ (err validation_error, w)))
      ⊎ ((e : Exc) × (S2.build_s2_url pid ≡ err e) × (out ≡ (err e, w)))
      ⊎ ((url : String) × (n : ℕ) × (S2.build_s2_url pid ≡ ok url)
          × (1 ≤ n)
          × (n ≤ 4)
          × Retried (S2.compute_retry_delay site.seconds) (S2.request site url) 0 n w
              (S2.fetch site url w)
          × Interpreted (S2.read_paper site) (S2.fetch site url w).0 out.0)

  lookup_paper-Looked : (pid : String) (w : World) → Looked pid w (S2.lookup_paper site pid w)
  unfolding S2.lookup_paper S2.fetch
  lookup_paper-Looked pid w = elim (Bool-cases (S2.input_valid pid)) [
    | inr f ↦ rw f (inl (refl, refl))
    | inl t ↦ elim (Result-cases (S2.build_s2_url pid)) [
      | inr (e, h) ↦ rw t (rw h (inr (inl (e, refl, refl))))
      | inl (url, h) ↦
          let (n, low, high, tries) =
            with_retries-Retried (S2.compute_retry_delay site.seconds) (S2.request site url) w in
          rw t (
            rw h (
              inr (
                inr (
                  url,
                  n,
                  refl,
                  low,
                  high,
                  tries,
                  after_request-Interpreted (S2.read_paper site) (S2.fetch site url w),
                ))))
    ]
  ]

module _ (site : Arxiv.Site) where
  -- The outcome of a lookup: an id that is refused makes no request.
  abbrev pub ArxivLooked : String → World → Result Json × World → Type 0
  ArxivLooked pid w out =
      ((Arxiv.input_valid pid ≡ false) × (out ≡ (err validation_error, w)))
      ⊎ ((e : Exc) × (Arxiv.build_arxiv_id_param pid ≡ err e) × (out ≡ (err e, w)))
      ⊎ ((arxiv_id : String) × (n : ℕ) × (Arxiv.build_arxiv_id_param pid ≡ ok arxiv_id)
          × (1 ≤ n)
          × (n ≤ 4)
          × Retried (Arxiv.compute_retry_delay site.seconds) (Arxiv.request site arxiv_id) 0 n w
              (Arxiv.fetch site arxiv_id w)
          × Interpreted (Arxiv.read_paper site pid) (Arxiv.fetch site arxiv_id w).0 out.0)

-- A lookup at Semantic Scholar refuses an id with no request, or makes one request at least and
-- four at most, each after the first on an answer 429 and after the sleep for it; it raises
-- `OverflowError` where that sleep is longer than any can be; and of the last answer, 404 is a
-- result without a paper, another answer that is no success raises `HTTPStatusError` with its
-- status, and a success is read as a paper.
pub s2_lookup_lem :
    (site : S2.Site) (pid : String) (w : World) → Looked site pid w (S2.lookup_paper site pid w)
s2_lookup_lem site pid w = lookup_paper-Looked site pid w
