-- ===== src/Http/Statuses.antt =====
-- The statuses that errors are answered with: those of the responses of pkg/response/response.go and
-- of the controllers' helpers.
use beer_avaliation_api.Base.{[], ℕ, ◌≡◌, refl, String, none, some, str_eq, if_elim}
use beer_avaliation_api.Errors.{
  Error, AppError, Problem, as_app, new_problem, to_problem, handle_error,
}
use beer_avaliation_api.Http.{
  Site, Request, Response, Headers, problem, send_problem, send_new_problem, send_app_error,
  send_handled,
}

-- The code of the `AppError` on an error's chain, or else a status that the handler chose.
abbrev pub error_status : Error → ℕ → ℕ
error_status e status = elim (as_app e) [ none ↦ status | some appErr ↦ appErr.code ]

-- A problem in RFC 7807, whose status is the one of the response.
abbrev pub IsProblem {ℓ} : {P : Type ℓ} → ℕ → Response P → Type ℓ
IsProblem status response =
    (response.status ≡ status)
    × (p : Problem) × (response.content ≡ problem p)
    × (p.status ≡ status)

-- The answer of a handler is a problem with a status, and the state afterwards is known.
abbrev pub IsAnswered {ℓ} : {P S : Type ℓ} → S → ℕ → Response P × S → Type ℓ
IsAnswered s status (response, s') = (s' ≡ s) × IsProblem status response

module _ {ℓ} {P : Type ℓ} where
  send_problem-IsProblem :
      (site : Site) (p : Problem) (status : ℕ) (h : Headers)
      → p.status ≡ status
      → IsProblem {P = P} status (send_problem site (some p) h)
  unfolding send_problem
  send_problem-IsProblem site p status h same = (same, p, refl, same)

  pub send_new_problem-IsProblem :
      (site : Site) (status : ℕ) (code detail : String)
      → IsProblem {P = P} status (send_new_problem site status code detail)
  unfolding send_new_problem new_problem
  send_new_problem-IsProblem site status code detail =
      send_problem-IsProblem site
        (new_problem site.problem_type site.status_text status code detail) status [] refl

  pub send_app_error-IsProblem :
      {B : Type 0} (site : Site) (req : Request B) (e : AppError)
      → IsProblem {P = P} e.code (send_app_error site req e)
  unfolding send_app_error to_problem
  send_app_error-IsProblem site req e =
      send_problem-IsProblem site _ e.code []
        (if_elim (λ (p : Problem). p.status ≡ e.code) (str_eq req.trace "") refl refl)

  pub send_handled-IsProblem :
      {B : Type 0} (site : Site) (req : Request B) (e : Error) (message : String) (status : ℕ)
      (h : Headers)
      → IsProblem {P = P} (error_status e status) (send_handled site req e message status h)
  unfolding send_handled handle_error new_problem
  send_handled-IsProblem site req e message status h =
      send_problem-IsProblem site _ (error_status e status) h (
        if_elim (λ (p : Problem). p.status ≡ error_status e status) (str_eq req.trace "") refl refl)
