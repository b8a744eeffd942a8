-- ===== src/Beer/Filters.antt =====
-- pkg/moderation: the moderator of OpenAI (moderator.go) and the cache around a moderator.
use beer_avaliation_api.Base.{
  ◌≡◌, ◌≢◌, inl, inr, refl, ℕ, String, Bool, true, false, not, List, [], ◌∷◌, if◌then◌else◌, str_eq,
  ◌==◌, arith, eq_iff, Bool-cases, Option, none, some,
}
use beer_avaliation_api.Base.Text.{trim_space}
use beer_avaliation_api.Errors.{Error, nil, new_app_error, wrap}
use beer_avaliation_api.Results.{Result, ok, err, Exec, Result-cases}
use beer_avaliation_api.Beer.Repository.{Moderator}
use beer_avaliation_api.Beer.Usecase.Comments.{moderated}

-- The response of the API: its status, and its results, each flagged or not, as far as it is decoded.
pub record Reply : Type 0 where
  pub status : ℕ
  pub results : Result (List Bool)

-- What the request of a text comes to: an error before it is sent, an error of the network, or a
-- reply.
pub data Outcome : Type 0 where
  unmarshalled : Error → Outcome
  unrequested : Error → Outcome
  unreachable : Error → Outcome
  replied : Reply → Outcome

-- The answer to the flags of a reply.
unfoldable pub first_flag : List Bool → Bool × Error
first_flag [] = (true, nil)
first_flag (flagged ∷ others) = if flagged then (false, nil) else (true, nil)

unfoldable pub judge : Outcome → Bool × Error
unfolding first_flag
judge (unmarshalled e) = (true, wrap "failed to marshal moderation request" e)
judge (unrequested e) = (true, wrap "failed to create moderation request" e)
judge (unreachable e) = (true, nil)
judge (replied reply) = if not (reply.status == 200) then (true, nil) else elim reply.results [
  | err e ↦ (true, wrap "failed to decode moderation response" e)
  | ok flags ↦ first_flag flags
]

abbrev answered : {S : Type 0} → Outcome × S → (Bool × Error) × S
unfolding judge
answered (outcome, s) = (judge outcome, s)

-- `(*OpenAIModerator).IsContentAllowed`; `ask` sends the text.
unfoldable pub openai_moderator : {S : Type 0} → (String → S → Outcome × S) → Moderator S
unfolding trim_space judge
openai_moderator ask text s =
    if str_eq (trim_space text) "" then ((true, nil), s) else answered (ask text s)

-- `ModerationCache`: an entry is there or not.
pub record ModerationCache (S : Type 0) : Type 0 where
  pub get : String → Exec S (Option Bool)
  pub set : String → Bool → Exec S Unit

-- `(*CachedOpenAIModerator).IsContentAllowed` after the answer of the moderator.
unfoldable pub remember :
    {S : Type 0} → ModerationCache S → String → (Bool × Error) × S → (Bool × Error) × S
remember cache text ((allowed, nil), s) =
    let (kept, s') = cache.set text allowed s in
    elim kept [ ok u ↦ ((allowed, nil), s') | err e ↦ ((true, e), s') ]
remember cache text ((allowed, e), s) = ((true, e), s)

unfoldable pub cached_moderator : {S : Type 0} → Moderator S → ModerationCache S → Moderator S
unfolding remember
cached_moderator moderator cache text s =
    let (held, s') = cache.get text s in
    elim held [
      | err e ↦ ((true, nil), s')
      | ok entry ↦ elim entry [
        | some allowed ↦ ((allowed, nil), s')
        | none ↦ remember cache text (moderator text s')
      ]
    ]

judge-flagged :
    (outcome : Outcome)
    → (judge outcome).0 ≡ false
    → (reply : Reply) × (others : List Bool) × (outcome ≡ replied reply)
      × (reply.status ≡ 200)
      × (reply.results ≡ ok (true ∷ others))
unfolding judge first_flag
judge-flagged (unmarshalled e) h = absurd (ground (arith, h))
judge-flagged (unrequested e) h = absurd (ground (arith, h))
judge-flagged (unreachable e) h = absurd (ground (arith, h))
judge-flagged (replied reply) h = elim (Result-cases reply.results) [
  | inr (e, failed) ↦ absurd (ground (arith, failed, h))
  | inl ([], got) ↦ absurd (ground (arith, got, h))
  | inl (flagged ∷ others, got) ↦ elim (Bool-cases flagged) [
    | inr clean ↦ absurd (ground (arith, got, clean, h))
    | inl dirty ↦ (reply, others, refl, ground (arith, h), ground (arith, got, dirty))
  ]
]

-- The moderator of OpenAI turns a text down only for a reply with status 200 whose first result is
-- flagged. Every other answer lets the text through, but with an error where the reply is not
-- decoded, and a comment with that answer is not added.
pub openai_moderator-flagged :
    {S : Type 0} (ask : String → S → Outcome × S) (text : String) (s s' : S) (outcome : Outcome)
    → trim_space text ≢ ""
    → ask text s ≡ (outcome, s')
    → (((openai_moderator ask text s).0.0 ≡ false)
        → (reply : Reply) × (others : List Bool) × (outcome ≡ replied reply)
          × (reply.status ≡ 200)
          × (reply.results ≡ ok (true ∷ others)))
      × ((reply : Reply) (e : Error)
          → outcome ≡ replied reply
          → reply.status ≡ 200
          → reply.results ≡ err e
          → (x : Error) × (moderated {S = S} (openai_moderator ask text s) ≡ (err x, s')))
unfolding openai_moderator judge moderated new_app_error
openai_moderator-flagged ask text s s' outcome filled asked =
    let unread : str_eq (trim_space text) "" ≡ false =
      ground (arith, filled, eq_iff (trim_space text) "") in
    (
      λ h. judge-flagged outcome (ground (arith, asked, unread, h)),
      λ reply e sent fine bad. (
        new_app_error 500 "Moderation check failed" (wrap "failed to decode moderation response" e),
        ground (arith, asked, unread, sent, fine, bad),
      ),
    )
