-- ===== src/Beer/Usecase/Steps.antt =====
-- The steps on a list of comments (internal/beer/usecase/beer_usecase.go): which comment they
-- change, and that likes are counted once each.
use beer_avaliation_api.Base.{
  ◌≡◌, ◌≢◌, inl, inr, refl, String, true, false, some, List, [], ◌∷◌, ◌++◌, arith, eq_iff, str_eq,
  length, length-append, All, Option-cases, Bool-cases,
}
use mathlib.Core.Path.{subst}
use beer_avaliation_api.Errors.{nil, new_app_error}
use beer_avaliation_api.Results.{ok, err, Result-cases}
use beer_avaliation_api.Middleware.Context.{Context, is_admin_iff}
use beer_avaliation_api.Beer.Model.{Comment}
use beer_avaliation_api.Beer.Usecase.Comments.{
  cut_comment, delete_step, contains, like_one, like_step,
}

-- `c` is the first comment of the identifier, with the comments before and after it.
pub record IsFirst (comment_id : String) (old before : List Comment) (c : Comment)
    (after : List Comment) : Type 0 where
  pub whole : old ≡ before ++ (c ∷ after)
  pub named : c.id ≡ comment_id
  pub others : All (λ other. other.id ≢ comment_id) before

abbrev pub Other : String → Comment → Type 0
Other comment_id c = c.id ≢ comment_id

pub cut_comment-some :
    (comment_id : String) (old new : List Comment)
    → cut_comment comment_id old ≡ some new
    → (before : List Comment) × (c : Comment) × (after : List Comment) × IsFirst comment_id old
        before c after
      × (new ≡ before ++ after)
unfolding cut_comment
cut_comment-some comment_id [] new h = absurd (ground (arith, h))
cut_comment-some comment_id (c ∷ cs) new h = elim (Bool-cases (str_eq c.id comment_id)) [
  | inl same ↦ (
    [],
    c,
    cs,
    record { whole = refl; named = (eq_iff c.id comment_id).0 same; others = tt },
    ground (arith, same, h),
  )
  | inr differs ↦ elim (Option-cases (cut_comment comment_id cs)) [
    | inl e ↦ absurd (ground (arith, differs, e, h))
    | inr (rest, e) ↦
        let (before, d, after, first, cut) = cut_comment-some comment_id cs rest e in
        (
          c ∷ before,
          d,
          after,
          record {
            whole = ground (arith, first.whole);
            named = first.named;
            others = (ground (arith, differs, eq_iff c.id comment_id), first.others);
          },
          ground (arith, differs, e, h, cut),
        )
  ]
]

pub like_step-ok :
    (liker comment_id : String) (old new : List Comment)
    → like_step liker comment_id old ≡ ok new
    → (before : List Comment) × (c : Comment) × (after : List Comment) × IsFirst comment_id old
        before c after
      × (contains liker c.liked_by ≡ false)
      × (new ≡ before ++ (like_one liker c ∷ after))
unfolding like_step
like_step-ok liker comment_id [] new h = absurd (ground (arith, h))
like_step-ok liker comment_id (c ∷ cs) new h = elim (Bool-cases (str_eq c.id comment_id)) [
  | inl same ↦ (
    [],
    c,
    cs,
    record { whole = refl; named = (eq_iff c.id comment_id).0 same; others = tt },
    ground (arith, same, h),
    ground (arith, same, h),
  )
  | inr differs ↦ elim (Result-cases (like_step liker comment_id cs)) [
    | inr (x, e) ↦ absurd (ground (arith, differs, e, h))
    | inl (rest, e) ↦
        let (before, d, after, first, fresh, made) = like_step-ok liker comment_id cs rest e in
        (
          c ∷ before,
          d,
          after,
          record {
            whole = ground (arith, first.whole);
            named = first.named;
            others = (ground (arith, differs, eq_iff c.id comment_id), first.others);
          },
          fresh,
          ground (arith, differs, e, h, made),
        )
  ]
]

contains-append_self : (x : String) (xs : List String) → contains x (xs ++ (x ∷ [])) ≡ true
unfolding contains
contains-append_self x [] = ground (arith, eq_iff x x)
contains-append_self x (y ∷ ys) = ground (arith, contains-append_self x ys)

contains-append_other :
    (x y : String) (xs : List String)
    → contains x xs ≡ false
    → x ≢ y
    → contains x (xs ++ (y ∷ [])) ≡ false
unfolding contains
contains-append_other x y [] h n = ground (arith, eq_iff y x)
contains-append_other x y (z ∷ zs) h n = ground (arith, contains-append_other x y zs)

-- A second like by the same liker of the same comment is refused.
pub like_step_twice :
    (liker comment_id : String) (old new : List Comment)
    → like_step liker comment_id old ≡ ok new
    → like_step liker comment_id new ≡ err (new_app_error 400 "already liked" nil)
unfolding like_step like_one
like_step_twice liker comment_id [] new h = absurd (ground (arith, h))
like_step_twice liker comment_id (c ∷ cs) new h = elim (Bool-cases (str_eq c.id comment_id)) [
  | inl same ↦ ground (arith, same, h, contains-append_self liker c.liked_by)
  | inr differs ↦ elim (Result-cases (like_step liker comment_id cs)) [
    | inr (x, e) ↦ absurd (ground (arith, differs, e, h))
    | inl (rest, e) ↦ ground (arith, differs, e, h, like_step_twice liker comment_id cs rest e)
  ]
]

abbrev pub NoRepeats : List String → Type 0
NoRepeats [] = Unit
NoRepeats (x ∷ xs) = (contains x xs ≡ false) × NoRepeats xs

-- The number of likes is the number of those who like, none of them named twice.
abbrev pub IsCounted : Comment → Type 0
IsCounted c = (c.likes ≡ length c.liked_by) × NoRepeats c.liked_by

NoRepeats-append :
    (x : String) (xs : List String)
    → contains x xs ≡ false
    → NoRepeats xs
    → NoRepeats (xs ++ (x ∷ []))
unfolding contains
NoRepeats-append x [] h k = (refl, tt)
NoRepeats-append x (y ∷ ys) h (fresh, k) = (
  contains-append_other y x ys fresh (ground (arith, h, eq_iff y x)),
  NoRepeats-append x ys (ground (arith, h)) k,
)

like_one-IsCounted :
    (liker : String) (c : Comment)
    → contains liker c.liked_by ≡ false
    → IsCounted c
    → IsCounted (like_one liker c)
unfolding like_one
like_one-IsCounted liker c fresh (counted, k) = (
  ground (arith, counted, length-append c.liked_by (liker ∷ [])),
  NoRepeats-append liker c.liked_by fresh k,
)

pub like_step-IsCounted :
    (liker comment_id : String) (old new : List Comment)
    → like_step liker comment_id old ≡ ok new
    → All IsCounted old
    → All IsCounted new
unfolding like_step
like_step-IsCounted liker comment_id [] new h counted = absurd (ground (arith, h))
like_step-IsCounted liker comment_id (c ∷ cs) new h (here, rest) =
    elim (Bool-cases (str_eq c.id comment_id)) [
      | inl same ↦
          let reached : like_one liker c ∷ cs ≡ new = (ground (arith, same, h)) in
          subst (All IsCounted) reached
            (like_one-IsCounted liker c (ground (arith, same, h)) here, rest)
      | inr differs ↦ elim (Result-cases (like_step liker comment_id cs)) [
        | inr (x, e) ↦ absurd (ground (arith, differs, e, h))
        | inl (others, e) ↦
            let reached : c ∷ others ≡ new = (ground (arith, differs, e, h)) in
            subst (All IsCounted) reached
              (here, like_step-IsCounted liker comment_id cs others e rest)
      ]
    ]

pub cut_comment-All :
    (P : Comment → Type 0) (comment_id : String) (old new : List Comment)
    → cut_comment comment_id old ≡ some new
    → All P old
    → All P new
unfolding cut_comment
cut_comment-All P comment_id [] new h kept = absurd (ground (arith, h))
cut_comment-All P comment_id (c ∷ cs) new h (here, rest) =
    elim (Bool-cases (str_eq c.id comment_id)) [
      | inl same ↦ let reached : cs ≡ new = (ground (arith, same, h)) in subst (All P) reached rest
      | inr differs ↦ elim (Option-cases (cut_comment comment_id cs)) [
        | inl e ↦ absurd (ground (arith, differs, e, h))
        | inr (others, e) ↦
            let reached : c ∷ others ≡ new = (ground (arith, differs, e, h)) in
            subst (All P) reached (here, cut_comment-All P comment_id cs others e rest)
      ]
    ]

-- A deletion that goes through was asked for by an administrator.
pub delete_step-ok :
    (ctx : Context) (comment_id : String) (old new : List Comment)
    → delete_step ctx comment_id old ≡ ok new
    → (ctx.role ≡ some "admin") × (cut_comment comment_id old ≡ some new)
unfolding delete_step
delete_step-ok ctx comment_id old new h = elim (Option-cases (cut_comment comment_id old)) [
  | inl e ↦ absurd (ground (arith, e, h))
  | inr (others, e) ↦ (ground (arith, e, h, is_admin_iff ctx), ground (arith, e, h))
]
