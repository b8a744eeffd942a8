-- ===== src/Middleware/RateLimit/Window.antt =====
-- The specification of the limiter (pkg/middleware/rate_limit.go): a log of the admitted requests,
-- of which at most `limit` lie in any window.
use beer_avaliation_api.Base.{
  ℕ, ◌+◌, ◌<◌, ◌≤◌, ◌≡◌, refl, String, Bool, true, false, List, [], ◌∷◌, ◌++◌, ◌&&◌, arith, ltb,
  leb, if◌then◌else◌, str_eq, eq_iff, length, length-append, select, select-append, Bool-cases, inl,
  inr, ltb→lt,
}
use mathlib.Core.Path.{subst}
use mathlib.Core.List.{append-nil, append_assoc}
use beer_avaliation_api.Middleware.RateLimit.{after_cutoff}

-- A request: when, and for which key.
abbrev pub Call : Type 0
Call = ℕ × String

-- The times at which the log admitted a key.
unfoldable pub log_times : String → List Call → List ℕ
log_times key [] = []
log_times key ((t, k) ∷ log) =
    let rest = log_times key log in if str_eq k key then t ∷ rest else rest

-- A request passes while fewer than `limit` of its key were admitted in the window before it.
unfoldable pub spec_allow : ℕ → ℕ → Call → List Call → List Call × Bool
spec_allow limit window (now, key) log =
    if leb limit (length (select (after_cutoff window now) (log_times key log)))
    then (log, false)
    else (log ++ (now, key) ∷ [], true)

unfoldable pub spec_run : ℕ → ℕ → List Call → List Call → List Bool
spec_run limit window log [] = []
spec_run limit window log (c ∷ cs) =
    let (log', passed) = spec_allow limit window c log in passed ∷ spec_run limit window log' cs

-- Times never decrease.
abbrev pub IsChronological : ℕ → List Call → Type 0
IsChronological from [] = Unit
IsChronological from ((t, k) ∷ cs) = (from ≤ t) × IsChronological t cs

-- The requests that a run admitted.
abbrev pub granted : List Call → List Bool → List Call
granted (c ∷ cs) (true ∷ bs) = c ∷ granted cs bs
granted (c ∷ cs) (false ∷ bs) = granted cs bs
granted [] bs = []
granted (c ∷ cs) [] = []

-- `end - window < t ≤ end`.
abbrev pub in_window : ℕ → ℕ → ℕ → Bool
in_window window end t = ltb end (t + window) && leb t end

pub log_times-append :
    (key : String) (log more : List Call)
    → log_times key (log ++ more) ≡ log_times key log ++ log_times key more
unfolding log_times
log_times-append key [] more = refl
log_times-append key ((t, k) ∷ log) more = ground (arith, log_times-append key log more)

length-select_mono :
    (p q : ℕ → Bool) (xs : List ℕ)
    → ((x : ℕ) → q x ≡ true → p x ≡ true)
    → length (select q xs) ≤ length (select p xs)
unfolding select
length-select_mono p q [] h = omega arith
length-select_mono p q (x ∷ xs) h = ground (arith, h x, length-select_mono p q xs h)

in_window_after :
    (window end now x : ℕ)
    → ltb end now ≡ false
    → in_window window end x ≡ true
    → after_cutoff window now x ≡ true
in_window_after window end now x soon q = ground arith

length-select_one : (p : ℕ → Bool) (x : ℕ) → length (select p (x ∷ [])) ≤ 1
unfolding select
length-select_one p x = ground arith

select_one_late :
    (window end now : ℕ) → end < now → length (select (in_window window end) (now ∷ [])) ≡ 0
unfolding select
select_one_late window end now h = ground arith

-- Every window of the log holds at most `limit` requests of each key.
abbrev pub IsSparse : ℕ → ℕ → List Call → Type 0
IsSparse limit window log =
    (key : String) (end : ℕ) → length (select (in_window window end) (log_times key log)) ≤ limit

log_times_one_ne :
    (key k : String) (now : ℕ) → str_eq k key ≡ false → log_times key ((now, k) ∷ []) ≡ []
unfolding log_times
log_times_one_ne key k now e = ground arith

log_times_one :
    (key k : String) (now : ℕ) → str_eq k key ≡ true → log_times key ((now, k) ∷ []) ≡ now ∷ []
unfolding log_times
log_times_one key k now e = ground arith

length-select-push :
    (p : ℕ → Bool) (key : String) (log : List Call) (c : Call)
    → length (select p (log_times key (log ++ c ∷ [])))
      ≡ length (select p (log_times key log)) + length (select p (log_times key (c ∷ [])))
length-select-push p key log c =
    rw (log_times-append key log (c ∷ []), select-append p (log_times key log))
      (length-append (select p (log_times key log)) (select p (log_times key (c ∷ []))))

length-select_nil : (p : ℕ → Bool) → length (select p []) ≡ 0
unfolding select
length-select_nil p = refl

-- A request of another key changes no window of this one.
push_other :
    (limit window now : ℕ) (k key : String) (log : List Call) (end : ℕ)
    → str_eq k key ≡ false
    → length (select (in_window window end) (log_times key log)) ≤ limit
    → length (select (in_window window end) (log_times key (log ++ (now, k) ∷ []))) ≤ limit
push_other limit window now k key log end e h =
    let p = in_window window end in
    rw (length-select-push p key log (now, k), log_times_one_ne key k now e)
      (omega (arith, h, length-select_nil p))

push_same :
    (limit window now : ℕ) (k : String) (log : List Call) (end : ℕ)
    → length (select (after_cutoff window now) (log_times k log)) < limit
    → length (select (in_window window end) (log_times k log)) ≤ limit
    → length (select (in_window window end) (log_times k (log ++ (now, k) ∷ []))) ≤ limit
push_same limit window now k log end room h =
    let p = in_window window end in
    rw (length-select-push p k log (now, k), log_times_one k k now ((eq_iff k k).1 refl))
      (elim (Bool-cases (ltb end now)) [
        | inl late ↦ omega (arith, h, select_one_late window end now (ltb→lt end now late))
        | inr soon ↦ omega (
          arith,
          room,
          length-select_one p now,
          length-select_mono (after_cutoff window now) p (log_times k log)
              (λ x q. in_window_after window end now x soon q),
        )
      ])

push-IsSparse :
    (limit window now : ℕ) (k : String) (log : List Call)
    → length (select (after_cutoff window now) (log_times k log)) < limit
    → IsSparse limit window log
    → IsSparse limit window (log ++ (now, k) ∷ [])
push-IsSparse limit window now k log room sparse key end = elim (Bool-cases (str_eq k key)) [
  | inl e ↦
      subst
        (λ j. length (select (in_window window end) (log_times j (log ++ (now, k) ∷ []))) ≤ limit)
        ((eq_iff k key).0 e) (push_same limit window now k log end room (sparse k end))
  | inr e ↦ push_other limit window now k key log end e (sparse key end)
]

-- A run of the specification keeps the log sparse.
pub spec_run-IsSparse :
    (limit window : ℕ) (log cs : List Call)
    → IsSparse limit window log
    → IsSparse limit window (log ++ granted cs (spec_run limit window log cs))
unfolding spec_run spec_allow
spec_run-IsSparse limit window log [] h = rw (append-nil log) h
spec_run-IsSparse limit window log ((now, k) ∷ cs) h =
    let log' = log ++ (now, k) ∷ [] in
    elim (Bool-cases (leb limit (length (select (after_cutoff window now) (log_times k log))))) [
      | inl full ↦ rw (full, spec_run, spec_allow) (spec_run-IsSparse limit window log cs h)
      | inr room ↦
          rw (room, spec_run, spec_allow)
            (subst (IsSparse limit window)
              (append_assoc log ((now, k) ∷ []) (granted cs (spec_run limit window log' cs)))
              (spec_run-IsSparse limit window log' cs
                (push-IsSparse limit window now k log (ground arith) h)))
    ]
