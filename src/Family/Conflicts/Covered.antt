-- ===== src/Family/Conflicts/Covered.antt =====
-- src/family/rules.py: a day without conflicts is covered, and the hours of a day lie in it.
use whatsapp_radar.Base.{
  ℕ, String, ◌≤◌, ◌<◌, ◌≡◌, refl, ap, ◌∙◌, sym, inl, inr, Bool, true, false, not, ◌&&◌, ◌||◌,
  Option, none, some, List, [], ◌∷◌, ◌++◌, arith, ◌==◌, eq_refl, any, any-select, select, map, All,
  All-append, All-map, ltb, eqb, if◌then◌else◌, Bool-cases, is_text,
}
use whatsapp_radar.Family.Events.{CalendarEvent, Words, Calendars}
use whatsapp_radar.Family.Conflicts.{
  FamilyConfig, ChildcareWindow, Day, Hours, Conflict, is_empty, time_of, parse_hhmm, clamped,
  hours_of, window_at, childcare_hours, kids_home_hours, day_windows, is_away, away, available,
  responsible, on_duty_away, conflicts_of, conflicts_in, find_conflicts, split_colon,
}

-- The hours of a window, as minutes of one day.
abbrev pub InDay : Hours → Type 0
InDay (label, start, finish) = (start ≤ finish) × (finish < 1440)

IsTime : Option ℕ → Type 0
IsTime none = Unit
IsTime (some t) = t < 1440

time_of-IsTime : (h m : Option ℕ) → IsTime (time_of h m)
unfolding IsTime
time_of-IsTime none m = tt
time_of-IsTime (some h) none = tt
time_of-IsTime (some h) (some m) = elim (Bool-cases (ltb h 24 && ltb m 60)) [
  | inl t ↦ rw t (ground arith)
  | inr t ↦ rw t tt
]

parse_hhmm-IsTime : (d : Day) (value : String) → IsTime (parse_hhmm d value)
unfolding parse_hhmm IsTime
parse_hhmm-IsTime d value = go (split_colon value)
  where
    go :
        (pieces : List String)
        → IsTime (elim pieces [ hh ∷ mm ∷ [] ↦ time_of (d.int hh) (d.int mm) | other ↦ none ])
    go [] = tt
    go (hh ∷ []) = tt
    go (hh ∷ mm ∷ []) = time_of-IsTime (d.int hh) (d.int mm)
    go (hh ∷ mm ∷ more ∷ pieces) = tt

clamped-InDay :
    (label : String) (start : ℕ) (finish : Option ℕ)
    → start < 1440
    → IsTime finish
    → InDay (label, start, clamped start finish)
unfolding IsTime
clamped-InDay label start none s f = (omega arith, s)
clamped-InDay label start (some t) s f = elim (Bool-cases (ltb t start)) [
  | inl u ↦ rw u (omega arith, s)
  | inr u ↦ rw u (ground arith, f)
]

window_at-InDay :
    (d : Day) (window : ChildcareWindow) (start : Option ℕ)
    → IsTime start
    → All InDay (window_at d window start)
unfolding window_at IsTime
window_at-InDay d window none s = tt
window_at-InDay d window (some start) s = (
  clamped-InDay window.label start
      (if window.end_time == "" then some start else parse_hhmm d window.end_time) s end_,
  tt,
)
  where
    end_ : IsTime (if window.end_time == "" then some start else parse_hhmm d window.end_time)
    end_ = elim (Bool-cases (window.end_time == "")) [
      | inl e ↦ rw e s
      | inr e ↦ rw e (parse_hhmm-IsTime d window.end_time)
    ]

childcare_hours-InDay :
    (d : Day) (windows : List ChildcareWindow) → All InDay (childcare_hours d windows)
unfolding childcare_hours hours_of
childcare_hours-InDay d [] = tt
childcare_hours-InDay d (window ∷ windows) =
    All-append InDay (hours_of d window) (childcare_hours d windows) here
      (childcare_hours-InDay d windows)
  where
    here : All InDay (hours_of d window)
    here = elim (Bool-cases (any (λ n. eqb n d.weekday) window.weekdays)) [
      | inl e ↦
          rw e
            (window_at-InDay d window (parse_hhmm d window.time) (parse_hhmm-IsTime d window.time))
      | inr e ↦ rw e tt
    ]

kids_home_hours-InDay : (d : Day) (t : Option ℕ) → IsTime t → All InDay (kids_home_hours d t)
unfolding kids_home_hours IsTime
kids_home_hours-InDay d none h = tt
kids_home_hours-InDay d (some t) h = elim (Bool-cases (ltb d.weekday 5)) [
  | inl e ↦ rw e ((omega arith, h), tt)
  | inr e ↦ rw e tt
]

-- All windows of a day, the configured ones and the kids' return, start and end at a time of that
-- day, and none ends before it starts, whatever texts the configuration has.
pub day_windows-InDay : (family : FamilyConfig) (d : Day) → All InDay (day_windows family d)
unfolding day_windows
day_windows-InDay family d =
    All-append InDay (childcare_hours d family.childcare_windows)
      (kids_home_hours d (parse_hhmm d family.kids_home_time))
      (childcare_hours-InDay d family.childcare_windows)
      (kids_home_hours-InDay d (parse_hhmm d family.kids_home_time)
        (parse_hhmm-IsTime d family.kids_home_time))

append-nil_left : (xs ys : List Conflict) → xs ++ ys ≡ [] → xs ≡ []
append-nil_left [] ys e = refl
append-nil_left (x ∷ xs) ys e = absurd (ground (arith, e))

append-nil_right : (xs ys : List Conflict) → xs ++ ys ≡ [] → ys ≡ []
append-nil_right [] ys e = e
append-nil_right (x ∷ xs) ys e = absurd (ground (arith, e))

none_shown :
    (a b : Bool) (x y : Conflict)
    → (if a then x ∷ [] else if b then y ∷ [] else []) ≡ []
    → (a ≡ false) × (b ≡ false)
none_shown true b x y e = absurd (ground (arith, e))
none_shown false true x y e = absurd (ground (arith, e))
none_shown false false x y e = (refl, refl)

any-none :
    (p : String × List CalendarEvent → Bool) (xs : Calendars) → any (λ x. p x && false) xs ≡ false
any-none p [] = refl
any-none p (x ∷ xs) = ground (arith, any-none p xs)

any-map :
    (q : String → Bool) (f : String × List CalendarEvent → String) (xs : Calendars)
    → any q (map f xs) ≡ any (λ x. q (f x)) xs
any-map q f [] = refl
any-map q f (x ∷ xs) = ap (λ b. q (f x) || b) (any-map q f xs)

-- People as a name and anything else, of whom those for whom `out` is true are out.
module _ (out : String × List CalendarEvent → Bool) where
  -- The name of someone who is out is one of `names`.
  abbrev IsNoted : List String → String × List CalendarEvent → Type 0
  IsNoted names p = (not (out p) || any (λ name. name == p.0) names) ≡ true

  names-IsNoted : (people : Calendars) → All (IsNoted (map (λ p. p.0) (select out people))) people
  names-IsNoted [] = tt
  names-IsNoted (p ∷ people) = go (out p) refl (names-IsNoted people)
    where
      go :
          (c : Bool)
          → out p ≡ c
          → All (IsNoted (map (λ q. q.0) (select out people))) people
          → IsNoted (map (λ q. q.0) (if c then p ∷ select out people else select out people)) p
            × All
                (IsNoted (map (λ q. q.0) (if c then p ∷ select out people else select out people)))
                people
      go true e rest = (
        ground (arith, eq_refl p.0),
        All-map (IsNoted (map (λ q. q.0) (select out people)))
            (IsNoted (p.0 ∷ map (λ q. q.0) (select out people))) people (λ q h. ground (arith, h))
            rest,
      )
      go false e rest = (rw e refl, rest)

  someone_in :
      (names : List String) (people : Calendars)
      → All (IsNoted names) people
      → is_empty (select (λ p. not (any (λ name. name == p.0) names)) people) ≡ false
      → any (λ p. not (out p)) people ≡ true
  someone_in names [] n e = absurd (ground (arith, e))
  someone_in names (p ∷ people) n e = elim (Bool-cases (any (λ name. name == p.0) names)) [
    | inl t ↦ ground (arith, someone_in names people n.1 (rw t at e))
    | inr t ↦ ground (arith, n.0)
  ]

module _ (w : Words) (family : FamilyConfig) (d : Day) (calendars : Calendars) where
  -- Someone is not away, and the person on duty, if there is one, is not.
  abbrev pub IsCovered : Hours → Type 0
  IsCovered hours =
      (any (λ p. not (is_away w family d calendars hours p)) calendars ≡ true)
      × (any
            (λ p.
              is_away w family d calendars hours p
              && is_text p.0 (responsible w family d calendars))
            calendars
          ≡ false)

  on_duty_away-any :
      (hours : Hours) (r : Option String)
      → on_duty_away w family d calendars hours r
        ≡ any (λ p. is_away w family d calendars hours p && is_text p.0 r) calendars
  unfolding away
  on_duty_away-any hours none = sym (any-none (is_away w family d calendars hours) calendars)
  on_duty_away-any hours (some person) =
      any-map (λ name. person == name) (λ p. p.0)
        (select (is_away w family d calendars hours) calendars)
      ∙ any-select (λ p. person == p.0) (is_away w family d calendars hours) calendars

  conflicts_of-IsCovered :
      (hours : Hours) → conflicts_of w family d calendars hours ≡ [] → IsCovered hours
  unfolding conflicts_of away available
  conflicts_of-IsCovered hours e = (
    someone_in (is_away w family d calendars hours) (away w family d calendars hours) calendars
        (names-IsNoted (is_away w family d calendars hours) calendars) shown.1,
    sym (on_duty_away-any hours (responsible w family d calendars)) ∙ shown.0,
  )
    where
      shown :
          (on_duty_away w family d calendars hours (responsible w family d calendars) ≡ false)
          × (is_empty (available w family d calendars hours) ≡ false)
      shown = none_shown _ _ _ _ e

  conflicts_in-IsCovered :
      (windows : List Hours)
      → conflicts_in w family d calendars windows ≡ []
      → All IsCovered windows
  unfolding conflicts_in
  conflicts_in-IsCovered [] e = tt
  conflicts_in-IsCovered (hours ∷ windows) e = (
    conflicts_of-IsCovered hours (
        append-nil_left (conflicts_of w family d calendars hours)
          (conflicts_in w family d calendars windows) e),
    conflicts_in-IsCovered windows (
        append-nil_right (conflicts_of w family d calendars hours)
          (conflicts_in w family d calendars windows) e),
  )

  -- When the check finds no conflict in a day, then in each of its windows somebody of the calendars
  -- is not away, and the person on duty that day, if one is named, is not away.
  pub find_conflicts-IsCovered :
      find_conflicts w family d calendars ≡ [] → All IsCovered (day_windows family d)
  unfolding find_conflicts
  find_conflicts-IsCovered e = conflicts_in-IsCovered (day_windows family d) e
