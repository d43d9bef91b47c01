-- ===== src/TravelBlocks/Desired/Unfed.antt =====
-- src/family/travel_blocks.py: the sweep does not feed on its own blocks.
use whatsapp_radar.Base.{
  ℕ, String, ◌≡◌, refl, ap, ap₂, Bool, true, not, List, [], ◌∷◌, ◌++◌, ◌==◌, select, if◌then◌else◌,
}
use whatsapp_radar.Family.Events.{Moment, CalendarEvent, Words, Calendars}
use whatsapp_radar.TravelBlocks.Desired.{
  is_travel_block, person_requests, requests_of, desired_legs,
}

-- Two lists of events that are the same but for the blocks among them.
abbrev pub own : CalendarEvent → Bool
own e = not (is_travel_block e)

-- A person's events, and blocks put among them anywhere.
pub data WithBlocks : List CalendarEvent → List CalendarEvent → Type 0 where
  done : WithBlocks [] []
  event :
      {e : CalendarEvent} {xs ys : List CalendarEvent}
      → WithBlocks xs ys
      → WithBlocks (e ∷ xs) (e ∷ ys)
  block :
      {b : CalendarEvent} {xs ys : List CalendarEvent}
      → is_travel_block b ≡ true
      → WithBlocks xs ys
      → WithBlocks xs (b ∷ ys)

-- Calendars of the same persons, with blocks put among their events.
pub data Fed : Calendars → Calendars → Type 0 where
  nobody : Fed [] []
  person :
      {name : String} {xs ys : List CalendarEvent} {rest more : Calendars}
      → WithBlocks xs ys
      → Fed rest more
      → Fed ((name, xs) ∷ rest) ((name, ys) ∷ more)

select-own : {xs ys : List CalendarEvent} → WithBlocks xs ys → select own ys ≡ select own xs
select-own done = refl
select-own (event {e = e} w) = ap (λ zs. if own e then e ∷ zs else zs) (select-own w)
select-own (block t w) = rw t (select-own w)

module _ (w : Words) (home : String) (lookback : ℕ) (keywords : List String)
    (horizon_start horizon_end : Moment) where
  requests_of-Fed :
      {before after : Calendars}
      → Fed before after
      → requests_of w home lookback keywords horizon_start horizon_end after
        ≡ requests_of w home lookback keywords horizon_start horizon_end before
  unfolding requests_of
  requests_of-Fed nobody = refl
  requests_of-Fed (person {name = name} b f) =
      ap₂
        (λ xs ys. person_requests w home lookback keywords horizon_start horizon_end name xs ++ ys)
        (select-own b) (requests_of-Fed f)

  -- Blocks of the sweep that stand among the events of the calendars, however many and wherever,
  -- change nothing in what it asks for.
  pub desired_legs-Fed :
      (before after : Calendars)
      → Fed before after
      → desired_legs w home lookback keywords horizon_start horizon_end after
        ≡ desired_legs w home lookback keywords horizon_start horizon_end before
  unfolding desired_legs
  desired_legs-Fed before after f =
      ap (λ rs. if w.strip home == "" then [] else rs) (requests_of-Fed f)
