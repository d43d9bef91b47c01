-- ===== src/TravelBlocks/Desired/Horizon.antt =====
-- src/family/travel_blocks.py: the events that the asked drives come from.
use whatsapp_radar.Base.{
  ℕ, ◌≤◌, String, ◌≡◌, refl, inl, inr, Bool, true, false, not, ◌&&◌, ◌||◌, Option, none, some, List,
  [], ◌∷◌, arith, leb, All, All-append, Bool-cases,
}
use whatsapp_radar.Base.Sort.{All-sort}
use whatsapp_radar.Family.Events.{Moment, CalendarEvent, Words, before, until}
use whatsapp_radar.Family.Addresses.{same_address}
use whatsapp_radar.Family.Commutes.{resolve_origin}
use whatsapp_radar.TravelBlocks.Desired.{
  LegRequest, Placed, placed_by_start, drive_destination, outbound_requests, return_requests,
  in_horizon, with_place, placed_events, person_requests,
}
use whatsapp_radar.TravelBlocks.Planned.Boxes.{IsAnchored}

module _ (w : Words) (home : String) (lookback : ℕ) (keywords : List String)
    (horizon_start horizon_end : Moment) where
  -- An event is of the horizon and of part of a day, and ends by `limit` if it is no block.
  abbrev pub may_place : ℕ → CalendarEvent → Bool
  may_place limit e =
      not (not e.all_day && in_horizon w home lookback keywords horizon_start horizon_end e)
      || leb e.finish.instant limit

  -- The source lies in the horizon; the anchor is one of its ends, and no later than `limit`.
  abbrev pub IsGrounded : ℕ → LegRequest → Type 0
  IsGrounded limit r =
      IsAnchored r
      × (r.anchor.instant ≤ limit)
      × ((until horizon_start r.source_start && before r.source_start horizon_end) ≡ true)

  abbrev IsRight : ℕ → Placed → Type 0
  IsRight limit p =
      (p.0.start.instant ≤ limit)
      × (p.0.finish.instant ≤ limit)
      × ((until horizon_start p.0.start && before p.0.start horizon_end) ≡ true)

  drive_destination-timed :
      (e : CalendarEvent) (destination : String)
      → drive_destination w home lookback keywords e ≡ some destination
      → e.all_day ≡ false
  unfolding drive_destination
  drive_destination-timed e destination h = elim (Bool-cases e.all_day) [
    | inl a ↦ let no_drive : none ≡ some destination = rw a at h in cc
    | inr a ↦ a
  ]

  with_place-IsRight :
      (limit : ℕ) (e : CalendarEvent) (o : Option String) (rest : List Placed)
      → drive_destination w home lookback keywords e ≡ o
      → horizon_end.instant ≤ limit
      → may_place limit e ≡ true
      → in_horizon w home lookback keywords horizon_start horizon_end e ≡ true
      → All (IsRight limit) rest
      → All (IsRight limit) (with_place w home lookback keywords horizon_start horizon_end e o rest)
  with_place-IsRight limit e none rest d l m t r = r
  with_place-IsRight limit e (some destination) rest d l m t r =
      let timed = drive_destination-timed e destination d in ((ground arith, ground arith, t), r)

  placed_events-IsRight :
      (limit : ℕ) (es : List CalendarEvent)
      → horizon_end.instant ≤ limit
      → All (λ e. may_place limit e ≡ true) es
      → All (IsRight limit) (placed_events w home lookback keywords horizon_start horizon_end es)
  unfolding placed_events
  placed_events-IsRight limit [] l m = tt
  placed_events-IsRight limit (e ∷ es) l m =
      elim (Bool-cases (in_horizon w home lookback keywords horizon_start horizon_end e)) [
        | inl t ↦ rw t (
            with_place-IsRight limit e (drive_destination w home lookback keywords e) _ refl l m.0 t
              (placed_events-IsRight limit es l m.1))
        | inr t ↦ rw t (placed_events-IsRight limit es l m.1)
      ]

  outbound_requests-IsGrounded :
      (limit : ℕ) (person : String) (events : List CalendarEvent) (ps : List Placed)
      → All (IsRight limit) ps
      → All (IsGrounded limit) (outbound_requests w home lookback keywords person events ps)
  unfolding outbound_requests
  outbound_requests-IsGrounded limit person events [] h = tt
  outbound_requests-IsGrounded limit person events (p ∷ ps) h =
      elim (Bool-cases (same_address w (resolve_origin w home lookback p.0 events) p.1)) [
        | inl t ↦ rw t (outbound_requests-IsGrounded limit person events ps h.1)
        | inr t ↦
            rw t ((refl, h.0.0, h.0.2), outbound_requests-IsGrounded limit person events ps h.1)
      ]

  return_requests-IsGrounded :
      (limit : ℕ) (person : String) (outbound : List LegRequest) (ps : List Placed)
      → All (IsRight limit) ps
      → All (IsGrounded limit) (return_requests w home lookback keywords person outbound ps)
  unfolding return_requests
  return_requests-IsGrounded limit person outbound [] h = tt
  return_requests-IsGrounded limit person outbound (p ∷ ps) h =
      ((refl, h.0.1, h.0.2), return_requests-IsGrounded limit person outbound ps h.1)

  pub person_requests-IsGrounded :
      (limit : ℕ) (person : String) (events : List CalendarEvent)
      → horizon_end.instant ≤ limit
      → All (λ e. may_place limit e ≡ true) events
      → All
          (IsGrounded limit)
          (person_requests w home lookback keywords horizon_start horizon_end person events)
  unfolding person_requests
  person_requests-IsGrounded limit person events l m =
      let right =
        All-sort placed_by_start (IsRight limit)
          (placed_events w home lookback keywords horizon_start horizon_end events)
          (placed_events-IsRight limit events l m) in
      All-append (IsGrounded limit) _ _ (outbound_requests-IsGrounded limit person events _ right)
        (return_requests-IsGrounded limit person _ _ right)
