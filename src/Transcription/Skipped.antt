-- ===== src/Transcription/Skipped.antt =====
-- src/analysis/transcription.py: the retention sweep and the skip of stale notes.
use whatsapp_radar.Base.{
  ℕ, suc, ◌+◌, ◌≤◌, String, ◌≡◌, refl, ◌∙◌, ap, inl, inr, Bool, true, false, not, ◌&&◌, Option,
  none, some, List, [], ◌∷◌, ◌==◌, arith, eqb, eqb_refl, eq_iff, any, select, update_where,
  count_where, length, All, Bool-cases, if◌then◌else◌,
}
use whatsapp_radar.Store.Rows.{StoredMessage}
use whatsapp_radar.Transcription.{
  Windows, has_row_id, clear_media_path, skipped_old, marked, mark_transcription, Speech, Phase,
  has_file, delete_audio, sweep_expired, sweep_retained, skip_stale, expired_retained_audio,
}
use whatsapp_radar.Transcription.Told.{shows, AllOf, mark-shows, skip-keeps, delete-has}
use whatsapp_radar.Transcription.Loop.{AreApart}

-- Whether a file that the disk lets go is still there.
abbrev pub lingers : (String → Bool) → Option String → List String → Bool
lingers unlinks none files = false
lingers unlinks (some path) files = (not (path == "") && unlinks path) && has_file (some path) files

select-gone :
    (unlinks : String → Bool) (path : String) (fs : List String)
    → unlinks path ≡ true
    → any (λ f. f == path) (select (λ f. not (f == path && unlinks f)) fs) ≡ false
select-gone unlinks path [] u = refl
select-gone unlinks path (f ∷ fs) u = elim (Bool-cases (f == path)) [
  | inl e ↦
      let same : unlinks f ≡ true = ap unlinks ((eq_iff f path).0 e) ∙ u in
      rw (e, same) (select-gone unlinks path fs u)
  | inr e ↦ rw e (rw e (select-gone unlinks path fs u))
]

delete-own :
    (unlinks : String → Bool) (path : Option String) (files : List String)
    → lingers unlinks path (delete_audio unlinks path files) ≡ false
delete-own unlinks none files = refl
delete-own unlinks (some path) files = elim (Bool-cases (path == "")) [
  | inl e ↦ rw e refl
  | inr e ↦ elim (Bool-cases (unlinks path)) [
    | inr u ↦ rw (e, u) refl
    | inl u ↦ rw (e, u) (select-gone unlinks path files u)
  ]
]

delete-lingers :
    (unlinks : String → Bool) (taken path : Option String) (files : List String)
    → lingers unlinks path files ≡ false
    → lingers unlinks path (delete_audio unlinks taken files) ≡ false
delete-lingers unlinks taken none files h = refl
delete-lingers unlinks taken (some path) files h =
    elim (Bool-cases (not (path == "") && unlinks path)) [
      | inl e ↦ rw e (delete-has unlinks taken (some path) files (rw e at h))
      | inr e ↦ rw e refl
    ]

pub count-select :
    (p q : StoredMessage → Bool) (ms : List StoredMessage)
    → count_where p (select q ms) ≤ count_where p ms
count-select p q [] = omega arith
count-select p q (m ∷ ms) = elim (Bool-cases (q m)) [
  | inl e ↦ rw e (omega (arith, count-select p q ms))
  | inr e ↦ rw e (omega (arith, count-select p q ms))
]

count-update :
    (i : ℕ) (p : StoredMessage → Bool) (f : StoredMessage → StoredMessage) (ms : List StoredMessage)
    → ((x : StoredMessage) → (f x).id ≡ x.id)
    → count_where (has_row_id i) (update_where p f ms) ≡ count_where (has_row_id i) ms
count-update i p f [] g = refl
count-update i p f (m ∷ ms) g = elim (Bool-cases (p m)) [
  | inl e ↦ rw (e, g m) (omega (arith, count-update i p f ms g))
  | inr e ↦ rw e (omega (arith, count-update i p f ms g))
]

-- Where an id stands at most once, the notes are apart.
pub apart : (ms : List StoredMessage) → ((i : ℕ) → count_where (has_row_id i) ms ≤ 1) → AreApart ms
apart [] u = tt
apart (m ∷ ms) u = (others ms first, apart ms (λ i. omega (arith, u i)))
  where
    first : count_where (has_row_id m.id) ms ≡ 0
    first = ground (arith, u m.id, eqb_refl m.id)

    others :
        (es : List StoredMessage)
        → count_where (has_row_id m.id) es ≡ 0
        → All (λ (e : StoredMessage). eqb e.id m.id ≡ false) es
    others [] h = tt
    others (e ∷ es) h = elim (Bool-cases (eqb e.id m.id)) [
      | inl t ↦ let bad = rw t at h in absurd (omega (arith, bad))
      | inr t ↦ (t, others es (let rest = rw t at h in omega (arith, rest)))
    ]

module _ (unlinks : String → Bool) (speech : Speech) (v : Windows) where
  -- A phase goes on from another one with the counts of its notes, and the ids of the rows.
  abbrev pub GoesOn : ℕ → Phase → Phase → Type 0
  GoesOn n p q =
      (q.is_down ≡ p.is_down)
      × (q.done_count ≡ p.done_count)
      × (q.failed_count ≡ p.failed_count)
      × (q.skipped_count ≡ p.skipped_count + n)
      × ((i : ℕ)
          → count_where (has_row_id i) q.db.messages ≡ count_where (has_row_id i) p.db.messages)

  sweep_expired-GoesOn :
      (ms : List StoredMessage) (p : Phase) → GoesOn 0 p (sweep_expired unlinks speech v ms p)
  unfolding sweep_expired clear_media_path
  sweep_expired-GoesOn [] p = (refl, refl, refl, omega arith, λ i. refl)
  sweep_expired-GoesOn (m ∷ ms) p =
      let next : Phase = record p {
        db = clear_media_path m.id p.db;
        files = delete_audio unlinks m.media_path p.files;
        swept_count = suc p.swept_count;
      } in
      let (a, b, c, d, e) = sweep_expired-GoesOn ms next in
      (
        a,
        b,
        c,
        d,
        λ i.
            e i
            ∙ count-update i (has_row_id m.id) (λ x. record x { media_path = none }) p.db.messages
                (λ x. refl),
      )

  pub sweep_retained-GoesOn : (p : Phase) → GoesOn 0 p (sweep_retained unlinks speech v p)
  sweep_retained-GoesOn p = go v.retains
    where
      go :
          (b : Bool)
          → GoesOn 0 p
              (if b then sweep_expired unlinks speech v (expired_retained_audio v p.db) p else p)
      go true = sweep_expired-GoesOn (expired_retained_audio v p.db) p
      go false = (refl, refl, refl, omega arith, λ i. refl)

  pub skip_stale-GoesOn :
      (ms : List StoredMessage) (p : Phase)
      → GoesOn (length ms) p (skip_stale unlinks speech v ms p)
  unfolding skip_stale mark_transcription
  skip_stale-GoesOn [] p = (refl, refl, refl, omega arith, λ i. refl)
  skip_stale-GoesOn (m ∷ ms) p =
      let next : Phase = record p {
        db = mark_transcription m.id skipped_old p.db;
        files = delete_audio unlinks m.media_path p.files;
        skipped_count = suc p.skipped_count;
      } in
      let (a, b, c, d, e) = skip_stale-GoesOn ms next in
      (
        a,
        b,
        c,
        omega (arith, d),
        λ i. e i ∙ count-update i (has_row_id m.id) (marked skipped_old) p.db.messages (λ x. refl),
      )

  -- A note that was skipped: its rows show it, and its file is gone where the disk lets it.
  abbrev pub IsSkipped : Phase → StoredMessage → Type 0
  IsSkipped q m =
      AllOf m.id (shows skipped_old) q.db × (lingers unlinks m.media_path q.files ≡ false)

  skip_stale-keeps :
      (m : StoredMessage) (ms : List StoredMessage) (p : Phase)
      → IsSkipped p m
      → IsSkipped (skip_stale unlinks speech v ms p) m
  unfolding skip_stale
  skip_stale-keeps m [] p h = h
  skip_stale-keeps m (e ∷ ms) p h =
      skip_stale-keeps m ms _ (
        skip-keeps m.id e.id p.db h.0,
        delete-lingers unlinks e.media_path m.media_path p.files h.1,
      )

  pub skip_stale-skips :
      (ms : List StoredMessage) (p : Phase) → All (IsSkipped (skip_stale unlinks speech v ms p)) ms
  unfolding skip_stale
  skip_stale-skips [] p = tt
  skip_stale-skips (m ∷ ms) p =
      let next : Phase = record p {
        db = mark_transcription m.id skipped_old p.db;
        files = delete_audio unlinks m.media_path p.files;
        skipped_count = suc p.skipped_count;
      } in
      (
        skip_stale-keeps m ms next
            (mark-shows m.id skipped_old p.db, delete-own unlinks m.media_path p.files),
        skip_stale-skips ms next,
      )
