-- ===== src/Transcription/Loop.antt =====
-- src/analysis/transcription.py: the loop over the waiting notes, note by note.
use whatsapp_radar.Base.{
  ℕ, suc, ◌+◌, ◌<◌, String, ◌≡◌, refl, sym, subst, ◌⊎◌, inl, inr, Bool, true, false, Option, List,
  [], ◌∷◌, arith, eqb, length, All, count_where, Bool-cases, if◌then◌else◌,
}
use whatsapp_radar.Store.Rows.{StoredMessage}
use whatsapp_radar.Transcription.{
  Windows, Mark, done, skipped_old, failed, Speech, resolve_language, Heard, transcript, broken,
  backend_down, Phase, has_file, delete_audio, settle_note, transcribe_note, transcribe_notes,
}
use whatsapp_radar.Transcription.Told.{shows, AllOf, mark-shows, mark-other, delete-has}

abbrev pub is_done : Mark → Bool
is_done (done text keep) = true
is_done skipped_old = false
is_done failed = false

abbrev pub is_failed : Mark → Bool
is_failed (done text keep) = false
is_failed skipped_old = false
is_failed failed = true

abbrev pub is_skipped : Mark → Bool
is_skipped (done text keep) = false
is_skipped skipped_old = true
is_skipped failed = false

-- The counts of a phase are those of before and of the marks.
abbrev pub AreCounted : Phase → List Mark → Phase → Type 0
AreCounted p marks q =
    (q.done_count ≡ p.done_count + count_where is_done marks)
    × (q.failed_count ≡ p.failed_count + count_where is_failed marks)
    × (q.skipped_count ≡ p.skipped_count + count_where is_skipped marks)

-- The ids of the notes are apart.
abbrev pub AreApart : List StoredMessage → Type 0
AreApart [] = Unit
AreApart (m ∷ ms) = All (λ (e : StoredMessage). eqb e.id m.id ≡ false) ms × AreApart ms

if-true : (b : Bool) (x y : Phase) → b ≡ true → (if b then x else y) ≡ x
if-true true x y t = refl
if-true false x y t = absurd (ground (arith, t))

if-false : (b : Bool) (x y : Phase) → b ≡ false → (if b then x else y) ≡ y
if-false true x y t = absurd (ground (arith, t))
if-false false x y t = refl

module _ (unlinks : String → Bool) (speech : Speech) (v : Windows) where
  -- What a mark of a note rests on: what the transcriber makes of it under some hint, or its missing file.
  abbrev pub IsEarned : StoredMessage → Mark → List String → Type 0
  IsEarned m (done text keep) files =
      (hint : Option String) × (speech.hear m hint ≡ transcript text)
  IsEarned m skipped_old files = has_file m.media_path files ≡ false
  IsEarned m failed files = (hint : Option String) × (speech.hear m hint ≡ broken)

  -- The notes dealt with, each with its mark, which it earned and its rows show.
  abbrev pub AreTold : List StoredMessage → List Mark → Phase → Type 0
  AreTold ms [] q = Unit
  AreTold [] (k ∷ ks) q = true ≡ false
  AreTold (m ∷ ms) (k ∷ ks) q = IsEarned m k q.files × AllOf m.id (shows k) q.db × AreTold ms ks q

  -- Every note is told where there was no outage, and some are left where there was.
  abbrev pub IsFinished : List StoredMessage → List Mark → Phase → Type 0
  IsFinished ms ks q = if q.is_down then length ks < length ms else length ks ≡ length ms

  -- One note: an outage, which counts nothing, or a mark.
  abbrev IsMarked : StoredMessage → Mark → Phase → Phase → Type 0
  IsMarked m k p q =
      (q.is_down ≡ false)
      × IsEarned m k q.files
      × AllOf m.id (shows k) q.db
      × AreCounted p (k ∷ []) q

  abbrev IsStep : StoredMessage → Phase → Phase → Type 0
  IsStep m p q = ((q.is_down ≡ true) × AreCounted p [] q) ⊎ ((k : Mark) × IsMarked m k p q)

  settle_note-IsStep :
      (m : StoredMessage) (hint : Option String) (h : Heard) (p : Phase)
      → speech.hear m hint ≡ h
      → p.is_down ≡ false
      → IsStep m p (settle_note unlinks speech v m h p)
  settle_note-IsStep m hint backend_down p e d = inl (refl, (omega arith, omega arith, omega arith))
  settle_note-IsStep m hint broken p e d =
      inr (
        failed,
        (d, (hint, e), mark-shows m.id failed p.db, (omega arith, omega arith, omega arith)),
      )
  settle_note-IsStep m hint (transcript text) p e d = inr (
    done text v.retains,
    (
      d,
      (hint, e),
      mark-shows m.id (done text v.retains) p.db,
      (omega arith, omega arith, omega arith),
    ),
  )

  transcribe_note-IsStep :
      (m : StoredMessage) (p : Phase)
      → p.is_down ≡ false
      → IsStep m p (transcribe_note unlinks speech v m p)
  unfolding transcribe_note
  transcribe_note-IsStep m p d = elim (Bool-cases (has_file m.media_path p.files)) [
    | inl t ↦
        let hint = resolve_language speech p.db m.chat_id p.languages in
        rw t (
          settle_note-IsStep m hint.0 (speech.hear m hint.0) (record p { languages = hint.1 }) refl
            d)
    | inr t ↦ rw t (
        inr (
          skipped_old,
          (d, t, mark-shows m.id skipped_old p.db, (omega arith, omega arith, omega arith)),
        ))
  ]

  settle_note-stays :
      (i : ℕ) (f : StoredMessage → Bool) (path : Option String) (m : StoredMessage) (h : Heard)
      (p : Phase)
      → eqb m.id i ≡ false
      → (AllOf i f p.db → AllOf i f (settle_note unlinks speech v m h p).db)
        × (has_file path p.files ≡ false
            → has_file path (settle_note unlinks speech v m h p).files ≡ false)
  settle_note-stays i f path m backend_down p n = (λ a. a, λ a. a)
  settle_note-stays i f path m broken p n = (λ a. mark-other i m.id failed f p.db n a, λ a. a)
  settle_note-stays i f path m (transcript text) p n =
      (λ a. mark-other i m.id (done text v.retains) f p.db n a, λ a. kept v.retains a)
    where
      kept :
          (b : Bool)
          → has_file path p.files ≡ false
          → has_file path (if b then p.files else delete_audio unlinks m.media_path p.files) ≡ false
      kept true a = a
      kept false a = delete-has unlinks m.media_path path p.files a

  transcribe_note-stays :
      (i : ℕ) (f : StoredMessage → Bool) (path : Option String) (m : StoredMessage) (p : Phase)
      → eqb m.id i ≡ false
      → (AllOf i f p.db → AllOf i f (transcribe_note unlinks speech v m p).db)
        × (has_file path p.files ≡ false
            → has_file path (transcribe_note unlinks speech v m p).files ≡ false)
  unfolding transcribe_note
  transcribe_note-stays i f path m p n = elim (Bool-cases (has_file m.media_path p.files)) [
    | inl t ↦
        let hint = resolve_language speech p.db m.chat_id p.languages in
        rw t
          (settle_note-stays i f path m (speech.hear m hint.0) (record p { languages = hint.1 }) n)
    | inr t ↦ rw t (λ a. mark-other i m.id skipped_old f p.db n a, λ a. a)
  ]

  loop_stops :
      (m : StoredMessage) (ms : List StoredMessage) (p : Phase)
      → (transcribe_note unlinks speech v m p).is_down ≡ true
      → transcribe_notes unlinks speech v (m ∷ ms) p ≡ transcribe_note unlinks speech v m p
  unfolding transcribe_notes
  loop_stops m ms p t = if-true _ _ _ t

  loop_goes_on :
      (m : StoredMessage) (ms : List StoredMessage) (p : Phase)
      → (transcribe_note unlinks speech v m p).is_down ≡ false
      → transcribe_notes unlinks speech v (m ∷ ms) p
        ≡ transcribe_notes unlinks speech v ms (transcribe_note unlinks speech v m p)
  unfolding transcribe_notes
  loop_goes_on m ms p t = if-false _ _ _ t

  -- The loop leaves the rows of other ids, and brings no file back.
  pub transcribe_notes-stays :
      (i : ℕ) (f : StoredMessage → Bool) (path : Option String) (ms : List StoredMessage)
      (p : Phase)
      → All (λ (e : StoredMessage). eqb e.id i ≡ false) ms
      → (AllOf i f p.db → AllOf i f (transcribe_notes unlinks speech v ms p).db)
        × (has_file path p.files ≡ false
            → has_file path (transcribe_notes unlinks speech v ms p).files ≡ false)
  transcribe_notes-stays i f path [] p n = unfold transcribe_notes in (λ a. a, λ a. a)
  transcribe_notes-stays i f path (m ∷ ms) p n =
      let next = transcribe_note unlinks speech v m p in
      let one = transcribe_note-stays i f path m p n.0 in
      elim (Bool-cases next.is_down) [
        | inl t ↦ rw (loop_stops m ms p t) one
        | inr t ↦
            let rest = transcribe_notes-stays i f path ms next n.1 in
            rw (loop_goes_on m ms p t) (λ a. rest.0 (one.0 a), λ a. rest.1 (one.1 a))
      ]

  abbrev pub Result : List StoredMessage → Phase → Phase → Type 0
  Result ms p q = (ks : List Mark) × AreTold ms ks q × IsFinished ms ks q × AreCounted p ks q

  Result-stop :
      (m : StoredMessage) (ms : List StoredMessage) (p q : Phase)
      → q.is_down ≡ true
      → AreCounted p [] q
      → Result (m ∷ ms) p q
  Result-stop m ms p q t c = ([], tt, rw t (omega arith), c)

  Result-more :
      (m : StoredMessage) (ms : List StoredMessage) (k : Mark) (p next q : Phase)
      → IsEarned m k q.files
      → AllOf m.id (shows k) q.db
      → AreCounted p (k ∷ []) next
      → Result ms next q
      → Result (m ∷ ms) p q
  Result-more m ms k p next q e a c (ks, told, fin, count) = (
    k ∷ ks,
    (e, a, told),
    finished q.is_down fin,
    (omega (arith, c.0, count.0), omega (arith, c.1, count.1), omega (arith, c.2, count.2)),
  )
    where
      finished :
          (b : Bool)
          → (if b then length ks < length ms else length ks ≡ length ms)
          → (if b then suc (length ks) < suc (length ms) else suc (length ks) ≡ suc (length ms))
      finished true h = omega (arith, h)
      finished false h = omega (arith, h)

  IsEarned-stays :
      (m : StoredMessage) (k : Mark) (before after : List String)
      → (has_file m.media_path before ≡ false → has_file m.media_path after ≡ false)
      → IsEarned m k before
      → IsEarned m k after
  IsEarned-stays m (done text keep) before after f e = e
  IsEarned-stays m skipped_old before after f e = f e
  IsEarned-stays m failed before after f e = e

  -- The loop over notes with ids apart gives each note it deals with a mark that it earned, counts the
  -- marks, and deals with all where there was no outage.
  pub transcribe_notes-Result :
      (ms : List StoredMessage) (p : Phase)
      → AreApart ms
      → p.is_down ≡ false
      → Result ms p (transcribe_notes unlinks speech v ms p)
  transcribe_notes-Result [] p a d =
      unfold transcribe_notes in ([], tt, rw d refl, (omega arith, omega arith, omega arith))
  transcribe_notes-Result (m ∷ ms) p a d =
      let next = transcribe_note unlinks speech v m p in
      elim (transcribe_note-IsStep m p d) [
        | inl (t, c) ↦
            subst (Result (m ∷ ms) p) (sym (loop_stops m ms p t)) (Result-stop m ms p next t c)
        | inr (k, (t, e, s, c)) ↦
            let q = transcribe_notes unlinks speech v ms next in
            let stays = transcribe_notes-stays m.id (shows k) m.media_path ms next a.0 in
            subst (Result (m ∷ ms) p) (sym (loop_goes_on m ms p t)) (
              Result-more m ms k p next q (IsEarned-stays m k next.files q.files stays.1 e)
                (stays.0 s) c (transcribe_notes-Result ms next a.1 t))
      ]
