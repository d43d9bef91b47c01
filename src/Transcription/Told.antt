-- ===== src/Transcription/Told.antt =====
-- src/analysis/transcription.py: what the loop over the waiting notes tells of each.
use whatsapp_radar.Base.{
  ℕ, String, ◌≡◌, refl, inl, inr, Bool, true, false, not, ◌&&◌, ◌||◌, Option, none, some, List, [],
  ◌∷◌, ◌==◌, arith, eqb, eqb_iff, eq_refl, is_none, is_text, any, select, update_where, All,
  Bool-cases,
}
use whatsapp_radar.Store.Rows.{StoredMessage, Db}
use whatsapp_radar.Transcription.{
  has_row_id, Mark, done, skipped_old, failed, marked, mark_transcription, has_file, delete_audio,
}

-- What a row shows of a mark.
abbrev pub shows : Mark → StoredMessage → Bool
shows (done text keep) x = is_text "done" x.transcription_status && is_text text x.text
shows skipped_old x = is_text "skipped_old" x.transcription_status && is_none x.media_path
shows failed x = is_text "failed" x.transcription_status

-- Every row of the id satisfies the test.
abbrev pub AllOf : ℕ → (StoredMessage → Bool) → Db → Type 0
AllOf i p db = All (λ x. (not (has_row_id i x) || p x) ≡ true) db.messages

pub All-update :
    (i j : ℕ) (p : StoredMessage → Bool) (f : StoredMessage → StoredMessage)
    (ms : List StoredMessage)
    → ((x : StoredMessage)
        → has_row_id j x ≡ true
        → (not (has_row_id i x) || p x) ≡ true
        → (not (has_row_id i (f x)) || p (f x)) ≡ true)
    → All (λ x. (not (has_row_id i x) || p x) ≡ true) ms
    → All (λ x. (not (has_row_id i x) || p x) ≡ true) (update_where (has_row_id j) f ms)
All-update i j p f [] g h = tt
All-update i j p f (x ∷ xs) g h = elim (Bool-cases (has_row_id j x)) [
  | inl e ↦ rw e (g x e h.0, All-update i j p f xs g h.1)
  | inr e ↦ rw e (h.0, All-update i j p f xs g h.1)
]

id-marked : (k : Mark) (x : StoredMessage) → (marked k x).id ≡ x.id
id-marked (done text keep) x = refl
id-marked skipped_old x = refl
id-marked failed x = refl

is_text_refl : (s : String) → is_text s (some s) ≡ true
is_text_refl s = eq_refl s

shows-marked : (k : Mark) (x : StoredMessage) → shows k (marked k x) ≡ true
shows-marked (done text keep) x = rw (is_text_refl text) refl
shows-marked skipped_old x = refl
shows-marked failed x = refl

-- A mark shows in every row of its id.
pub mark-shows : (i : ℕ) (k : Mark) (db : Db) → AllOf i (shows k) (mark_transcription i k db)
unfolding mark_transcription
mark-shows i k db = go db.messages
  where
    go :
        (ms : List StoredMessage)
        → All
            (λ x. (not (has_row_id i x) || shows k x) ≡ true)
            (update_where (has_row_id i) (marked k) ms)
    go [] = tt
    go (x ∷ xs) = elim (Bool-cases (has_row_id i x)) [
      | inl e ↦ rw e (rw (shows-marked k x) (ground arith), go xs)
      | inr e ↦ rw e (rw e refl, go xs)
    ]

-- A mark of another id leaves what rows satisfy.
pub mark-other :
    (i j : ℕ) (k : Mark) (p : StoredMessage → Bool) (db : Db)
    → eqb j i ≡ false
    → AllOf i p db
    → AllOf i p (mark_transcription j k db)
unfolding mark_transcription
mark-other i j k p db n = All-update i j p (marked k) db.messages (λ x e h. other x e)
  where
    other :
        (x : StoredMessage)
        → has_row_id j x ≡ true
        → (not (has_row_id i (marked k x)) || p (marked k x)) ≡ true
    other x e = rw (id-marked k x, (eqb_iff x.id j).0 e, n) refl

-- A skip keeps what skips show.
pub skip-keeps :
    (i j : ℕ) (db : Db)
    → AllOf i (shows skipped_old) db
    → AllOf i (shows skipped_old) (mark_transcription j skipped_old db)
unfolding mark_transcription
skip-keeps i j db =
    All-update i j (shows skipped_old) (marked skipped_old) db.messages (λ x e h. ground arith)

-- The files that a deletion leaves were there before.
pub delete-has :
    (unlinks : String → Bool) (gone path : Option String) (files : List String)
    → has_file path files ≡ false
    → has_file path (delete_audio unlinks gone files) ≡ false
delete-has unlinks none path files h = h
delete-has unlinks (some g) none files h = refl
delete-has unlinks (some g) (some path) files h = elim (Bool-cases (g == "")) [
  | inl e ↦ rw e h
  | inr e ↦ rw e (go files h)
]
  where
    go :
        (fs : List String)
        → any (λ f. f == path) fs ≡ false
        → any (λ f. f == path) (select (λ f. not (f == g && unlinks f)) fs) ≡ false
    go [] k = refl
    go (f ∷ fs) k = ground (arith, k, go fs)
