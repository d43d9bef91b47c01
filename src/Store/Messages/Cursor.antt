-- ===== src/Store/Messages/Cursor.antt =====
-- What the cursor of a chat is after it was written, and the greatest ingestion id of a list.
use whatsapp_radar.Base.{
  ℕ, ◌≤◌, String, ◌≡◌, refl, inl, inr, Option, some, List, [], ◌∷◌, arith, eqb, any, true, ltb,
  ltb→lt, find, All, Bool-cases, if◌then◌else◌,
}
use whatsapp_radar.Store.Rows.{StoredMessage, RollingContext, ReviewState, Db}
use whatsapp_radar.Store.Messages.{state_of, cursor, put_state, advance_cursor, last_by_id}

find-put_state :
    (k : ℕ) (s : ReviewState) (ts : List ReviewState)
    → find (state_of k) (put_state s ts)
      ≡ (if eqb s.chat_id k then some s else find (state_of k) ts)
find-put_state k s [] = refl
find-put_state k s (t ∷ ts) = ground (arith, find-put_state k s ts)

-- The cursor of the chat that was advanced is the given id; every other chat keeps its cursor.
pub cursor-advance :
    (now : String) (c i : ℕ) (t : String) (r : Option RollingContext) (db : Db) (k : ℕ)
    → cursor (advance_cursor now c i t r db) k ≡ (if eqb c k then some i else cursor db k)
unfolding cursor advance_cursor
cursor-advance now c i t r db k = ground (
  arith,
  find-put_state k
      (record {
        chat_id = c;
        last_reviewed_at = now;
        last_processed_message_id = i;
        last_processed_message_timestamp = t;
        rolling_context = r;
      })
      db.states,
)

-- What bounds the greatest id bounds every id.
last_by_id-le :
    (m : StoredMessage) (ms : List StoredMessage) (n : ℕ)
    → (last_by_id m ms).id ≤ n
    → (m.id ≤ n) × All (λ x. x.id ≤ n) ms
unfolding last_by_id
last_by_id-le m [] n h = (h, tt)
last_by_id-le m (x ∷ xs) n h = elim (Bool-cases (ltb m.id x.id)) [
  | inl e ↦
      let r = last_by_id-le x xs n (rw (e, last_by_id) at h) in
      (omega (arith, ltb→lt m.id x.id e, r.0), (r.0, r.1))
  | inr e ↦
      let r = last_by_id-le m xs n (rw (e, last_by_id) at h) in (r.0, (ground (arith, r.0), r.1))
]

pub last_by_id-bounds :
    (m : StoredMessage) (ms : List StoredMessage) → All (λ x. x.id ≤ (last_by_id m ms).id) (m ∷ ms)
last_by_id-bounds m ms = last_by_id-le m ms (last_by_id m ms).id (omega arith)

-- Whatever holds of every message of the list holds of that one.
pub All-last_by_id :
    (P : StoredMessage → Type 0) (m : StoredMessage) (ms : List StoredMessage)
    → P m
    → All P ms
    → P (last_by_id m ms)
unfolding last_by_id
All-last_by_id P m [] h a = h
All-last_by_id P m (x ∷ xs) h a = elim (Bool-cases (ltb m.id x.id)) [
  | inl e ↦ rw e (All-last_by_id P x xs a.0 a.1)
  | inr e ↦ rw e (All-last_by_id P m xs h a.1)
]

last_by_id-found :
    (m : StoredMessage) (ms : List StoredMessage) (i : ℕ)
    → (last_by_id m ms).id ≡ i
    → any (λ x. eqb x.id i) (m ∷ ms) ≡ true
unfolding last_by_id
last_by_id-found m [] i h = ground (arith, h)
last_by_id-found m (x ∷ xs) i h = elim (Bool-cases (ltb m.id x.id)) [
  | inl e ↦ ground (arith, last_by_id-found x xs i (rw (e, last_by_id) at h))
  | inr e ↦ ground (arith, last_by_id-found m xs i (rw (e, last_by_id) at h))
]

-- It is an id of the list.
pub last_by_id-among :
    (m : StoredMessage) (ms : List StoredMessage)
    → any (λ x. eqb x.id (last_by_id m ms).id) (m ∷ ms) ≡ true
last_by_id-among m ms = last_by_id-found m ms (last_by_id m ms).id refl
