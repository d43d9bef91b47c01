-- ===== src/Store/Chats.antt =====
-- src/db/chats.py: chat rows, their status and alias, and the links between parent and child.
pub mod Families
use whatsapp_radar.Base.{
  ℕ, suc, String, ◌≡◌, refl, Bool, true, false, not, ◌&&◌, Option, none, some, List, [], ◌∷◌, ◌++◌,
  map, ◌==◌, eqb, leb, is_none, select, any, find, update_where, count_where, if◌then◌else◌,
}
use whatsapp_radar.Base.Sort.{sort}
use whatsapp_radar.Store.Rows.{ChatRecord, Chat, Db}

abbrev pub same_identity : String → String → Chat → Bool
same_identity source source_chat_id c = c.source == source && c.source_chat_id == source_chat_id

abbrev pub has_id : ℕ → Chat → Bool
has_id i c = eqb c.id i

-- `chat_id_for_source`
unfoldable pub chat_id_for_source : Db → String → String → Option ℕ
chat_id_for_source db source_chat_id source =
    elim (find (same_identity source source_chat_id) db.chats) [ none ↦ none | some c ↦ some c.id ]

-- `get_chat`
unfoldable pub get_chat : Db → ℕ → Option Chat
get_chat db i = find (has_id i) db.chats

-- The statement `INSERT … ON CONFLICT(source, source_chat_id) DO UPDATE`, and the id read back.
unfoldable pub upsert_chat : String → ChatRecord → Db → Db × ℕ
upsert_chat now chat db = elim (find (same_identity chat.source chat.source_chat_id) db.chats) [
  | none ↦ (
    record db {
      chats =
          db.chats
          ++ record {
            id = suc db.last_chat_id;
            source = chat.source;
            source_chat_id = chat.source_chat_id;
            display_name = chat.display_name;
            alias = none;
            chat_type = chat.chat_type;
            status = "discovered";
            first_seen_at = now;
            last_seen_at = now;
            last_message_at = none;
            parent_chat_id = none;
          }
            ∷ [];
      last_chat_id = suc db.last_chat_id;
    },
    suc db.last_chat_id,
  )
  | some row ↦ (
    record db {
      chats =
          update_where (same_identity chat.source chat.source_chat_id)
            (λ c. record c {
              display_name = chat.display_name;
              chat_type = chat.chat_type;
              last_seen_at = now;
            })
            db.chats;
    },
    row.id,
  )
]

-- `UPDATE chats SET … WHERE …`, and whether a row changed.
abbrev pub update_chats : (Chat → Bool) → (Chat → Chat) → Db → Db × Bool
update_chats p f db = (record db { chats = update_where p f db.chats }, any p db.chats)

unfoldable pub set_chat_status : ℕ → String → Db → Db × Bool
set_chat_status i status = update_chats (has_id i) (λ c. record c { status = status })

-- `strip` is Python's; the empty text clears the alias.
unfoldable pub set_chat_alias : (strip : String → String) → ℕ → Option String → Db → Db × Bool
set_chat_alias strip i none = update_chats (has_id i) (λ c. record c { alias = none })
set_chat_alias strip i (some alias) =
    let cleaned = if strip alias == "" then none else some (strip alias) in
    update_chats (has_id i) (λ c. record c { alias = cleaned })

abbrev pub is_child_of : ℕ → Chat → Bool
is_child_of p c = elim c.parent_chat_id [ none ↦ false | some q ↦ eqb q p ]

unfoldable pub child_count : Db → ℕ → ℕ
child_count db p = count_where (is_child_of p) db.chats

abbrev pub leb_id : Chat → Chat → Bool
leb_id a b = leb a.id b.id

-- The head first, then its children by id.
unfoldable pub family_member_ids : Db → ℕ → List ℕ
family_member_ids db head =
    head ∷ map (λ c. c.id) (sort leb_id (select (is_child_of head) db.chats))

-- The messages of `LinkError`.
pub data LinkError : Type 0 where
  self_link parent_not_found parent_is_child child_has_children : LinkError

pub data LinkResult : Type 0 where
  linked : Db → LinkResult
  refused : LinkError → LinkResult

-- The checks on the parent's row and on the child, and the link.
abbrev pub link_under : ℕ → ℕ → Db → Option Chat → LinkResult
link_under child parent db none = refused parent_not_found
link_under child parent db (some row) =
    if not (is_none row.parent_chat_id)
    then refused parent_is_child
    else if not (eqb (child_count db child) 0)
    then refused child_has_children
    else linked (update_chats (has_id child) (λ c. record c { parent_chat_id = some parent }) db).0

unfoldable pub link_chats : ℕ → ℕ → Db → LinkResult
unfolding get_chat child_count
link_chats child parent db =
    if eqb child parent then refused self_link else link_under child parent db (get_chat db parent)

unfoldable pub unlink_chat : ℕ → Db → Db × Bool
unlink_chat child =
    update_chats (λ c. eqb c.id child && not (is_none c.parent_chat_id))
      (λ c. record c { parent_chat_id = none })

-- Family heads only: a linked child is reviewed with its parent.
unfoldable pub monitored_chats : Db → List Chat
monitored_chats db =
    sort leb_id (select (λ c. c.status == "monitored" && is_none c.parent_chat_id) db.chats)

unfoldable pub count_chats : Db → ℕ
count_chats db = count_where (λ c. true) db.chats
