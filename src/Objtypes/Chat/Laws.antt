-- ===== src/Objtypes/Chat/Laws.antt =====
-- The members and the messages of a room.
use event_watch.Base.{
  ◌≤◌, ◌≡◌, ◌≢◌, refl, String, not, List, [], ◌∷◌, ◌++◌, map, filter, All, ◌=ₛ◌, length, arith,
  eq_iff,
}
use event_watch.Core.{Event}
use event_watch.Objtypes.Capped.{last_part, append_capped_lem, length-append_capped}
use event_watch.Objtypes.Codec.{get_str}
use event_watch.Objtypes.Sets.{IsDistinct, add_unique-IsDistinct, remove_string-IsDistinct}
use event_watch.Objtypes.Chat.{
  ChatState, ChatMessage, ChatEvent, user_joined, user_left, msg_posted, msg_edited, msg_deleted,
  unknown, chat_event, posted, edit_first, delete_id, on_event, step, initial, chat_msg_cap,
}

unfoldable pub run : ChatState → List Event → ChatState
run s [] = s
run s (e ∷ es) = run (step s e) es

abbrev ids : List ChatMessage → List String
ids = map λ m. m.id

ids-edit_first : (ms : List ChatMessage) (id text : String) → ids (edit_first ms id text) ≡ ids ms
unfolding edit_first
ids-edit_first [] id text = refl
ids-edit_first (m ∷ ms) id text = ground (arith, ids-edit_first ms id text)

length-edit_first :
    (ms : List ChatMessage) (id text : String) → length (edit_first ms id text) ≡ length ms
unfolding edit_first
length-edit_first [] id text = refl
length-edit_first (m ∷ ms) id text = ground (arith, length-edit_first ms id text)

delete_id-filter :
    (ms : List ChatMessage) (id : String)
    → (delete_id ms id ≡ filter (λ m. not (m.id =ₛ id)) ms)
      × All (λ m. m.id ≢ id) (delete_id ms id)
      × (length (delete_id ms id) ≤ length ms)
unfolding delete_id
delete_id-filter [] id = (refl, tt, omega arith)
delete_id-filter (m ∷ ms) id =
    let (same, gone, fewer) = delete_id-filter ms id in
    (ground (arith, same), ground (arith, gone, eq_iff m.id id), ground (arith, fewer))

pub record IsRoom (s : ChatState) : Type 0 where
  pub members : IsDistinct s.participants
  pub capped : length s.recent ≤ chat_msg_cap

on_event-IsRoom : (k : ChatEvent) (s : ChatState) (e : Event) → IsRoom s → IsRoom (on_event k s e)
unfolding on_event
on_event-IsRoom user_joined s e h =
    ground (arith, add_unique-IsDistinct s.participants (get_str e.payload "user"))
on_event-IsRoom user_left s e h =
    ground (arith, remove_string-IsDistinct s.participants (get_str e.payload "user"))
on_event-IsRoom msg_posted s e h = record {
  members = h.members;
  capped = length-append_capped chat_msg_cap s.recent (posted e);
}
on_event-IsRoom msg_edited s e h =
    ground (arith, length-edit_first s.recent (get_str e.payload "id") (get_str e.payload "text"))
on_event-IsRoom msg_deleted s e h = record {
  members = h.members;
  capped = omega (arith, h.capped, (delete_id-filter s.recent (get_str e.payload "id")).2);
}
on_event-IsRoom unknown s e h = h

run-IsRoom' : (s : ChatState) (es : List Event) → IsRoom s → IsRoom (run s es)
unfolding run step
run-IsRoom' s [] h = h
run-IsRoom' s (e ∷ es) h = run-IsRoom' (step s e) es (on_event-IsRoom (chat_event e.type) s e h)

-- After any events from the start, no participant stands twice and at most fifty messages are kept.
pub run-IsRoom : (es : List Event) → IsRoom (run initial es)
unfolding initial
run-IsRoom es = run-IsRoom' initial es (record { members = tt; capped = omega arith })

chat_event-deleted : (t : String) → t ≡ "msg_deleted" → chat_event t ≡ msg_deleted
unfolding chat_event
chat_event-deleted t e = rw e refl

chat_event-edited : (t : String) → t ≡ "msg_edited" → chat_event t ≡ msg_edited
unfolding chat_event
chat_event-edited t e = rw e refl

chat_event-posted : (t : String) → t ≡ "msg_posted" → chat_event t ≡ msg_posted
unfolding chat_event
chat_event-posted t e = rw e refl

-- A posted message is the last of the recent ones, of which the last fifty stay, and the
-- participants stay.
pub step-posted :
    (s : ChatState) (e : Event)
    → e.type ≡ "msg_posted"
    → ((step s e).recent ≡ last_part chat_msg_cap (s.recent ++ posted e ∷ []))
      × ((step s e).participants ≡ s.participants)
unfolding step on_event
step-posted s e h =
    rw (chat_event-posted e.type h, on_event)
      (append_capped_lem chat_msg_cap s.recent (posted e), refl)

-- Deleting leaves no message with the id and all others in order, and the participants stay.
pub step_deleted :
    (s : ChatState) (e : Event)
    → e.type ≡ "msg_deleted"
    → All (λ m. m.id ≢ get_str e.payload "id") (step s e).recent
      × ((step s e).recent ≡ filter (λ m. not (m.id =ₛ get_str e.payload "id")) s.recent)
      × ((step s e).participants ≡ s.participants)
unfolding step on_event
step_deleted s e h =
    let (same, gone, fewer) = delete_id-filter s.recent (get_str e.payload "id") in
    rw (chat_event-deleted e.type h, on_event) (gone, same, refl)

-- Editing keeps the ids of the messages and their order, and the participants stay.
pub step_edited :
    (s : ChatState) (e : Event)
    → e.type ≡ "msg_edited"
    → (ids (step s e).recent ≡ ids s.recent) × ((step s e).participants ≡ s.participants)
unfolding step on_event
step_edited s e h =
    rw (chat_event-edited e.type h, on_event)
      (ids-edit_first s.recent (get_str e.payload "id") (get_str e.payload "text"), refl)
