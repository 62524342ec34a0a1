-- ===== src/Objtypes/Chat.antt =====
-- internal/objtypes/chat.go: chat rooms.
pub mod Laws
use event_watch.Base.{ℕ, String, Bool, true, false, not, List, [], ◌∷◌, ◌=ₛ◌, if◌then◌else◌}
use event_watch.Core.{Event, Payload, Time}
use event_watch.Computed.{Reducer}
use event_watch.Objtypes.Capped.{append_capped}
use event_watch.Objtypes.Codec.{Codec, apply_strict, get_str, set_if_given}
use event_watch.Objtypes.Sets.{add_unique, remove_string}

abbrev pub chat_msg_cap : ℕ
chat_msg_cap = 50

pub record ChatMessage : Type 0 where
  pub id : String
  pub user : String
  pub text : String
  pub posted_at : Time
  pub edited : Bool

pub record ChatState : Type 0 where
  pub room : String
  pub participants : List String
  pub recent : List ChatMessage

unfoldable pub initial : ChatState
initial = record { room = ""; participants = []; recent = [] }

-- The cases of `switch e.Type`.
pub data ChatEvent : Type 0 where
  user_joined user_left msg_posted msg_edited msg_deleted unknown : ChatEvent

unfoldable pub chat_event : String → ChatEvent
chat_event t =
    if t =ₛ "user_joined"
    then user_joined
    else if t =ₛ "user_left"
    then user_left
    else if t =ₛ "msg_posted"
    then msg_posted
    else if t =ₛ "msg_edited"
    then msg_edited
    else if t =ₛ "msg_deleted"
    then msg_deleted
    else unknown

-- The message that an event posts; its id is the event's where the payload has none.
unfoldable pub posted : Event → ChatMessage
posted e = record {
  id = set_if_given e.id (get_str e.payload "id");
  user = get_str e.payload "user";
  text = get_str e.payload "text";
  posted_at = e.occurred_at;
  edited = false;
}

-- The loop of `msg_edited` stops at the first message with the id.
unfoldable pub edit_first : List ChatMessage → String → String → List ChatMessage
edit_first [] id text = []
edit_first (m ∷ ms) id text =
    if m.id =ₛ id then record m { text = text; edited = true } ∷ ms else m ∷ edit_first ms id text

unfoldable pub delete_id : List ChatMessage → String → List ChatMessage
delete_id [] id = []
delete_id (m ∷ ms) id = if m.id =ₛ id then delete_id ms id else m ∷ delete_id ms id

unfoldable pub on_event : ChatEvent → ChatState → Event → ChatState
unfolding posted edit_first delete_id
on_event user_joined s e =
    let u = get_str e.payload "user" in
    record s { participants = if u =ₛ "" then s.participants else add_unique s.participants u }
on_event user_left s e =
    let u = get_str e.payload "user" in
    record s { participants = if u =ₛ "" then s.participants else remove_string s.participants u }
on_event msg_posted s e = record s { recent = append_capped chat_msg_cap s.recent (posted e) }
on_event msg_edited s e = record s {
  recent = edit_first s.recent (get_str e.payload "id") (get_str e.payload "text");
}
on_event msg_deleted s e = record s { recent = delete_id s.recent (get_str e.payload "id") }
on_event unknown s e = s

-- The body of `Apply` between decoding and encoding.
unfoldable pub step : ChatState → Event → ChatState
step s e = on_event (chat_event e.type) s e

unfoldable pub reducer : Codec ChatState → Reducer
reducer c = record { object_type = "chat"; apply = apply_strict c step initial }
