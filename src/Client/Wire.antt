-- ===== src/Client/Wire.antt =====
-- The frames of client/client.go: what the client sends, what the server decodes of it, and what
-- the client decodes of the server's frames.
use event_watch.Base.{ℕ, String, Option, none, some, [], ltb, if◌then◌else◌}
use Prim.Native.String.{◌++◌ as ◌++ₛ◌}
use event_watch.Base.Decimal.{show_ℕ}
use event_watch.Core.{Event, Payload, RawMessage, From, latest, last_n, from_seq}
use event_watch.Transport.Ws.{InMsg, OutMsg, Message}

pub record OutFrame : Type 0 where
  pub op : String
  pub topic : String
  pub from : String
  pub from_seq : ℕ
  pub type : String
  pub actor : String
  pub payload : Payload
  pub req_id : String

-- What the server decodes of a frame: the keys are the same, and an omitted one reads as zero.
abbrev pub received : OutFrame → InMsg
received f = record {
  op = f.op;
  topic = f.topic;
  from = f.from;
  from_seq = f.from_seq;
  req_id = f.req_id;
  type = f.type;
  actor = f.actor;
  payload = f.payload;
}

-- `msg` is the text of an error frame.
pub record InFrame : Type 0 where
  pub type : String
  pub topic : String
  pub event : Option Event
  pub state : RawMessage
  pub last_seq : ℕ
  pub missed : ℕ
  pub msg : Option Message
  pub req_id : String

abbrev pub blank : InFrame
blank = record {
  type = "";
  topic = "";
  event = none;
  state = none;
  last_seq = 0;
  missed = 0;
  msg = none;
  req_id = "";
}

-- What the client decodes of a frame of the server.
abbrev pub decoded : OutMsg → InFrame
decoded (OutMsg.event t e) = record blank { type = "event"; topic = t; event = some e }
decoded (OutMsg.ack t n r) = record blank { type = "ack"; topic = t; last_seq = n; req_id = r }
decoded (OutMsg.state t raw r) = record blank { type = "state"; topic = t; state = raw; req_id = r }
decoded (OutMsg.error m t r) = record blank { type = "error"; msg = some m; topic = t; req_id = r }
decoded (OutMsg.lagging t n) = record blank { type = "lagging"; topic = t; missed = n }
decoded OutMsg.pong = record blank { type = "pong" }

abbrev pub blank_out : OutFrame
blank_out = record {
  op = "";
  topic = "";
  from = "";
  from_seq = 0;
  type = "";
  actor = "";
  payload = [];
  req_id = "";
}

unfoldable pub from_text : From → String
from_text latest = "latest"
from_text (last_n n) = "last:" ++ₛ show_ℕ n
from_text (from_seq n) = ""

abbrev pub seq_of : From → ℕ
seq_of latest = 0
seq_of (last_n n) = 0
seq_of (from_seq n) = n

unfoldable pub subscribe_frame : String → From → ℕ → OutFrame
unfolding from_text
subscribe_frame topic from resume =
    if ltb 0 resume
    then record blank_out { op = "subscribe"; topic = topic; from_seq = resume }
    else record blank_out {
      op = "subscribe";
      topic = topic;
      from = from_text from;
      from_seq = seq_of from;
    }

abbrev pub publish_frame : Event → OutFrame
publish_frame e = record blank_out {
  op = "publish";
  topic = e.topic;
  type = e.type;
  actor = e.actor;
  payload = e.payload;
}

abbrev pub get_state_frame : String → OutFrame
get_state_frame topic = record blank_out { op = "get_state"; topic = topic }
