-- ===== src/Net/Wire.antt =====
-- A connection as its two ends see it: what is said and heard, without the calls that bring it about.
use netmon_plugins.Net.{Event, called, received, connect, select, send}
use netmon_plugins.Net.Logic.{Machine}
use netmon_plugins.Net.Tcp.{text_of}
use netmon_plugins.Prelude.Text.{Bytes}
use netmon_plugins.Prelude.{Bool, false, Option, none, some, []}

pub data Message : Type 0 where
  -- the connection is made, or refused
  joined : Bool → Message
  -- bytes are sent, and whether they went out
  said : Bytes → Bool → Message
  -- a reply, which is empty where none came in time
  heard : Bytes → Message

abbrev pub message : Event → Option Message
message (called connect b) = some (joined b)
message (called (send bytes) b) = some (said bytes b)
message (called (select t) false) = some (heard [])
message (received r) = some (heard (text_of r))
message e = none

-- A machine for messages reads a trace of calls.
abbrev pub listening : {S : Type 0} → (Message → S → Option S) → Machine S
listening step e s = elim (message e) [ none ↦ some s | some m ↦ step m s ]
