-- ===== src/Dialogue/Script.antt =====
-- Conversations as a protocol describes them: who says what next, and which replies go on.
pub mod Playing
use netmon_plugins.HttpApi.Response.{crlf}
use netmon_plugins.Net.Wire.{Message, joined, said, heard}
use netmon_plugins.Prelude.Text.{Bytes, text_eq}
use netmon_plugins.Prelude.{Bool, true, false, Option, none, some, ◌++◌, if◌then◌else◌}

pub data Script : Type 0 where
  -- the service is available, or it is not
  over : Bool → Script
  -- the client's line, which must go out
  line : Bytes → Script → Script
  -- the client's line, which may be lost
  parting : Bytes → Script → Script
  -- the service's reply, and what it leads to
  reply : (Bytes → Script) → Script

-- Where a conversation is.
pub data Stage : Type 0 where
  offline : Script → Stage
  unreachable : Stage
  playing : Script → Stage

unfoldable pub follow : Message → Stage → Option Stage
follow (joined b) (offline s) = some (if b then playing s else unreachable)
follow (said bytes b) (playing (line l s)) =
    if text_eq bytes (l ++ crlf) then some (playing (if b then s else over false)) else none
follow (said bytes b) (playing (parting l s)) =
    if text_eq bytes (l ++ crlf) then some (playing s) else none
follow (heard r) (playing (reply next)) = some (playing (next r))
follow m s = none

-- What is known at the end: whether the service is available. A script that is not over says nothing.
unfoldable pub outcome : Stage → Option Bool
outcome (offline s) = some false
outcome unreachable = some false
outcome (playing (over b)) = some b
outcome (playing s) = none

-- A demand for a reply: the others end the conversation.
abbrev pub demanded : (Bytes → Bool) → (Bytes → Script) → Script
demanded is_refusal next = reply (λ r. if is_refusal r then over false else next r)

-- The client takes its leave with a line that may be lost; the last reply gives the result.
abbrev pub farewell : Bytes → (Bytes → Bool) → Script
farewell l result = parting l (reply (λ r. over (result r)))
