-- ===== src/Hub/Conn.antt =====
-- A viewer's socket: `Conn` of internal/arcade/hub.go, over a Go channel. `none` is a Go panic, which
-- a send on a closed channel and a second close of one are.
use teploy_arcade.Prelude.{
  Bytes, ℕ, ◌+◌, ◌%◌, ◌^◌, String, Bool, true, false, Option, none, some, List, [], ◌∷◌, ◌++◌,
  length, ltb, if◌then◌else◌, ◌>>=◌,
}

-- A Go `int64` counter is its bit pattern.
abbrev pub next_i64 : ℕ → ℕ
next_i64 n = (n + 1) % 2 ^ 64

pub record Line : Type 0 where
  pub seq : ℕ
  pub ts : String
  pub level : String
  pub source : String
  pub text : Bytes

-- What goes to a socket: an encoded line, or another encoded message.
pub data Message : Type 0 where
  line : Line → Message
  raw : String → Message

-- A buffered channel: what is in it, oldest first, its capacity, and whether it is closed.
pub record Chan : Type 0 where
  pub queue : List Message
  pub cap : ℕ
  pub shut : Bool

pub record Conn : Type 0 where
  pub send : Chan
  pub dropped : ℕ
  pub closed : Bool

unfoldable pub new_conn : ℕ → Conn
new_conn buf = record {
  send = record { queue = []; cap = buf; shut = false };
  dropped = 0;
  closed = false;
}

unfoldable pub close_chan : Chan → Option Chan
close_chan ch = if ch.shut then none else some (record ch { shut = true })

unfoldable pub close : Conn → Option Conn
unfolding close_chan
close c =
    if c.closed
    then some c
    else do ch ← close_chan c.send; some (record c { closed = true; send = ch })

-- `select` on one send with a `default` branch: `some none` is the default.
unfoldable pub offer : Chan → Message → Option (Option Chan)
offer ch m =
    if ch.shut
    then none
    else if ltb (length ch.queue) ch.cap
    then some (some (record ch { queue = ch.queue ++ m ∷ [] }))
    else some none

shed : Conn → Option Chan → Conn
shed c none = record c { dropped = next_i64 c.dropped }
shed c (some ch) = record c { send = ch }

unfoldable pub try_send : Message → Conn → Option Conn
unfolding offer shed
try_send m c = if c.closed then some c else do sent ← offer c.send m; some (shed c sent)

take_head : Chan → List Message → Option Message × Chan
take_head ch [] = (none, ch)
take_head ch (m ∷ rest) = (some m, record ch { queue = rest })

-- The socket's writer takes a message from the channel.
unfoldable pub receive : Conn → Option Message × Conn
unfolding take_head
receive c = let (m, ch) = take_head c.send c.send.queue in (m, record c { send = ch })
