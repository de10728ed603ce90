-- ===== src/Hub/Heap.antt =====
-- The operations on connections never panic: each is a total function on sound connections.
use mathlib.Core.Path.{fun_ext}
use teploy_arcade.Prelude.{
  ℕ, true, false, Option, some, List, [], ◌∷◌, ◌++◌, ◌≡◌, refl, ap, arith, length, ltb,
  if◌then◌else◌, nat_key, nat_beq_iff, contains, Distinct, ◌∙◌,
}
use teploy_arcade.Hub.Conn.{Message, Conn, close, try_send, receive, new_conn, next_i64}
use teploy_arcade.Hub.Rooms.{Heap, update, for_conns}

-- The flag that `trySend` and `Close` test agrees with the channel.
abbrev pub IsSound : Conn → Type 0
IsSound c = c.closed ≡ c.send.shut

abbrev pub AllSound : Heap → Type 0
AllSound h = (c : ℕ) → IsSound (h c)

-- A closed connection.
abbrev pub after_close : Conn → Conn
after_close c = record c { closed = true; send = record c.send { shut = true } }

-- A connection that was offered a message: closed, queued or shed.
abbrev pub after_offer : Message → Conn → Conn
after_offer m c =
    if c.closed
    then c
    else if ltb (length c.send.queue) c.send.cap
    then record c { send = record c.send { queue = c.send.queue ++ m ∷ [] } }
    else record c { dropped = next_i64 c.dropped }

-- `f` does what `g` says on sound connections, and keeps them sound.
pub record Total (f : Conn → Option Conn) (g : Conn → Conn) : Type 0 where
  pub runs : (c : Conn) → IsSound c → f c ≡ some (g c)
  pub keeps : (c : Conn) → IsSound c → IsSound (g c)

pub close-Total : Total close after_close
unfolding close
close-Total = record { runs = λ c s. ground arith; keeps = λ c s. refl }

pub try_send-Total : (m : Message) → Total (try_send m) (after_offer m)
unfolding try_send
try_send-Total m = record { runs = λ c s. ground arith; keeps = λ c s. ground arith }

pub receive-IsSound : (c : Conn) → IsSound c → IsSound (receive c).1
unfolding receive
receive-IsSound c s = ground arith

pub new_conn-IsSound : (buf : ℕ) → IsSound (new_conn buf)
unfolding new_conn
new_conn-IsSound buf = refl

pub update-AllSound :
    (h : Heap) (c : ℕ) (x : Conn) → AllSound h → IsSound x → AllSound (update h c x)
unfolding update
update-AllSound h c x a s d = ground (arith, a d)

-- `g` at every connection of the list, and no other.
abbrev pub on_all : (Conn → Conn) → List ℕ → Heap → Heap
on_all g cs h d = if contains cs d then g (h d) else h d

module _ (f : Conn → Option Conn) (g : Conn → Conn) (t : Total f g) where
  pub on_all-AllSound : (cs : List ℕ) (h : Heap) → AllSound h → AllSound (on_all g cs h)
  on_all-AllSound cs h a d = ground (arith, a d, t.keeps (h d))

  on_all-cons :
      (c : ℕ) (cs : List ℕ) (h : Heap)
      → contains cs c ≡ false
      → on_all g cs (update h c (g (h c))) ≡ on_all g (c ∷ cs) h
  unfolding update contains
  on_all-cons c cs h new = fun_ext λ d. ground (arith, nat_beq_iff c d)

  pub for_conns-on_all :
      (cs : List ℕ) (h : Heap) → Distinct cs → AllSound h → for_conns f cs h ≡ some (on_all g cs h)
  unfolding for_conns contains
  for_conns-on_all [] h d a = refl
  for_conns-on_all (c ∷ cs) h d a = rw (t.runs (h c) (a c)) (
      for_conns-on_all cs _ d.1 (update-AllSound h c (g (h c)) a (t.keeps (h c) (a c)))
      ∙ ap some (on_all-cons c cs h d.0))
