-- ===== src/Hub/Delivery.antt =====
-- What reaches a viewer's socket: no line is lost without being counted.
use mathlib.Core.List.{append_assoc, append-nil}
use teploy_arcade.Prelude.{
  ℕ, suc, ◌+◌, ◌-◌, ◌%◌, ◌^◌, ◌≤◌, ◌<◌, String, Bool, true, false, List, [], ◌∷◌, ◌++◌, ◌≡◌, refl,
  subst, sym, ap, ◌∙◌, map, ◌⊎◌, inl, inr, arith, length, take, nat_key, string_key, contains,
  Returns, Returns-mono, take-nil, Bool-cases, ltb, length-append,
}
use teploy_arcade.Hub.Conn.{Line, Message, line, Conn, next_i64}
use teploy_arcade.Hub.Rooms.{Hub, room, store_line, publish, drop_room, run}
use teploy_arcade.Hub.Heap.{after_offer, on_all}
use teploy_arcade.Hub.Valid.{IsValid, drop_room-eq}
use teploy_arcade.Hub.Replay.{
  Feed, feed_calls, stamp_all, prepared, publish-eq, fed, fed-IsValid, step-fed, stored_live,
  room-fed,
}

-- What one message does to one connection.
pub data Outcome (m : Message) (c d : Conn) : Type 0 where
  queued :
      c.closed ≡ false
      → length c.send.queue < c.send.cap
      → d ≡ record c { send = record c.send { queue = c.send.queue ++ m ∷ [] } }
      → Outcome m c d
  dropped :
      c.closed ≡ false
      → c.send.cap ≤ length c.send.queue
      → d ≡ record c { dropped = next_i64 c.dropped }
      → Outcome m c d
  ignored : c.closed ≡ true → d ≡ c → Outcome m c d

after_offer-Outcome : (m : Message) (c : Conn) → Outcome m c (after_offer m c)
after_offer-Outcome m c = elim (Bool-cases c.closed) [
  | inl shut ↦ ignored shut (ground arith)
  | inr open_still ↦ elim (Bool-cases (ltb (length c.send.queue) c.send.cap)) [
    | inl fits ↦ queued open_still (ground arith) (ground arith)
    | inr full ↦ dropped open_still (ground arith) (ground arith)
  ]
]

-- A viewer had the outcome of the message, and any other connection is as it was.
abbrev pub Reached : Bool → Message → Conn → Conn → Type 0
Reached viewer m c d = ((viewer ≡ true) × Outcome m c d) ⊎ ((viewer ≡ false) × (d ≡ c))

on_all-Reached :
    (m : Message) (cs : List ℕ) (h : ℕ → Conn) (c : ℕ)
    → Reached (contains cs c) m (h c) (on_all (after_offer m) cs h c)
on_all-Reached m cs h c = elim (Bool-cases (contains cs c)) [
  | inl in_room ↦ inl (in_room, rw in_room (after_offer-Outcome m (h c)))
  | inr outside ↦ inr (outside, rw outside)
]

conns-room : (id : String) (h : Hub) → (room id h).1.conns ≡ h.conns
unfolding room
conns-room id h = ground arith

-- Publishing to a live room in a valid hub does not panic. Every viewer of the room has the stored
-- line queued behind what it had, or counted as dropped if its buffer is full, or is closed and as it
-- was; every other connection is as it was.
pub publish_reaches :
    (id : String) (l : Line) (now : String) (h : Hub)
    → IsValid h
    → (room id h).0.dead ≡ false
    → Returns
        (λ r.
          (c : ℕ) → Reached (contains (room id h).0.conns c) (line r.0) (h.conns c) (r.1.conns c))
        (publish id l now h)
publish_reaches id l now h v live =
    rw (publish-eq id l now h v live)
      (λ c. rw (conns-room id h) (on_all-Reached _ (room id h).0.conns h.conns c))

-- What a viewer who takes nothing from its socket has after the messages `ms`: as many as its buffer
-- had room for, in order, and the others counted.
pub record Received (ms : List Message) (c d : Conn) : Type 0 where
  pub queue : d.send.queue ≡ c.send.queue ++ take (c.send.cap - length c.send.queue) ms
  pub lost : d.dropped ≡ (c.dropped + (length ms - (c.send.cap - length c.send.queue))) % 2 ^ 64
  pub open_still : d.closed ≡ false

Received-nil : (c : Conn) → c.closed ≡ false → c.dropped < 2 ^ 64 → Received [] c c
Received-nil c o b = record {
  queue = rw (take-nil (c.send.cap - length c.send.queue), append-nil);
  lost = omega arith;
  open_still = o;
}

offered-fits :
    (m : Message) (ms : List Message) (c d : Conn)
    → length c.send.queue < c.send.cap
    → Received ms (record c { send = record c.send { queue = c.send.queue ++ m ∷ [] } }) d
    → Received (m ∷ ms) c d
offered-fits m ms c d fits r =
    let q = c.send.queue in
    let one : length (q ++ m ∷ []) ≡ length q + 1 = length-append q (m ∷ []) in
    let less : c.send.cap - length q ≡ suc (c.send.cap - length (q ++ m ∷ [])) = omega arith in
    record {
      queue = r.queue ∙ append_assoc q (m ∷ []) _ ∙ ap (λ k. q ++ take k (m ∷ ms)) (sym less);
      lost = let e = r.lost in omega arith;
      open_still = r.open_still;
    }

offered-full :
    (m : Message) (ms : List Message) (c d : Conn)
    → c.send.cap ≤ length c.send.queue
    → Received ms (record c { dropped = next_i64 c.dropped }) d
    → Received (m ∷ ms) c d
offered-full m ms c d full r =
    let none_fits : c.send.cap - length c.send.queue ≡ 0 = omega arith in
    record {
      queue = r.queue ∙ rw none_fits refl;
      lost = let e = r.lost in omega arith;
      open_still = r.open_still;
    }

after_offer_fits :
    (m : Message) (c : Conn)
    → c.closed ≡ false
    → ltb (length c.send.queue) c.send.cap ≡ true
    → after_offer m c ≡ record c { send = record c.send { queue = c.send.queue ++ m ∷ [] } }
after_offer_fits m c o fits = ground arith

after_offer_full :
    (m : Message) (c : Conn)
    → c.closed ≡ false
    → ltb (length c.send.queue) c.send.cap ≡ false
    → after_offer m c ≡ record c { dropped = next_i64 c.dropped }
after_offer_full m c o full = ground arith

Received-cons :
    (m : Message) (ms : List Message) (c d : Conn)
    → c.closed ≡ false
    → Received ms (after_offer m c) d
    → Received (m ∷ ms) c d
Received-cons m ms c d o r = elim (Bool-cases (ltb (length c.send.queue) c.send.cap)) [
  | inl fits ↦
      offered-fits m ms c d (ground arith)
        (subst (λ x. Received ms x d) (after_offer_fits m c o fits) r)
  | inr full ↦
      offered-full m ms c d (ground arith)
        (subst (λ x. Received ms x d) (after_offer_full m c o full) r)
]

after_offer_open : (m : Message) (c : Conn) → c.closed ≡ false → (after_offer m c).closed ≡ false
after_offer_open m c o = ground arith

after_offer_counted :
    (m : Message) (c : Conn) → c.dropped < 2 ^ 64 → (after_offer m c).dropped < 2 ^ 64
after_offer_counted m c b = ground arith

conns-fed :
    (id : String) (p : Line × String) (h : Hub) (c : ℕ)
    → contains (room id h).0.conns c ≡ true
    → (fed id p h).conns c ≡ after_offer (line (prepared (room id h).0.seq p)) (h.conns c)
unfolding store_line
conns-fed id (l, now) h c here = rw (here, conns-room id h)

-- In a valid hub, after any lines were published to a live room, an open viewer that took none of them
-- meanwhile has in its buffer, behind what it had, the first of the lines in their order, as many as
-- there was room for; the counter of dropped messages went up by the number of the others (as an
-- int64), and the viewer is still open. None of the calls panics.
pub feed-Received :
    (id : String) (c : ℕ) (feed : Feed) (h : Hub)
    → IsValid h
    → (room id h).0.dead ≡ false
    → contains (room id h).0.conns c ≡ true
    → (h.conns c).closed ≡ false
    → (h.conns c).dropped < 2 ^ 64
    → Returns
        (λ g. Received (map line (stamp_all (room id h).0.seq feed)) (h.conns c) (g.conns c))
        (run (feed_calls id feed) h)
unfolding run room store_line
feed-Received id c [] h v live here o b = Received-nil (h.conns c) o b
feed-Received id c (p ∷ feed) h v live here o b =
    let e = room-fed id p h in
    let x = conns-fed id p h c here in
    rw (step-fed id p h v live) (
      Returns-mono
        (λ g r.
          Received-cons (line (prepared (room id h).0.seq p)) _ (h.conns c) (g.conns c) o
            (rw (e, x) at r))
        (run (feed_calls id feed) (fed id p h))
        (feed-Received id c feed (fed id p h) (fed-IsValid id p h v live)
          (rw e (stored_live p (room id h).0 live)) (rw e (unfold store_line in here))
          (rw x (after_offer_open _ (h.conns c) o)) (rw x (after_offer_counted _ (h.conns c) b))))

-- `DropRoom` in a valid hub does not panic and closes every viewer of the room, whose buffered
-- messages stay to be read; every other connection is as it was.
pub drop_closes :
    (id : String) (h : Hub)
    → IsValid h
    → Returns
        (λ g.
          (c : ℕ)
          → ((contains (room id h).0.conns c ≡ true)
              × ((g.conns c).closed ≡ true)
              × ((g.conns c).send.queue ≡ (h.conns c).send.queue))
            ⊎ ((contains (room id h).0.conns c ≡ false) × (g.conns c ≡ h.conns c)))
        (drop_room id h)
drop_closes id h v = rw (drop_room-eq id h v) (λ c.
    rw (conns-room id h) (elim (Bool-cases (contains (room id h).0.conns c)) [
      | inl here ↦ inl (here, rw here, rw here)
      | inr away ↦ inr (away, rw away)
    ]))
