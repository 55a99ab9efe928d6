-- ===== src/Backend.antt =====
-- server/cmd/backend/backend.go: a backend with its test room and the client that keeps it open.
-- The listener, the CORS wrapper and the flags are not modelled.
pub mod Starting
use vchamber.Prelude.{ℕ, List, [], ◌∷◌, Option, none, some, String, Outcome}
use vchamber.Wire.{Time}
use vchamber.Conn.{Turn}
use vchamber.Codec.{Json}
use vchamber.Client.{Client, Dialled, Connected, connected, refused, turned_away, connect}
use vchamber.Room.{Room, new_room}
use vchamber.Server.{new_server, Hub, room_in, run_server}

abbrev pub test_room : Time → Room
test_room now = new_room "testroom" "iamgod" "nobody" now

-- The new server takes the room that AddRoom sends.
unfoldable pub start_backend : Time → Outcome (Turn Hub)
start_backend now =
    run_server (room_in (some 0))
      (record { server = new_server; store = λ r. test_room now; started = [] })

-- What one call of Connect meets: two readings of the clock, and what dialling comes to.
pub record Attempt : Type 0 where
  pub got : Time
  pub now : Time
  pub dialled : Dialled

-- What Connect comes to: a break, or another round.
break_if_connected :
    Option (Client × List Attempt) → List Attempt → Connected → Option (Client × List Attempt)
break_if_connected later rest (connected c) = some (c, rest)
break_if_connected later rest (refused e) = later
break_if_connected later rest (turned_away e) = later

-- The loop around Connect, with a second's sleep after a failure: the client of the first attempt
-- that succeeds and the attempts that are left, or none while all have failed.
unfoldable pub start_zombie : Json → List Attempt → Option (Client × List Attempt)
unfolding break_if_connected
start_zombie json [] = none
start_zombie json (a ∷ rest) =
    break_if_connected (start_zombie json rest) rest (connect json a.got a.now a.dialled)
