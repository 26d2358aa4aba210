-- ===== src/Roster/Valid/Moves.antt =====
-- Every move keeps the roster valid, and so does every sequence of requests.
use flagfish.Prelude.{Bool, false, List, [], ◌∷◌, arith}
use flagfish.Roster.{Roster, may_leave}
use flagfish.Roster.Command.{member_of}
use flagfish.Roster.Player.{Library}
use flagfish.Roster.Request.{Request, step, run}
use flagfish.Roster.Move.{
  Move, leaves, detached, joins, founds, kicks, transfers, disbands, opens, edits_users,
  edits_teams, signs_out, Moves, stay, ◌▸◌, Moves-trans,
}
use flagfish.Roster.Move.Organizers.{Careful, step-Moves}
use flagfish.Roster.Valid.{IsValid}
use flagfish.Roster.Valid.Depart.{departed-IsValid}
use flagfish.Roster.Valid.Enroll.{joined-IsValid}
use flagfish.Roster.Valid.Seat.{kicked-IsValid, transferred-IsValid, disbanded-IsValid}
use flagfish.Roster.Valid.Found.{founded-IsValid, users_kept-IsValid, teams_kept-IsValid}
use flagfish.Roster.Valid.Opened.{opened-IsValid}

pub Move-IsValid : {b : Bool} {r s : Roster} → Move b r s → IsValid r → IsValid s
Move-IsValid {r = r} (leaves user team) valid =
    departed-IsValid (may_leave r user team) user team r (λ u e. ground (arith, e)) valid
Move-IsValid {r = r} (detached user team) valid =
    departed-IsValid (member_of user team) user team r (λ u e. e) valid
Move-IsValid {r = r} (joins user team e stands spares) valid =
    joined-IsValid user team r e.there stands valid
Move-IsValid {r = r} (founds user t key led calm e) valid =
    founded-IsValid user t r key led e.there valid
Move-IsValid {r = r} (kicks member captain) valid = kicked-IsValid member captain r valid
Move-IsValid {r = r} (transfers heir captain) valid = transferred-IsValid heir captain r valid
Move-IsValid {r = r} (disbands captain clear) valid = disbanded-IsValid captain r valid
Move-IsValid {r = r} (opens t key vacant calm) valid = opened-IsValid r t key vacant valid
Move-IsValid {r = r} (edits_users test set key home spares) valid =
    users_kept-IsValid test set r key home valid
Move-IsValid {r = r} (edits_teams test set key seat spares) valid =
    teams_kept-IsValid test set r key seat valid
Move-IsValid {r = r} (signs_out sessions api_tokens) valid = record {
  users_unique = valid.users_unique;
  teams_unique = valid.teams_unique;
  seats = valid.seats;
  led = valid.led;
  enrolled = valid.enrolled;
  fresh = valid.fresh;
}

pub Moves-IsValid : {b : Bool} {r s : Roster} → Moves b r s → IsValid r → IsValid s
Moves-IsValid stay valid = valid
Moves-IsValid (m ▸ ms) valid = Moves-IsValid ms (Move-IsValid m valid)

careless : (r : Roster) (q : Request) → Careful false r q
careless r (Request.join_request seen user name password) = λ e. absurd (ground (arith, e))
careless r _ = tt

-- Every sequence of requests of players, captains and organizers, refused ones included, leads from
-- a valid roster to a valid one: a captain is a member of the team, a team with members has a captain,
-- every member's team exists and no id is used twice.
pub run-IsValid :
    (lib : Library) (qs : List Request) (r : Roster) → IsValid r → IsValid (run lib r qs)
unfolding run
run-IsValid lib [] r valid = valid
run-IsValid lib (q ∷ qs) r valid =
    run-IsValid lib qs (step lib r q)
      (Moves-IsValid (step-Moves false lib r q valid (careless r q)) valid)

-- the same, with the moves that lead there
pub run-Moves :
    (lib : Library) (qs : List Request) (r : Roster) → IsValid r → Moves false r (run lib r qs)
unfolding run
run-Moves lib [] r valid = stay
run-Moves lib (q ∷ qs) r valid =
    Moves-trans ms (run-Moves lib qs (step lib r q) (Moves-IsValid ms valid))
  where
    ms : Moves false r (step lib r q)
    ms = step-Moves false lib r q valid (careless r q)
