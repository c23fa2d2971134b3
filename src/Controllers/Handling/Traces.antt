-- ===== src/Controllers/Handling/Traces.antt =====
-- What was sent and how often the queue was told, for actions that are put together.
use mathlib.Core.List.{append-nil}
use cnwan_operator.Common.{List, [], ◌∷◌, ◌++◌, ◌≡◌, refl, ap}
use cnwan_operator.ServiceRegistry.Events.{Event}
use cnwan_operator.Controllers.Handling.{Action, send_all, sent, times_done}

pub sent-send_all :
    (events : List Event) (rest : List Action)
    → sent (send_all events ++ rest) ≡ events ++ sent rest
unfolding sent
sent-send_all [] rest = refl
sent-send_all (e ∷ events) rest = ap (λ x. e ∷ x) (sent-send_all events rest)

pub times_done-send_all :
    (events : List Event) (rest : List Action)
    → times_done (send_all events ++ rest) ≡ times_done rest
unfolding times_done
times_done-send_all [] rest = refl
times_done-send_all (e ∷ events) rest = times_done-send_all events rest

-- The events are the ones sent, when nothing but `Done` follows.
pub sent_all :
    (events : List Event) (rest : List Action)
    → sent rest ≡ []
    → sent (send_all events ++ rest) ≡ events
sent_all events rest h = rw (sent-send_all, h) (append-nil events)
