-- ===== src/Bridge/Delivered.antt =====
-- What a bridge has carried, and what it is that its handler returns.
use goxic.Prelude.{◌≡◌, ◌∙◌, true, ◌++◌, append-nil, some}
use goxic.Bridge.Step.{Side, nil, other, State, Bridge, new_bridge, Reach}
use goxic.Bridge.Whole.{pending, IsKept, Reach-IsKept}
use goxic.Bridge.Reports.{verdict, received, IsDrained}
use goxic.Bridge.Sound.{Reach-IsSound}

-- The stream of a side has ended and stands whole in what was written to the other side.
abbrev pub IsDelivered : State → Side → Type 0
IsDelivered s x = ((s.ends x).ended ≡ true) × ((s.ends x).arrived ≡ (s.ends (other x)).outbox)

drained-IsDelivered :
    (s : State) (x : Side)
    → IsKept s x
    → IsDrained (s.ends x) (s.copiers x)
    → verdict (s.copiers x) ≡ some nil
    → IsDelivered s x
drained-IsDelivered s x k d v =
    let (p, i, e) = d v in (e, k ∙ (rw (p, i) (append-nil (s.ends (other x)).outbox)))

-- Whatever the two peers, the two goroutines and the handler do, and in any order: what came from
-- each side is what was written to the other, followed by what the goroutine has read and not
-- written, followed by what is unread. Where the handler has received a report of nil, one side has
-- closed, and all that came from it was written to the other.
pub Reach-IsDelivered :
    (b : Bridge) {s : State}
    → Reach b new_bridge s
    → ((x : Side)
        → (s.ends x).arrived
          ≡ (s.ends (other x)).outbox ++ (pending (s.copiers x) ++ (s.ends x).inbox))
      × (received s.handler ≡ some nil → (x : Side) × IsDelivered s x)
Reach-IsDelivered b {s} r = (
  Reach-IsKept b r,
  λ e.
      let sound = Reach-IsSound b r in
      let (x, v) = sound.told nil e in
      (x, drained-IsDelivered s x (Reach-IsKept b r x) (sound.drained x) v),
)
