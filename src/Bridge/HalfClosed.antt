-- ===== src/Bridge/HalfClosed.antt =====
-- A peer that closes its own side and then waits for the answer.
use goxic.Prelude.{◌≡◌, ◌≢◌, refl, sym, ap, true, false, [], ◌++◌, append-nil, Bytes}
use goxic.Bridge.Step.{
  Side, near, far, nil, other, Both, set, End, CanRead, CanWrite, closing, returned, State, Bridge,
  new_end, new_bridge, set_keeps, Peer, sends, hangs_up, resets, Move, reads, reads_end, read_fails,
  writes, write_fails, reports, shuts, receives, closes, closes_second, Reach, here, peer, move,
}

-- The request has gone through, its sender has closed its side, the handler has returned, and then
-- the answer has come.
abbrev pub IsCutOff : Side → Bytes → Bytes → State → Type 0
IsCutOff x request response s =
    ((s.ends x).arrived ≡ request)
    × ((s.ends (other x)).outbox ≡ request)
    × ((s.ends x).broken ≡ false)
    × ((s.ends (other x)).broken ≡ false)
    × ((s.ends (other x)).arrived ≡ response)
    × (s.handler ≡ returned nil)
    × ((s.ends x).closed ≡ true)
    × ((s.ends x).outbox ≡ [])

-- Nothing is written to a side that is closed.
abbrev IsSilent : End → Type 0
IsSilent e = (e.closed ≡ true) × (e.outbox ≡ [])

Peer-IsSilent : {s t : State} → Peer s t → (y : Side) → IsSilent (s.ends y) → IsSilent (t.ends y)
Peer-IsSilent {s} (sends x bytes e) = set_keeps IsSilent s.ends x _ (λ p. p)
Peer-IsSilent {s} (hangs_up x) = set_keeps IsSilent s.ends x _ (λ p. p)
Peer-IsSilent {s} (resets x) = set_keeps IsSilent s.ends x _ (λ p. p)

Move-IsSilent :
    (b : Bridge) {s t : State} → Move b s t → (y : Side) → IsSilent (s.ends y) → IsSilent (t.ends y)
Move-IsSilent b {s} (reads x chunk rest c o n i) = set_keeps IsSilent s.ends x _ (λ p. p)
Move-IsSilent b (reads_end x c o i e) = λ y p. p
Move-IsSilent b (read_fails x c f) = λ y p. p
Move-IsSilent b {s} (writes x chunk c w) =
    set_keeps IsSilent s.ends (other x) _ (λ p. cc (p.0, w.open_end))
Move-IsSilent b (write_fails x chunk c w) = λ y p. p
Move-IsSilent b (reports x r lost c) = λ y p. p
Move-IsSilent b {s} (shuts x r lost c) = set_keeps IsSilent s.ends (other x) _ (λ p. p)
Move-IsSilent b (receives r rest h d) = λ y p. p
Move-IsSilent b {s} (closes r h) = set_keeps IsSilent s.ends b.closed_first _ (λ p. (refl, p.1))
Move-IsSilent b {s} (closes_second r h) =
    set_keeps IsSilent s.ends (other b.closed_first) _ (λ p. (refl, p.1))

Reach-IsSilent :
    (b : Bridge) {s t : State}
    → Reach b s t
    → (y : Side) → IsSilent (s.ends y)
    → IsSilent (t.ends y)
Reach-IsSilent b here y p = p
Reach-IsSilent b (peer r m) y p = Peer-IsSilent m y (Reach-IsSilent b r y p)
Reach-IsSilent b (move r m) y p = Move-IsSilent b m y (Reach-IsSilent b r y p)

-- The two connections once the peer of `x` has sent the request and hung up, and the request has
-- been copied.
abbrev asked : Side → Bytes → Both End
asked x request =
    set (set (λ y. new_end) x (record new_end { arrived = request; ended = true })) (other x)
      (record new_end { outbox = request })

can_read : {e : End} → e.closed ≡ false → e.broken ≡ false → CanRead e
can_read c k = record { open_end = c; sound = k }

can_write : {e : End} → e.closed ≡ false → e.broken ≡ false → e.shut ≡ false → CanWrite e
can_write c k t = record { open_end = c; sound = k; unshut = t }

-- A state with these connections, in which the handler has received the report.
abbrev IsAsked : Side → Bytes → State → Type 0
IsAsked x request s = ((y : Side) → s.ends y ≡ asked x request y) × (s.handler ≡ closing nil)

Reach-IsAsked :
    (b : Bridge) (x : Side) (request : Bytes)
    → request ≢ []
    → (s : State) × Reach b new_bridge s × IsAsked x request s
Reach-IsAsked b near request n = (
  _,
  move
      (move
        (move
          (move
            (move (peer (peer here (sends near request refl)) (hangs_up near))
              (reads near request [] refl (can_read refl refl) n (sym (append-nil request))))
            (writes near request refl (can_write refl refl refl)))
          (reads_end near refl (can_read refl refl) refl refl))
        (reports near nil [] refl))
      (receives nil [] refl refl),
  ((λ y. elim y [ near ↦ refl | far ↦ refl ]), refl),
)
Reach-IsAsked b far request n = (
  _,
  move
      (move
        (move
          (move
            (move (peer (peer here (sends far request refl)) (hangs_up far))
              (reads far request [] refl (can_read refl refl) n (sym (append-nil request))))
            (writes far request refl (can_write refl refl refl)))
          (reads_end far refl (can_read refl refl) refl refl))
        (reports far nil [] refl))
      (receives nil [] refl refl),
  ((λ y. elim y [ near ↦ refl | far ↦ refl ]), refl),
)

abbrev close_end : Both End → Side → Both End
close_end f x = set f x (record (f x) { closed = true })

closed_both :
    (f g : Both End)
    → ((y : Side) → f y ≡ g y)
    → (first y : Side)
    → close_end (close_end f first) (other first) y ≡ record (g y) { closed = true }
closed_both f g h near near = ap (λ (e : End). record e { closed = true }) (h near)
closed_both f g h near far = ap (λ (e : End). record e { closed = true }) (h far)
closed_both f g h far near = ap (λ (e : End). record e { closed = true }) (h near)
closed_both f g h far far = ap (λ (e : End). record e { closed = true }) (h far)

-- The handler closes both sides, and the other peer answers.
answer_lost :
    (b : Bridge) (x : Side) (request response : Bytes) (s : State)
    → Reach b new_bridge s
    → s.handler ≡ returned nil
    → ((y : Side) → s.ends y ≡ record (asked x request y) { closed = true })
    → (t : State) × Reach b new_bridge t × IsCutOff x request response t
answer_lost b near request response s r h e = (
  _,
  peer r (sends far response (ap (λ (d : End). d.ended) (e far))),
  (
    ap (λ (d : End). d.arrived) (e near),
    ap (λ (d : End). d.outbox) (e far),
    ap (λ (d : End). d.broken) (e near),
    ap (λ (d : End). d.broken) (e far),
    ap (λ (d : End). d.arrived ++ response) (e far),
    h,
    ap (λ (d : End). d.closed) (e near),
    ap (λ (d : End). d.outbox) (e near),
  ),
)
answer_lost b far request response s r h e = (
  _,
  peer r (sends near response (ap (λ (d : End). d.ended) (e near))),
  (
    ap (λ (d : End). d.arrived) (e far),
    ap (λ (d : End). d.outbox) (e near),
    ap (λ (d : End). d.broken) (e far),
    ap (λ (d : End). d.broken) (e near),
    ap (λ (d : End). d.arrived ++ response) (e near),
    h,
    ap (λ (d : End). d.closed) (e far),
    ap (λ (d : End). d.outbox) (e far),
  ),
)

IsCutOff-run :
    (b : Bridge) (x : Side) (request response : Bytes)
    → request ≢ []
    → (s : State) × Reach b new_bridge s × IsCutOff x request response s
IsCutOff-run b x request response n =
    let (s, r, (e, h)) = Reach-IsAsked b x request n in
    answer_lost b x request response _ (move (move r (closes nil h)) (closes_second nil refl)) refl
      (closed_both s.ends (asked x request) e b.closed_first)

-- A bridge does not carry an answer to a peer that closes its side when it has sent its request.
-- Whatever the request, the answer and the side: the run is possible in which the whole request is
-- copied, the handler takes this for the end of the session and returns nil, the answer comes, with
-- neither connection reset, and nothing of it is written to the peer that asked, then or later.
pub Reach-IsCutOff :
    (b : Bridge) (x : Side) (request response : Bytes)
    → request ≢ []
    → (s : State) × Reach b new_bridge s
      × IsCutOff x request response s
      × ((t : State) → Reach b s t → (t.ends x).outbox ≡ [])
Reach-IsCutOff b x request response n =
    let (s, r, c) = IsCutOff-run b x request response n in
    (s, r, c, λ t r'. (Reach-IsSilent b r' x (c.6, c.7)).1)
