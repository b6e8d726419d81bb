-- ===== src/Bridge/Whole.antt =====
-- No byte is lost, doubled or reordered on its way through a bridge.
use goxic.Prelude.{◌≡◌, refl, sym, ap, ◌∙◌, [], ◌++◌, append_assoc, Bytes}
use goxic.Bridge.Step.{
  Side, near, far, nil, failed, other, Both, set, End, Copier, copying, holding, copied, reported,
  stopped, State, Bridge, new_bridge, with_end, with_copier, Peer, sends, hangs_up, resets, Move,
  reads, reads_end, read_fails, writes, write_fails, reports, shuts, receives, closes,
  closes_second, Reach, here, peer, move,
}

-- The bytes that a goroutine has read and not written.
abbrev pub pending : Copier → Bytes
pending copying = []
pending (holding chunk) = chunk
pending (copied r lost) = lost
pending (reported r lost) = lost
pending (stopped r lost) = lost

-- What came from a side's peer is what was written to the other side's, then what the goroutine
-- holds, then what is unread.
abbrev pub IsKept : State → Side → Type 0
IsKept s x =
    (s.ends x).arrived ≡ (s.ends (other x)).outbox ++ (pending (s.copiers x) ++ (s.ends x).inbox)

kept_arrival : (a o h i bytes : Bytes) → a ≡ o ++ (h ++ i) → a ++ bytes ≡ o ++ (h ++ (i ++ bytes))
kept_arrival a o h i bytes e =
    ap (λ z. z ++ bytes) e
    ∙ append_assoc o (h ++ i) bytes
    ∙ ap (λ z. o ++ z) (append_assoc h i bytes)

kept_written : (a o h i : Bytes) → a ≡ o ++ (h ++ i) → a ≡ (o ++ h) ++ i
kept_written a o h i e = e ∙ sym (append_assoc o h i)

-- Where only one side's end is set, and the new end has the same in a field.
set_field :
    {A : Type 0} (g : End → A) (f : Both End) (z : Side) (e : End)
    → g e ≡ g (f z)
    → (y : Side) → g (set f z e y) ≡ g (f y)
set_field g f near e h near = h
set_field g f near e h far = refl
set_field g f far e h near = refl
set_field g f far e h far = h

pending-set :
    (f : Both Copier) (x : Side) (c : Copier)
    → pending c ≡ pending (f x)
    → (y : Side) → pending (set f x c y) ≡ pending (f y)
pending-set f near c h near = h
pending-set f near c h far = refl
pending-set f far c h near = refl
pending-set f far c h far = h

-- A step that leaves all four parts.
IsKept-same :
    (s t : State) (y : Side)
    → (t.ends y).arrived ≡ (s.ends y).arrived
    → (t.ends (other y)).outbox ≡ (s.ends (other y)).outbox
    → pending (t.copiers y) ≡ pending (s.copiers y)
    → (t.ends y).inbox ≡ (s.ends y).inbox
    → IsKept s y
    → IsKept t y
IsKept-same s t y a o p i k = cc

module _ (s : State) (z : Side) (e : End) (a : e.arrived ≡ (s.ends z).arrived)
    (o : e.outbox ≡ (s.ends z).outbox) (i : e.inbox ≡ (s.ends z).inbox) where
  -- A flag of one end is set.
  flagged : (y : Side) → IsKept s y → IsKept (with_end s z e) y
  flagged y =
      IsKept-same s (with_end s z e) y (set_field (λ r. r.arrived) s.ends z e a y)
        (set_field (λ r. r.outbox) s.ends z e o (other y)) refl
        (set_field (λ r. r.inbox) s.ends z e i y)

-- A goroutine goes on with the same bytes.
advanced :
    (s : State) (x : Side) (c : Copier)
    → pending c ≡ pending (s.copiers x)
    → (y : Side) → IsKept s y
    → IsKept (with_copier s x c) y
advanced s x c h y =
    IsKept-same s (with_copier s x c) y refl refl (pending-set s.copiers x c h y) refl

Peer-IsKept : {s t : State} → Peer s t → ((x : Side) → IsKept s x) → (y : Side) → IsKept t y
Peer-IsKept {s} (sends near bytes e) k near =
    kept_arrival (s.ends near).arrived (s.ends far).outbox (pending (s.copiers near))
      (s.ends near).inbox bytes (k near)
Peer-IsKept (sends far bytes e) k near = k near
Peer-IsKept (sends near bytes e) k far = k far
Peer-IsKept {s} (sends far bytes e) k far =
    kept_arrival (s.ends far).arrived (s.ends near).outbox (pending (s.copiers far))
      (s.ends far).inbox bytes (k far)
Peer-IsKept {s} (hangs_up x) k y = flagged s x _ refl refl refl y (k y)
Peer-IsKept {s} (resets x) k y = flagged s x _ refl refl refl y (k y)

kept_read :
    (a o chunk rest i : Bytes) (c : Copier)
    → c ≡ copying
    → i ≡ chunk ++ rest
    → a ≡ o ++ (pending c ++ i)
    → a ≡ o ++ (chunk ++ rest)
kept_read a o chunk rest i c e f k = cc (e, f, k, ap pending e)

kept_write :
    (a o chunk i : Bytes) (c : Copier)
    → c ≡ holding chunk
    → a ≡ o ++ (pending c ++ i)
    → a ≡ (o ++ chunk) ++ i
kept_write a o chunk i c e k = kept_written a o chunk i (cc (k, ap pending e))

Move-IsKept :
    (b : Bridge) {s t : State} → Move b s t → ((x : Side) → IsKept s x) → (y : Side) → IsKept t y
Move-IsKept b {s} (reads near chunk rest c o n i) k near =
    kept_read (s.ends near).arrived (s.ends far).outbox chunk rest (s.ends near).inbox
      (s.copiers near) c i (k near)
Move-IsKept b (reads far chunk rest c o n i) k near = k near
Move-IsKept b (reads near chunk rest c o n i) k far = k far
Move-IsKept b {s} (reads far chunk rest c o n i) k far =
    kept_read (s.ends far).arrived (s.ends near).outbox chunk rest (s.ends far).inbox
      (s.copiers far) c i (k far)
Move-IsKept b {s} (reads_end x c o i e) k y =
    advanced s x (copied nil []) (sym (ap pending c)) y (k y)
Move-IsKept b {s} (read_fails x c r) k y =
    advanced s x (copied failed []) (sym (ap pending c)) y (k y)
Move-IsKept b {s} (writes near chunk c w) k near =
    kept_write (s.ends near).arrived (s.ends far).outbox chunk (s.ends near).inbox (s.copiers near)
      c (k near)
Move-IsKept b (writes far chunk c w) k near = k near
Move-IsKept b (writes near chunk c w) k far = k far
Move-IsKept b {s} (writes far chunk c w) k far =
    kept_write (s.ends far).arrived (s.ends near).outbox chunk (s.ends far).inbox (s.copiers far) c
      (k far)
Move-IsKept b {s} (write_fails x chunk c w) k y =
    advanced s x (copied failed chunk) (sym (ap pending c)) y (k y)
Move-IsKept b {s} (reports x r lost c) k y =
    advanced s x (reported r lost) (sym (ap pending c)) y (k y)
Move-IsKept b {s} (shuts x r lost c) k y =
    advanced (with_end s (other x) _) x (stopped r lost) (sym (ap pending c)) y
      (flagged s (other x) _ refl refl refl y (k y))
Move-IsKept b (receives r rest h d) k y = k y
Move-IsKept b {s} (closes r h) k y = flagged s b.closed_first _ refl refl refl y (k y)
Move-IsKept b {s} (closes_second r h) k y =
    flagged s (other b.closed_first) _ refl refl refl y (k y)

pub Reach-IsKept : (b : Bridge) {s : State} → Reach b new_bridge s → (x : Side) → IsKept s x
Reach-IsKept b here x = refl
Reach-IsKept b (peer r p) x = Peer-IsKept p (Reach-IsKept b r) x
Reach-IsKept b (move r m) x = Move-IsKept b m (Reach-IsKept b r) x
