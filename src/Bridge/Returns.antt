-- ===== src/Bridge/Returns.antt =====
-- The handler of a bridge returns once a side has ended.
use goxic.Prelude.{
  ℕ, zero, suc, ◌+◌, ◌*◌, ◌<◌, ◌≡◌, ◌≢◌, ◌⊎◌, inl, inr, refl, sym, ap, ◌∙◌, true, List, [], ◌∷◌,
  ◌++◌, append-nil, length, length-append, Bytes, arith, Bool-cases,
}
use goxic.Bridge.Step.{
  Side, near, far, Report, other, End, CannotWrite, CanRead, CannotRead, CanWrite, Copier, copying,
  holding, copied, reported, stopped, Handler, waiting, closing, closing_second, returned, State,
  Bridge, new_bridge, with_end, set_keeps, Move, reads, reads_end, read_fails, writes, write_fails,
  reports, shuts, receives, closes, closes_second, Reach, move,
}
use goxic.Bridge.Reports.{posted, IsSound}
use goxic.Bridge.Sound.{Reach-IsSound}

abbrev copier_work : Copier → ℕ
copier_work copying = 3
copier_work (holding chunk) = 4
copier_work (copied r lost) = 2
copier_work (reported r lost) = 1
copier_work (stopped r lost) = 0

abbrev handler_work : Handler → ℕ
handler_work waiting = 3
handler_work (closing r) = 2
handler_work (closing_second r) = 1
handler_work (returned r) = 0

abbrev side_work : State → Side → ℕ
side_work s x = 2 * length (s.ends x).inbox + copier_work (s.copiers x)

-- More than the steps that are left while the peers do nothing.
abbrev work : State → ℕ
work s = side_work s near + side_work s far + handler_work s.handler

length-ne-nil : (xs : Bytes) → xs ≢ [] → 0 < length xs
length-ne-nil [] n = elim (n refl) [ ]
length-ne-nil (x ∷ xs) n = omega arith

length-split : (i chunk rest : Bytes) → i ≡ chunk ++ rest → chunk ≢ [] → length rest < length i
length-split i chunk rest e n =
    omega (arith, ap length e, length-append chunk rest, length-ne-nil chunk n)

-- A close, with a step of the handler.
closed_work :
    (s : State) (x : Side) (h : Handler)
    → handler_work h < handler_work s.handler
    → work (record (with_end s x (record (s.ends x) { closed = true })) { handler = h }) < work s
closed_work s near h l = omega arith
closed_work s far h l = omega arith

-- Every step of the program leaves less.
Move-work : (b : Bridge) {s t : State} → Move b s t → work t < work s
Move-work b {s} (reads near chunk rest c o n i) =
    omega (arith, ap copier_work c, length-split (s.ends near).inbox chunk rest i n)
Move-work b {s} (reads far chunk rest c o n i) =
    omega (arith, ap copier_work c, length-split (s.ends far).inbox chunk rest i n)
Move-work b (reads_end near c o i e) = omega (arith, ap copier_work c)
Move-work b (reads_end far c o i e) = omega (arith, ap copier_work c)
Move-work b (read_fails near c f) = omega (arith, ap copier_work c)
Move-work b (read_fails far c f) = omega (arith, ap copier_work c)
Move-work b (writes near chunk c w) = omega (arith, ap copier_work c)
Move-work b (writes far chunk c w) = omega (arith, ap copier_work c)
Move-work b (write_fails near chunk c w) = omega (arith, ap copier_work c)
Move-work b (write_fails far chunk c w) = omega (arith, ap copier_work c)
Move-work b (reports near r lost c) = omega (arith, ap copier_work c)
Move-work b (reports far r lost c) = omega (arith, ap copier_work c)
Move-work b (shuts near r lost c) = omega (arith, ap copier_work c)
Move-work b (shuts far r lost c) = omega (arith, ap copier_work c)
Move-work b (receives r rest h d) = omega (arith, ap handler_work h)
Move-work b {s} (closes r h) = closed_work s b.closed_first (closing_second r) (rw h (omega arith))
Move-work b {s} (closes_second r h) =
    closed_work s (other b.closed_first) (returned r) (rw h (omega arith))

-- A side's peer has closed it or reset it.
abbrev HasEnded : End → Type 0
HasEnded e = (e.ended ≡ true) ⊎ (e.broken ≡ true)

Move-HasEnded :
    (b : Bridge) {s t : State} → Move b s t → (y : Side) → HasEnded (s.ends y) → HasEnded (t.ends y)
Move-HasEnded b {s} (reads x chunk rest c o n i) = set_keeps HasEnded s.ends x _ (λ p. p)
Move-HasEnded b (reads_end x c o i e) = λ y p. p
Move-HasEnded b (read_fails x c f) = λ y p. p
Move-HasEnded b {s} (writes x chunk c w) = set_keeps HasEnded s.ends (other x) _ (λ p. p)
Move-HasEnded b (write_fails x chunk c w) = λ y p. p
Move-HasEnded b (reports x r lost c) = λ y p. p
Move-HasEnded b {s} (shuts x r lost c) = set_keeps HasEnded s.ends (other x) _ (λ p. p)
Move-HasEnded b (receives r rest h d) = λ y p. p
Move-HasEnded b {s} (closes r h) = set_keeps HasEnded s.ends b.closed_first _ (λ p. p)
Move-HasEnded b {s} (closes_second r h) =
    set_keeps HasEnded s.ends (other b.closed_first) _ (λ p. p)

abbrev Enabled : Bridge → State → Type 0
Enabled b s = (t : State) × Move b s t

-- A write can succeed or fail.
CanWrite-cases : (e : End) → CanWrite e ⊎ CannotWrite e
CanWrite-cases e = elim (Bool-cases e.closed) [
  | inl c ↦ inr (inl c)
  | inr c ↦ elim (Bool-cases e.broken) [
    | inl k ↦ inr (inr (inl k))
    | inr k ↦ elim (Bool-cases e.shut) [
      | inl t ↦ inr (inr (inr t))
      | inr t ↦ inl (record { open_end = c; sound = k; unshut = t })
    ]
  ]
]

CanRead-cases : (e : End) → CanRead e ⊎ CannotRead e
CanRead-cases e = elim (Bool-cases e.closed) [
  | inl c ↦ inr (inl c)
  | inr c ↦ elim (Bool-cases e.broken) [
    | inl k ↦ inr (inr k)
    | inr k ↦ inl (record { open_end = c; sound = k })
  ]
]

reading-Enabled :
    (b : Bridge) (s : State) (x : Side)
    → s.copiers x ≡ copying
    → CanRead (s.ends x)
    → HasEnded (s.ends x)
    → (i : Bytes) → (s.ends x).inbox ≡ i
    → Enabled b s
reading-Enabled b s x c o (inl e) [] i = (_, reads_end x c o i e)
reading-Enabled b s x c o (inr k) [] i = (_, read_fails x c (inr k))
reading-Enabled b s x c o h (a ∷ tail) i =
    (_, reads x (a ∷ tail) [] c o (λ e. cc e) (i ∙ sym (append-nil (a ∷ tail))))

copying-Enabled :
    (b : Bridge) (s : State) (x : Side) → s.copiers x ≡ copying → HasEnded (s.ends x) → Enabled b s
copying-Enabled b s x c h = elim (CanRead-cases (s.ends x)) [
  | inl o ↦ reading-Enabled b s x c o h (s.ends x).inbox refl
  | inr f ↦ (_, read_fails x c f)
]

receiving-Enabled :
    (b : Bridge) (s : State)
    → s.handler ≡ waiting
    → (rs : List Report) → s.done ≡ rs
    → s.done ≢ []
    → Enabled b s
receiving-Enabled b s w [] d n = elim (n d) [ ]
receiving-Enabled b s w (r ∷ rs) d n = (_, receives r rs w d)

-- While the handler waits, the goroutine of a side that has ended can go on, or has reported.
waiting-Enabled :
    (b : Bridge) (s : State) (x : Side)
    → IsSound s
    → HasEnded (s.ends x)
    → s.handler ≡ waiting
    → (c : Copier) → s.copiers x ≡ c
    → Enabled b s
waiting-Enabled b s x k h w copying c = copying-Enabled b s x c h
waiting-Enabled b s x k h w (holding chunk) c = elim (CanWrite-cases (s.ends (other x))) [
  | inl p ↦ (_, writes x chunk c p)
  | inr p ↦ (_, write_fails x chunk c p)
]
waiting-Enabled b s x k h w (copied r lost) c = (_, reports x r lost c)
waiting-Enabled b s x k h w (reported r lost) c = (_, shuts x r lost c)
waiting-Enabled b s x k h w (stopped r lost) c =
    receiving-Enabled b s w s.done refl (k.noticed x (ap posted c) w)

handler-Enabled :
    (b : Bridge) (s : State) (x : Side)
    → IsSound s
    → HasEnded (s.ends x)
    → (h : Handler) → s.handler ≡ h
    → ((r : Report) × (s.handler ≡ returned r)) ⊎ Enabled b s
handler-Enabled b s x k e waiting h = inr (waiting-Enabled b s x k e h (s.copiers x) refl)
handler-Enabled b s x k e (closing r) h = inr (_, closes r h)
handler-Enabled b s x k e (closing_second r) h = inr (_, closes_second r h)
handler-Enabled b s x k e (returned r) h = inl (r, h)

-- Every run of the program's steps comes to the handler's return: it has returned, or some step
-- can be taken and every step leads to where it does.
pub data Inevitable (b : Bridge) : State → Type 0 where
  done : {s : State} (r : Report) → s.handler ≡ returned r → Inevitable b s
  goes_on :
      {s t : State} → Move b s t → ((u : State) → Move b s u → Inevitable b u) → Inevitable b s

Inevitable-below :
    (b : Bridge) (x : Side) (n : ℕ) {s : State}
    → work s < n
    → Reach b new_bridge s
    → HasEnded (s.ends x)
    → Inevitable b s
Inevitable-below b x zero l r e = elim l [ ]
Inevitable-below b x (suc n) {s} l r e =
    elim (handler-Enabled b s x (Reach-IsSound b r) e s.handler refl) [
      | inl (q, h) ↦ Inevitable.done q h
      | inr (t, m) ↦ goes_on m (λ u m'.
          Inevitable-below b x n (omega (arith, Move-work b m')) (move r m')
            (Move-HasEnded b m' x e))
    ]

-- In every state that a bridge can come to, and where the peer of one side, whichever, has closed
-- or reset its connection, the handler returns: while the peers do nothing more, no order of the
-- goroutines' and the handler's steps can avoid it, be stuck before it, or go on for ever.
pub Reach-Inevitable :
    (b : Bridge) {s : State} (x : Side)
    → Reach b new_bridge s
    → HasEnded (s.ends x)
    → Inevitable b s
Reach-Inevitable b {s} x r e = Inevitable-below b x (suc (work s)) (omega arith) r e
