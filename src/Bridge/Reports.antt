-- ===== src/Bridge/Reports.antt =====
-- Where a goroutine's report comes from: what it says of the bytes, and who receives it.
use goxic.Prelude.{
  ◌≡◌, ◌≢◌, refl, sym, ap, ◌∙◌, Bool, true, false, List, [], ◌∷◌, Option, none, some, All,
}
use goxic.Bridge.Step.{
  Side, near, far, Report, nil, failed, other, Both, set, End, Copier, copying, holding, copied,
  reported, stopped, Handler, waiting, closing, closing_second, returned, State, Bridge, Peer,
  sends, hangs_up, resets, Move, reads, reads_end, read_fails, writes, write_fails, reports, shuts,
  receives, closes, closes_second,
}
use goxic.Bridge.Whole.{pending}

-- How `io.Copy` ended.
abbrev pub verdict : Copier → Option Report
verdict copying = none
verdict (holding chunk) = none
verdict (copied r lost) = some r
verdict (reported r lost) = some r
verdict (stopped r lost) = some r

abbrev pub received : Handler → Option Report
received waiting = none
received (closing r) = some r
received (closing_second r) = some r
received (returned r) = some r

-- Whether a goroutine has put its report into the channel.
abbrev pub posted : Copier → Bool
posted copying = false
posted (holding chunk) = false
posted (copied r lost) = false
posted (reported r lost) = true
posted (stopped r lost) = true

-- A copy that ended well has read all there was up to the end, and wrote all it read.
abbrev pub IsDrained : End → Copier → Type 0
IsDrained e c = verdict c ≡ some nil → (pending c ≡ []) × (e.inbox ≡ []) × (e.ended ≡ true)

abbrev pub IsFrom : State → Report → Type 0
IsFrom s r = (x : Side) × (verdict (s.copiers x) ≡ some r)

pub record IsSound (s : State) : Type 0 where
  pub drained : (x : Side) → IsDrained (s.ends x) (s.copiers x)
  pub queued : All (IsFrom s) s.done
  pub told : (r : Report) → received s.handler ≡ some r → IsFrom s r
  pub noticed : (x : Side) → posted (s.copiers x) ≡ true → s.handler ≡ waiting → s.done ≢ []

module _ (P : End → Copier → Type 0) (f : Both End) (g : Both Copier)
    (h : (y : Side) → P (f y) (g y)) where
  set_copier : (x : Side) (c : Copier) → P (f x) c → (y : Side) → P (f y) (set g x c y)
  set_copier near c p near = p
  set_copier near c p far = h far
  set_copier far c p near = h near
  set_copier far c p far = p

  set_end : (x : Side) (e : End) → P e (g x) → (y : Side) → P (set f x e y) (g y)
  set_end near e p near = p
  set_end near e p far = h far
  set_end far e p near = h near
  set_end far e p far = p

set_both :
    (P : End → Copier → Type 0) (f : Both End) (g : Both Copier)
    → ((y : Side) → P (f y) (g y))
    → (x : Side) (e : End) (c : Copier) → P e c
    → (y : Side) → P (set f x e y) (set g x c y)
set_both P f g h near e c p near = p
set_both P f g h near e c p far = h far
set_both P f g h far e c p near = h near
set_both P f g h far e c p far = p

verdict-set :
    (g : Both Copier) (x : Side) (c : Copier)
    → ((r : Report) → verdict (g x) ≡ some r → verdict c ≡ some r)
    → (y : Side) (r : Report) → verdict (g y) ≡ some r
    → verdict (set g x c y) ≡ some r
verdict-set g near c h near = h
verdict-set g near c h far = λ r e. e
verdict-set g far c h near = λ r e. e
verdict-set g far c h far = h

pub Peer-IsSound : {s t : State} → Peer s t → IsSound s → IsSound t
Peer-IsSound {s} (sends x bytes e) k = record {
  drained = set_end IsDrained s.ends s.copiers k.drained x _ (λ v. cc (e, (k.drained x v).2));
  queued = k.queued;
  told = k.told;
  noticed = k.noticed;
}
Peer-IsSound {s} (hangs_up x) k = record {
  drained =
      set_end IsDrained s.ends s.copiers k.drained x _
        (λ v. ((k.drained x v).0, (k.drained x v).1, refl));
  queued = k.queued;
  told = k.told;
  noticed = k.noticed;
}
Peer-IsSound {s} (resets x) k = record {
  drained = set_end IsDrained s.ends s.copiers k.drained x _ (k.drained x);
  queued = k.queued;
  told = k.told;
  noticed = k.noticed;
}

-- A report is never taken back.
Move-verdict :
    (b : Bridge) {s t : State}
    → Move b s t
    → (y : Side) (r : Report) → verdict (s.copiers y) ≡ some r
    → verdict (t.copiers y) ≡ some r
Move-verdict b {s} (reads x chunk rest c o n i) =
    verdict-set s.copiers x (holding chunk) (λ r v. cc (ap verdict c, v))
Move-verdict b {s} (reads_end x c o i e) =
    verdict-set s.copiers x (copied nil []) (λ r v. cc (ap verdict c, v))
Move-verdict b {s} (read_fails x c f) =
    verdict-set s.copiers x (copied failed []) (λ r v. cc (ap verdict c, v))
Move-verdict b {s} (writes x chunk c w) =
    verdict-set s.copiers x copying (λ r v. cc (ap verdict c, v))
Move-verdict b {s} (write_fails x chunk c w) =
    verdict-set s.copiers x (copied failed chunk) (λ r v. cc (ap verdict c, v))
Move-verdict b {s} (reports x q lost c) =
    verdict-set s.copiers x (reported q lost) (λ r v. cc (ap verdict c, v))
Move-verdict b {s} (shuts x q lost c) =
    verdict-set s.copiers x (stopped q lost) (λ r v. cc (ap verdict c, v))
Move-verdict b (receives q rest h d) = λ y r v. v
Move-verdict b (closes q h) = λ y r v. v
Move-verdict b (closes_second q h) = λ y r v. v

pub All-map :
    (P Q : Report → Type 0) → ((r : Report) → P r → Q r) → (rs : List Report) → All P rs → All Q rs
All-map P Q f [] h = h
All-map P Q f (r ∷ rs) h = (f r h.0, All-map P Q f rs h.1)

pub Move-IsFrom : (b : Bridge) {s t : State} → Move b s t → (r : Report) → IsFrom s r → IsFrom t r
Move-IsFrom b m r (x, v) = (x, Move-verdict b m x r v)

pub Move-IsDrained :
    (b : Bridge) {s t : State}
    → Move b s t
    → ((x : Side) → IsDrained (s.ends x) (s.copiers x))
    → (y : Side) → IsDrained (t.ends y) (t.copiers y)
Move-IsDrained b {s} (reads x chunk rest c o n i) k =
    set_both IsDrained s.ends s.copiers k x _ (holding chunk) (λ v. cc v)
Move-IsDrained b {s} (reads_end x c o i e) k =
    set_copier IsDrained s.ends s.copiers k x (copied nil []) (λ v. (refl, i, e))
Move-IsDrained b {s} (read_fails x c f) k =
    set_copier IsDrained s.ends s.copiers k x (copied failed []) (λ v. cc v)
Move-IsDrained b {s} (writes x chunk c w) k =
    set_end IsDrained s.ends (set s.copiers x copying)
      (set_copier IsDrained s.ends s.copiers k x copying (λ v. cc v)) (other x) _
      (set_copier IsDrained s.ends s.copiers k x copying (λ v. cc v) (other x))
Move-IsDrained b {s} (write_fails x chunk c w) k =
    set_copier IsDrained s.ends s.copiers k x (copied failed chunk) (λ v. cc v)
Move-IsDrained b {s} (reports x q lost c) k =
    set_copier IsDrained s.ends s.copiers k x (reported q lost)
      (λ v. let (p, i, e) = k x (ap verdict c ∙ v) in (sym (ap pending c) ∙ p, i, e))
Move-IsDrained b {s} (shuts x q lost c) k =
    let stopping =
      set_copier IsDrained s.ends s.copiers k x (stopped q lost)
        (λ v. let (p, i, e) = k x (ap verdict c ∙ v) in (sym (ap pending c) ∙ p, i, e)) in
    set_end IsDrained s.ends (set s.copiers x (stopped q lost)) stopping (other x) _
      (stopping (other x))
Move-IsDrained b (receives q rest h d) k = k
Move-IsDrained b {s} (closes q h) k =
    set_end IsDrained s.ends s.copiers k b.closed_first _ (k b.closed_first)
Move-IsDrained b {s} (closes_second q h) k =
    set_end IsDrained s.ends s.copiers k (other b.closed_first) _ (k (other b.closed_first))
