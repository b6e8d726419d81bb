-- ===== src/Bridge/Sound.antt =====
-- In every state that a bridge comes to, its reports are sound.
use goxic.Prelude.{
  ◌≡◌, ◌≢◌, refl, ap, ◌∙◌, true, List, [], ◌∷◌, ◌++◌, some, All, All-append, some-eq-some, subst,
}
use goxic.Bridge.Step.{
  Side, near, far, Report, nil, failed, Both, set, Copier, copying, holding, copied, reported,
  stopped, waiting, State, Bridge, new_bridge, Move, reads, reads_end, read_fails, writes,
  write_fails, reports, shuts, receives, closes, closes_second, Reach, here, peer, move,
}
use goxic.Bridge.Reports.{
  verdict, received, posted, IsFrom, IsSound, Peer-IsSound, Move-IsFrom, Move-IsDrained, All-map,
}

set_at : {A : Type 0} (f : Both A) (x : Side) (a : A) → set f x a x ≡ a
set_at f near a = refl
set_at f far a = refl

Move-queued :
    (b : Bridge) {s t : State} → Move b s t → All (IsFrom t) s.done → All (IsFrom t) t.done
Move-queued b (reads x chunk rest c o n i) k = k
Move-queued b (reads_end x c o i e) k = k
Move-queued b (read_fails x c f) k = k
Move-queued b (writes x chunk c w) k = k
Move-queued b (write_fails x chunk c w) k = k
Move-queued b {s} {t} (reports x q lost c) k =
    All-append (IsFrom t) s.done (q ∷ []) k
      ((x, ap verdict (set_at s.copiers x (reported q lost))), _)
Move-queued b (shuts x q lost c) k = k
Move-queued b {s} {t} (receives q rest h d) k = (subst (All (IsFrom t)) d k).1
Move-queued b (closes q h) k = k
Move-queued b (closes_second q h) k = k

Move-told :
    (b : Bridge) {s t : State}
    → Move b s t
    → All (IsFrom t) s.done
    → ((r : Report) → received s.handler ≡ some r → IsFrom t r)
    → (r : Report) → received t.handler ≡ some r
    → IsFrom t r
Move-told b (reads x chunk rest c o n i) q k r v = k r v
Move-told b (reads_end x c o i e) q k r v = k r v
Move-told b (read_fails x c f) q k r v = k r v
Move-told b (writes x chunk c w) q k r v = k r v
Move-told b (write_fails x chunk c w) q k r v = k r v
Move-told b (reports x p lost c) q k r v = k r v
Move-told b (shuts x p lost c) q k r v = k r v
Move-told b {s} {t} (receives p rest h d) q k r e =
    subst (IsFrom t) (some-eq-some e) (subst (All (IsFrom t)) d q).0
Move-told b (closes p h) q k r e = k r (ap received h ∙ e)
Move-told b (closes_second p h) q k r e = k r (ap received h ∙ e)

posted-set :
    (Q : Type 0) (g : Both Copier) (x : Side) (c : Copier)
    → (posted c ≡ true → posted (g x) ≡ true)
    → ((y : Side) → posted (g y) ≡ true → Q)
    → (y : Side) → posted (set g x c y) ≡ true
    → Q
posted-set Q g near c h k near e = k near (h e)
posted-set Q g near c h k far e = k far e
posted-set Q g far c h k near e = k near e
posted-set Q g far c h k far e = k far (h e)

append-ne-nil : (rs : List Report) (r : Report) → rs ++ (r ∷ []) ≢ []
append-ne-nil [] r e = cc e
append-ne-nil (q ∷ rs) r e = cc e

abbrev IsNoticed : State → Type 0
IsNoticed s = (x : Side) → posted (s.copiers x) ≡ true → s.handler ≡ waiting → s.done ≢ []

Move-IsNoticed : (b : Bridge) {s t : State} → Move b s t → IsNoticed s → IsNoticed t
Move-IsNoticed b {s} (reads x chunk rest c o n i) k =
    posted-set _ s.copiers x (holding chunk) (λ e. cc e) k
Move-IsNoticed b {s} (reads_end x c o i f) k =
    posted-set _ s.copiers x (copied nil []) (λ e. cc e) k
Move-IsNoticed b {s} (read_fails x c f) k =
    posted-set _ s.copiers x (copied failed []) (λ e. cc e) k
Move-IsNoticed b {s} (writes x chunk c w) k = posted-set _ s.copiers x copying (λ e. cc e) k
Move-IsNoticed b {s} (write_fails x chunk c w) k =
    posted-set _ s.copiers x (copied failed chunk) (λ e. cc e) k
Move-IsNoticed b {s} (reports x q lost c) k = λ y e w. append-ne-nil s.done q
Move-IsNoticed b {s} (shuts x q lost c) k =
    posted-set _ s.copiers x (stopped q lost) (λ e. ap posted c) k
Move-IsNoticed b (receives q rest h d) k = λ y e w. cc w
Move-IsNoticed b (closes q h) k = λ y e w. cc w
Move-IsNoticed b (closes_second q h) k = λ y e w. cc w

Move-IsSound : (b : Bridge) {s t : State} → Move b s t → IsSound s → IsSound t
Move-IsSound b {s} {t} m k =
    let queued = All-map (IsFrom s) (IsFrom t) (Move-IsFrom b m) s.done k.queued in
    record {
      drained = Move-IsDrained b m k.drained;
      queued = Move-queued b m queued;
      told = Move-told b m queued (λ r e. Move-IsFrom b m r (k.told r e));
      noticed = Move-IsNoticed b m k.noticed;
    }

new_bridge-IsSound : IsSound new_bridge
new_bridge-IsSound = record {
  drained = λ x v. cc v;
  queued = _;
  told = λ r e. cc e;
  noticed = λ x e. cc e;
}

pub Reach-IsSound : (b : Bridge) {s : State} → Reach b new_bridge s → IsSound s
Reach-IsSound b here = new_bridge-IsSound
Reach-IsSound b (peer r p) = Peer-IsSound p (Reach-IsSound b r)
Reach-IsSound b (move r m) = Move-IsSound b m (Reach-IsSound b r)
