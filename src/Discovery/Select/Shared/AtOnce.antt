-- ===== src/Discovery/Select/Shared/AtOnce.antt =====
-- Callers that have all read the loads before one of them tracks its connection.
use goxic.Prelude.{
  ℕ, suc, ◌+◌, ◌<◌, ◌≤◌, ◌≡◌, refl, sym, ap, subst, ◌∙◌, Bool, true, false, List, [], ◌∷◌, ◌++◌,
  Option, some, ◌==◌, ==_refl, if◌then◌else◌, length, map, Elem, All, arith,
}
use goxic.Prelude.Int.{pos, max_int}
use goxic.Peer.{PeerIds}
use goxic.Discovery.State.{AddrInfo}
use goxic.Discovery.Loads.{track_connection, current_load}
use goxic.Discovery.Select.{best_server}
use goxic.Discovery.Select.Shared.{
  Caller, Turn, reads, tracks, at_once, Shared, track_chosen, turn, turns,
}
use goxic.Discovery.Select.Shared.Even.{HasLoads, with_more, HasLoads-track, finds}

module _ (peers : PeerIds) where
  open peers use {PeerId, same}

  module _ (servers : List (AddrInfo PeerId)) where
    turns-append :
        (sh : Shared peers) (ts us : List Turn)
        → turns peers servers sh (ts ++ us) ≡ turns peers servers (turns peers servers sh ts) us
    unfolding turns
    turns-append sh [] us = refl
    turns-append sh (t ∷ ts) us = turns-append (turn peers servers sh t) ts us

    abbrev best : Shared peers → Option (AddrInfo PeerId)
    best sh = best_server peers (current_load peers sh.sd) servers

    module _ (t : AddrInfo PeerId) where
      -- While callers only read, all find the same server.
      abbrev Best : Shared peers → Type 0
      Best sh = best sh ≡ some t

      chosen_if :
          (b : Bool) (best kept : Option (AddrInfo PeerId))
          → best ≡ some t
          → kept ≡ some t
          → (if b then best else kept) ≡ some t
      chosen_if true best kept h k = h
      chosen_if false best kept h k = k

      keeps_chosen :
          (n : ℕ) (cs : List Caller) (sh : Shared peers)
          → Best sh
          → sh.chosen n ≡ some t
          → (turns peers servers sh (map reads cs)).chosen n ≡ some t
      unfolding turns turn
      keeps_chosen n [] sh b h = h
      keeps_chosen n ((m, now) ∷ cs) sh b h =
          keeps_chosen n cs (turn peers servers sh (reads (m, now))) b
            (chosen_if (n == m) _ (sh.chosen n) b h)

      reads-sd :
          (cs : List Caller) (sh : Shared peers)
          → (turns peers servers sh (map reads cs)).sd ≡ sh.sd
      unfolding turns turn
      reads-sd [] sh = refl
      reads-sd ((m, now) ∷ cs) sh = reads-sd cs (turn peers servers sh (reads (m, now)))

      abbrev Chose : Shared peers → List Caller → Type 0
      Chose sh cs = All (λ (c : Caller). sh.chosen c.0 ≡ some t) cs

      reads-Chose :
          (cs : List Caller) (sh : Shared peers)
          → Best sh
          → Chose (turns peers servers sh (map reads cs)) cs
      unfolding turns turn
      reads-Chose [] sh b = tt
      reads-Chose ((m, now) ∷ cs) sh b =
          let sh' = turn peers servers sh (reads (m, now)) in
          (
            keeps_chosen m cs sh' b (ap (λ e. if e then best sh else sh.chosen m) (==_refl m) ∙ b),
            reads-Chose cs sh' b,
          )

      track_chosen-some :
          (now : ℕ) (server : Option (AddrInfo PeerId)) (sh : Shared peers)
          → server ≡ some t
          → track_chosen peers now server sh
            ≡ record sh { sd = track_connection peers now t.id sh.sd }
      unfolding track_chosen
      track_chosen-some now server sh h = rw h refl

      more_more :
          (f : PeerId → ℕ) (k : ℕ) (p : PeerId)
          → with_more peers t.id k (with_more peers t.id 1 f) p ≡ with_more peers t.id (suc k) f p
      more_more f k p = ground arith

      no_more : (f : PeerId → ℕ) (p : PeerId) → f p ≡ with_more peers t.id 0 f p
      no_more f p = ground arith

      below :
          (f : PeerId → ℕ) (k : ℕ)
          → ((p : PeerId) → f p + suc k < max_int)
          → (p : PeerId) → with_more peers t.id 1 f p + k < max_int
      below f k l p = let h = l p in ground (arith, h)

      Chose-track :
          (cs ds : List Caller) (sh : Shared peers) (f : PeerId → ℕ)
          → Chose sh cs
          → Chose sh ds
          → HasLoads peers sh.sd f
          → ((p : PeerId) → f p + length cs < max_int)
          → let sh' = turns peers servers sh (map tracks cs) in
            HasLoads peers sh'.sd (with_more peers t.id (length cs) f) × Chose sh' ds
      unfolding turns turn
      Chose-track [] ds sh f c e h l = (λ p. h p ∙ ap pos (no_more f p), e)
      Chose-track ((n, now) ∷ cs) ds sh f c e h l =
          let sh' : Shared peers = record sh { sd = track_connection peers now t.id sh.sd } in
          let low = λ (p : PeerId). let r : f p < max_int = omega (arith, l p) in r in
          let (k, e') =
            Chose-track cs ds sh' (with_more peers t.id 1 f) c.1 e
              (HasLoads-track peers sh.sd f now t.id h low) (below f (length cs) l) in
          subst
            (λ (z : Shared peers).
              HasLoads peers (turns peers servers z (map tracks cs)).sd
                (with_more peers t.id (suc (length cs)) f)
              × Chose (turns peers servers z (map tracks cs)) ds)
            (sym (track_chosen-some now (sh.chosen n) sh c.0))
            ((λ p. k p ∙ ap pos (more_more f (length cs) p)), e')

  -- The bug: where callers have all read the loads before one of them tracks its connection, and no
  -- connection ends meanwhile, all of them take the same server, one of those with the fewest
  -- connections, and it alone gets a connection more for each caller. There is at least one server,
  -- and the loads stay below the largest 64-bit integer.
  pub turns-Chose :
      (s : AddrInfo PeerId) (ss : List (AddrInfo PeerId)) (cs : List Caller) (sh : Shared peers)
      (f : PeerId → ℕ)
      → HasLoads peers sh.sd f
      → ((p : PeerId) → f p + length cs < max_int)
      → let sh' = turns peers (s ∷ ss) sh (at_once cs) in
        (t : AddrInfo PeerId) × Elem t (s ∷ ss)
        × All (λ (u : AddrInfo PeerId). f t.id ≤ f u.id) (s ∷ ss)
        × All (λ (c : Caller). sh'.chosen c.0 ≡ some t) cs
        × HasLoads peers sh'.sd (with_more peers t.id (length cs) f)
  turns-Chose s ss cs sh f h l =
      let servers : List (AddrInfo PeerId) = s ∷ ss in
      let low = λ (p : PeerId). let r : f p < max_int = omega (arith, l p) in r in
      let (t, e, listed, least) = finds peers sh.sd f s ss h low in
      let read = turns peers servers sh (map reads cs) in
      let chose = reads-Chose servers t cs sh e in
      let (k, c) =
        Chose-track servers t cs cs read f chose chose
          (subst (λ sd. HasLoads peers sd f) (sym (reads-sd servers t cs sh)) h) l in
      let whole = turns-append servers sh (map reads cs) (map tracks cs) in
      (
        t,
        listed,
        least,
        subst (λ (z : Shared peers). Chose servers t z cs) (sym whole) c,
        subst (λ (z : Shared peers). HasLoads peers z.sd (with_more peers t.id (length cs) f))
            (sym whole) k,
      )
