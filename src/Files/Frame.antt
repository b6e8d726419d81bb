-- ===== src/Files/Frame.antt =====
-- What a change at one path leaves of the others.
use goxic.Prelude.{
  ◌<◌, ◌≤◌, ◌≡◌, refl, true, false, [], ◌∷◌, length, some, Bytes, arith, text_eq_refl,
}
use goxic.Files.{Location, Node, Disk, same_path, put, enter}

same_path_refl : (p : Location) → same_path p p ≡ true
unfolding same_path
same_path_refl [] = refl
same_path_refl (c ∷ p) = rw (text_eq_refl c) (same_path_refl p)

same_path_shorter : (p q : Location) → length q < length p → same_path p q ≡ false
unfolding same_path
same_path_shorter [] q l = elim l [ ]
same_path_shorter (c ∷ p) [] l = refl
same_path_shorter (c ∷ p) (e ∷ q) l =
    let ih = same_path_shorter p q (omega arith) in ground (arith, ih)

pub same_path_deeper : (p q : Location) → length p < length q → same_path p q ≡ false
unfolding same_path
same_path_deeper p [] l = elim l [ ]
same_path_deeper [] (e ∷ q) l = refl
same_path_deeper (c ∷ p) (e ∷ q) l =
    let ih = same_path_deeper p q (omega arith) in ground (arith, ih)

pub put_at : (d : Disk) (p : Location) (n : Node) → (put d p n).nodes p ≡ some n
unfolding put
put_at d p n = rw (same_path_refl p) refl

pub put_shorter :
    (d : Disk) (p : Location) (n : Node) (q : Location)
    → length q < length p
    → (put d p n).nodes q ≡ d.nodes q
unfolding put
put_shorter d p n q l = rw (same_path_shorter p q l) refl

-- The same nodes at a path and above it, for the same user.
pub record Agree (d e : Disk) (p : Location) : Type 0 where
  pub user : d.is_root ≡ e.is_root
  pub above : (q : Location) → length q ≤ length p → d.nodes q ≡ e.nodes q

pub enter-Agree : (d e : Disk) (p : Location) → Agree d e p → enter d p ≡ enter e p
unfolding enter
enter-Agree d e [] a = rw (a.above [] (omega arith), a.user) refl
enter-Agree d e (c ∷ p) a =
    let above : Agree d e p = record { user = a.user; above = λ q l. a.above q (omega arith) } in
    rw (enter-Agree d e p above, a.above (c ∷ p) (omega arith), a.user) refl

pub put-Agree : (d : Disk) (c : Bytes) (p : Location) (n : Node) → Agree (put d (c ∷ p) n) d p
unfolding put
put-Agree d c p n = record { user = refl; above = λ q l. put_shorter d (c ∷ p) n q (omega arith) }
