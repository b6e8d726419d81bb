-- ===== src/Files/Opened.antt =====
-- What stands in a file that was created, or made by `os.WriteFile`.
use goxic.Prelude.{
  ℕ, subst, if◌then◌else◌, ◌-◌, ◌/◌, ◌%◌, ◌≤◌, ◌≡◌, inl, inr, refl, sym, ap, ◌∙◌, Bool, true, false,
  [], ◌∷◌, ◌++◌, length, take, take_of_ge, Option, none, some, Bytes, arith, Bool-cases,
}
use goxic.Files.{
  Location, Node, dir, file, Disk, Answer, done, missing, refused, may_read, may_write, put, enter,
  stat, open_path, open_file, open_in, truncate, truncate_node, created, write_node, write,
  write_opened, create, write_file, write_opened,
}
use goxic.Files.Frame.{put_at, put_shorter, Agree, enter-Agree, put-Agree}

-- A file at `c ∷ p` that is open for reading and writing, in a disk that is else as it was.
pub record IsOpen (d : Disk) (c : Bytes) (p : Location) (d' : Disk) : Type 0 where
  pub mode : ℕ
  pub content : Bytes
  dir_mode : ℕ
  pub node : d'.nodes (c ∷ p) ≡ some (file mode content)
  pub reads : may_read d mode ≡ true
  entering : enter d p ≡ done dir_mode
  agree : Agree d' d p
  pub room : d.space ≤ d'.space

Agree-refl : (d : Disk) (p : Location) → Agree d d p
Agree-refl d p = record { user = refl; above = λ q l. refl }

file-IsOpen :
    (d : Disk) (c : Bytes) (p : Location) (m k : ℕ) (content : Bytes)
    → enter d p ≡ done m
    → d.nodes (c ∷ p) ≡ some (file k content)
    → may_read d k ≡ true
    → IsOpen d c p d
file-IsOpen d c p m k content e f r = record {
  mode = k;
  content = content;
  dir_mode = m;
  node = f;
  reads = r;
  entering = e;
  agree = Agree-refl d p;
  room = omega arith;
}

-- A file made with a mode that lets its owner read it.
new_file-IsOpen :
    (d : Disk) (c : Bytes) (p : Location) (m mode : ℕ)
    → (mode / 256) % 2 ≡ 1
    → enter d p ≡ done m
    → IsOpen d c p (put d (c ∷ p) (file mode []))
unfolding put
new_file-IsOpen d c p m mode r e = record {
  mode = mode;
  content = [];
  dir_mode = m;
  node = put_at d (c ∷ p) (file mode []);
  reads = ground (arith, r);
  entering = e;
  agree = put-Agree d c p (file mode []);
  room = omega arith;
}

open_in-IsOpen :
    (d : Disk) (c : Bytes) (p : Location) (a : Answer ℕ) (n : Option Node)
    → enter d p ≡ a
    → d.nodes (c ∷ p) ≡ n
    → (open_in true d 438 (c ∷ p) a n).1 ≡ done _
    → IsOpen d c p (open_in true d 438 (c ∷ p) a n).0
unfolding open_in
open_in-IsOpen d c p missing n e f h = ground (arith, h)
open_in-IsOpen d c p refused n e f h = ground (arith, h)
open_in-IsOpen d c p (done m) none e f h = elim (Bool-cases (may_write d m)) [
  | inl w ↦ rw w (new_file-IsOpen d c p m 438 (omega arith) e)
  | inr w ↦ ground (arith, h, w)
]
open_in-IsOpen d c p (done m) (some (dir k)) e f h = ground (arith, h)
open_in-IsOpen d c p (done m) (some (file k content)) e f h =
    file-IsOpen d c p m k content e f (ground (arith, h))

truncate-IsOpen :
    (d d' : Disk) (c : Bytes) (p : Location)
    → IsOpen d c p d'
    → (o : IsOpen d c p (truncate d' (c ∷ p))) × (o.content ≡ [])
unfolding truncate truncate_node put
truncate-IsOpen d d' c p o = rw o.node (
  record {
    mode = o.mode;
    content = [];
    dir_mode = o.dir_mode;
    node = put_at d' (c ∷ p) (file o.mode []);
    reads = o.reads;
    entering = o.entering;
    agree = record {
      user = o.agree.user;
      above = λ q l. put_shorter d' (c ∷ p) (file o.mode []) q (omega arith) ∙ o.agree.above q l;
    };
    room = omega (arith, o.room);
  },
  refl,
)

opened_lem :
    (d : Disk) (c : Bytes) (p : Location) (m k : ℕ) (content : Bytes)
    → enter d p ≡ done m
    → d.nodes (c ∷ p) ≡ some (file k content)
    → may_read d k ≡ true
    → open_path d (c ∷ p) ≡ done (file k content)
unfolding open_path stat
opened_lem d c p m k content e f r = rw (e, f, r) refl

pub write-IsOpen :
    (d d' : Disk) (c : Bytes) (p : Location) (bytes : Bytes) (o : IsOpen d c p d')
    → o.content ≡ []
    → open_path (write d' (c ∷ p) bytes).0 (c ∷ p) ≡ done (file o.mode (take d'.space bytes))
unfolding write write_node put
write-IsOpen d d' c p bytes o z =
    let e = (put d' (c ∷ p) (file o.mode (o.content ++ take d'.space bytes))) in
    rw o.node (
      opened_lem (record e { space = d'.space - length bytes }) c p o.dir_mode o.mode
        (take d'.space bytes)
        (enter-Agree (record e { space = d'.space - length bytes }) d p
            (record {
              user = o.agree.user;
              above = λ q l.
                  put_shorter d' (c ∷ p) (file o.mode (o.content ++ take d'.space bytes)) q
                    (omega arith)
                  ∙ o.agree.above q l;
            })
          ∙ o.entering)
        (put_at d' (c ∷ p) _ ∙ rw z refl) (rw o.agree.user o.reads))

created-IsOpen :
    (d : Disk) (c : Bytes) (p : Location) (r : Disk × Answer Unit)
    → (r.1 ≡ done _ → IsOpen d c p r.0)
    → (created (c ∷ p) r).1 ≡ done _
    → (o : IsOpen d c p (created (c ∷ p) r).0) × (o.content ≡ [])
unfolding created
created-IsOpen d c p (d', done u) o h = truncate-IsOpen d d' c p (o refl)
created-IsOpen d c p (d', missing) o h = ground (arith, h)
created-IsOpen d c p (d', refused) o h = ground (arith, h)

pub create-IsOpen :
    (d : Disk) (c : Bytes) (p : Location)
    → (create d (c ∷ p)).1 ≡ done _
    → (o : IsOpen d c p (create d (c ∷ p)).0) × (o.content ≡ [])
unfolding create open_file
create-IsOpen d c p h =
    created-IsOpen d c p (open_file true d 438 (c ∷ p))
      (open_in-IsOpen d c p (enter d p) (d.nodes (c ∷ p)) refl refl) h

-- What `os.Open` and `io.ReadAll` find in a file that was created and written.
pub open_path-write :
    (d : Disk) (c : Bytes) (p : Location) (bytes : Bytes)
    → length bytes ≤ d.space
    → (create d (c ∷ p)).1 ≡ done _
    → (k : ℕ) × (open_path (write (create d (c ∷ p)).0 (c ∷ p) bytes).0 (c ∷ p)
        ≡ done (file k bytes))
open_path-write d c p bytes l h =
    let (o, z) = create-IsOpen d c p h in
    let all : take (create d (c ∷ p)).0.space bytes ≡ bytes =
      take_of_ge (create d (c ∷ p)).0.space bytes (omega (arith, o.room)) in
    (o.mode, write-IsOpen d (create d (c ∷ p)).0 c p bytes o z ∙ ap (λ b. done (file o.mode b)) all)

write_node_room :
    (d : Disk) (p : Location) (bytes : Bytes) (n : Option Node)
    → (write_node d p bytes n).1 ≡ done _
    → length bytes ≤ d.space
unfolding write_node
write_node_room d p bytes (some (file m content)) h = ground (arith, h)
write_node_room d p bytes (some (dir m)) h = ground (arith, h)
write_node_room d p bytes none h = ground (arith, h)

write_room :
    (d : Disk) (p : Location) (bytes : Bytes)
    → (write d p bytes).1 ≡ done _
    → length bytes ≤ d.space
unfolding write
write_room d p bytes h = write_node_room d p bytes (d.nodes p) h

write_file_all :
    (d d' : Disk) (c : Bytes) (p : Location) (bytes : Bytes) (o : IsOpen d c p d')
    → o.content ≡ []
    → (write d' (c ∷ p) bytes).1 ≡ done _
    → (k : ℕ) × (open_path (write d' (c ∷ p) bytes).0 (c ∷ p) ≡ done (file k bytes))
write_file_all d d' c p bytes o z h =
    let all : take d'.space bytes ≡ bytes =
      take_of_ge d'.space bytes (write_room d' (c ∷ p) bytes h) in
    (o.mode, write-IsOpen d d' c p bytes o z ∙ ap (λ b. done (file o.mode b)) all)

abbrev IsWritten : Location → Bytes → Disk × Answer Unit → Type 0
IsWritten path bytes r = r.1 ≡ done _ → (k : ℕ) × (open_path r.0 path ≡ done (file k bytes))

write_new :
    (d : Disk) (c : Bytes) (p : Location) (bytes : Bytes) (m : ℕ) (t : Bool)
    → enter d p ≡ done m
    → IsWritten (c ∷ p) bytes (
        write_opened
          (c ∷ p)
          bytes
          (if t then (put d (c ∷ p) (file 420 []), done _) else (d, refused)))
unfolding write_opened
write_new d c p bytes m true e h =
    let new = put d (c ∷ p) (file 420 []) in
    let (o, z) = truncate-IsOpen d new c p (new_file-IsOpen d c p m 420 (omega arith) e) in
    write_file_all d (truncate new (c ∷ p)) c p bytes o z h
write_new d c p bytes m false e h = ground (arith, h)

write_in-IsWritten :
    (d : Disk) (c : Bytes) (p : Location) (bytes : Bytes) (a : Answer ℕ)
    → enter d p ≡ a
    → IsWritten (c ∷ p) bytes (write_opened (c ∷ p) bytes (open_in false d 420 (c ∷ p) a none))
unfolding open_in write_opened
write_in-IsWritten d c p bytes missing e = λ h. ground (arith, h)
write_in-IsWritten d c p bytes refused e = λ h. ground (arith, h)
write_in-IsWritten d c p bytes (done m) e = write_new d c p bytes m (may_write d m) e

-- What is read from a new file after `os.WriteFile`, if it gives no error.
pub open_path-write_file :
    (d : Disk) (c : Bytes) (p : Location) (bytes : Bytes)
    → d.nodes (c ∷ p) ≡ none
    → (write_file d 420 (c ∷ p) bytes).1 ≡ done _
    → (k : ℕ) × (open_path (write_file d 420 (c ∷ p) bytes).0 (c ∷ p) ≡ done (file k bytes))
unfolding write_file open_file
open_path-write_file d c p bytes f =
    subst
      (λ (n : Option Node).
        IsWritten (c ∷ p) bytes
          (write_opened (c ∷ p) bytes (open_in false d 420 (c ∷ p) (enter d p) n)))
      (sym f) (write_in-IsWritten d c p bytes (enter d p) refl)
