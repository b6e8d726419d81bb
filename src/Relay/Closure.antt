-- ===== src/Relay/Closure.antt =====
-- `isNormalConnectionClosure` of server/handlers/relay.go, and what the three bridges log by it.
use goxic.Prelude.{
  ◌≡◌, refl, ap, Bool, true, false, not, ◌||◌, List, [], ◌∷◌, ◌++◌, Option, none, some, Bytes,
  codes, contains, contains-append, arith, Bool-cases, inl, inr,
}

-- The errors that the code asks for by `errors.Is`: `io.EOF`, `syscall.ECONNRESET`, `syscall.EPIPE`.
pub data Sentinel : Type 0 where
  eof econnreset epipe : Sentinel

-- A Go error: which of them stand in its chain of wrapped errors, and its text.
pub record GoError : Type 0 where
  pub wraps : Sentinel → Bool
  pub text : Bytes

-- `fmt.Errorf` with a text in front and `%w`.
abbrev wrapped : Bytes → GoError → GoError
wrapped front e = record e { text = front ++ e.text }

abbrev normal_patterns : List Bytes
normal_patterns =
    codes "use of closed network connection"
    ∷ codes "connection reset by peer"
    ∷ codes "stream reset"
    ∷ codes "broken pipe"
    ∷ codes "EOF"
    ∷ []

unfoldable contains_any : Bytes → List Bytes → Bool
contains_any text [] = false
contains_any text (p ∷ ps) = contains text p || contains_any text ps

unfoldable pub is_normal_connection_closure : Option GoError → Bool
unfolding contains_any
is_normal_connection_closure none = true
is_normal_connection_closure (some e) =
    (e.wraps eof || (e.wraps econnreset || e.wraps epipe)) || contains_any e.text normal_patterns

-- Whether a goroutine, or the end of `forwardToNextPeer`, logs its error.
logs_error : Option GoError → Bool
logs_error none = false
logs_error (some e) = not (is_normal_connection_closure (some e))

-- What `bridgeExitTraffic` logs at its end.
data ClosureLog : Type 0 where
  closed_normally : ClosureLog
  closed_with_error : GoError → ClosureLog

exit_log : Option GoError → ClosureLog
exit_log none = closed_normally
exit_log (some e) = elim (is_normal_connection_closure (some e)) [
  | true ↦ closed_normally
  | false ↦ closed_with_error e
]

contains_any-append :
    (front text : Bytes) (ps : List Bytes)
    → contains_any text ps ≡ true
    → contains_any (front ++ text) ps ≡ true
unfolding contains_any
contains_any-append front text [] h = cc h
contains_any-append front text (p ∷ ps) h = elim (Bool-cases (contains text p)) [
  | inl e ↦ let first = contains-append front text p e in ground (arith, first)
  | inr e ↦
      let rest = contains_any-append front text ps (ground (arith, h, e)) in ground (arith, rest)
]

or_mono : (a b c : Bool) → (b ≡ true → c ≡ true) → (a || b) ≡ true → (a || c) ≡ true
or_mono true b c f h = refl
or_mono false b c f h = f h

normal_wrapped :
    (front : Bytes) (e : GoError)
    → is_normal_connection_closure (some e) ≡ true
    → is_normal_connection_closure (some (wrapped front e)) ≡ true
unfolding is_normal_connection_closure
normal_wrapped front e =
    or_mono (e.wraps eof || (e.wraps econnreset || e.wraps epipe)) _ _
      (contains_any-append front e.text normal_patterns)

-- An error that counts as a normal closure still does when it is wrapped with a text in front, and
-- nothing is logged of it.
is_normal_connection_closure-wrapped :
    (front : Bytes) (e : GoError)
    → is_normal_connection_closure (some e) ≡ true
    → (is_normal_connection_closure (some (wrapped front e)) ≡ true)
      × (logs_error (some (wrapped front e)) ≡ false)
      × (exit_log (some (wrapped front e)) ≡ closed_normally)
unfolding logs_error exit_log
is_normal_connection_closure-wrapped front e h =
    let normal = normal_wrapped front e h in
    (
      normal,
      ap not normal,
      ap (λ b. elim b [ true ↦ closed_normally | false ↦ closed_with_error (wrapped front e) ])
          normal,
    )
