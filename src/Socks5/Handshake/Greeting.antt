-- ===== src/Socks5/Handshake/Greeting.antt =====
-- Which greetings are accepted, and what is replied.
use goxic.Prelude.{
  ℕ, ◌≡◌, ◌∙◌, true, List, [], ◌∷◌, ◌++◌, Bytes, ◌==◌, if◌then◌else◌, Bool-cases, inl, inr, length,
  has_byte,
}
use goxic.Wire.{
  conn, remaining, ok, err, Outcome, unsupported_version, no_acceptable_methods, read, write,
  write_unchecked,
}
use goxic.Wire.Laws.{read_exact, read-remaining, >>=_ok}
use goxic.Socks5.Handshake.{negotiate, handle_authentication}

-- What the server should answer to the offered methods: "no authentication" or "none acceptable".
abbrev pub answer : Bytes → Bytes
answer methods = if has_byte 0 methods then 5 ∷ 0 ∷ [] else 5 ∷ 255 ∷ []

abbrev pub negotiated : Bytes → List Bytes → Bytes → Outcome (Unit {0})
negotiated methods inbox out =
    if has_byte 0 methods
    then ok tt (conn inbox (out ++ answer methods) true)
    else err no_acceptable_methods (conn inbox (out ++ answer methods) true)

negotiate_lem :
    (methods : Bytes) (inbox : List Bytes) (out : Bytes)
    → negotiate methods (conn inbox out true) ≡ negotiated methods inbox out
unfolding negotiate write write_unchecked
negotiate_lem methods inbox out = elim (Bool-cases (has_byte 0 methods)) [
  | inl e ↦ rw (e, negotiate)
  | inr e ↦ rw (e, negotiate)
]

-- A greeting that has arrived: version, number of methods, the methods, and maybe more bytes. With
-- version 5 it is accepted exactly if "no authentication" is offered, and answered in either case;
-- with another version it is refused, and nothing is written.
pub handle_authentication_lem :
    (version : ℕ) (methods more : Bytes) (later : List Bytes) (out : Bytes)
    → handle_authentication (conn ((version ∷ length methods ∷ (methods ++ more)) ∷ later) out true)
      ≡ (if version == 5
          then negotiated methods (remaining more later) out
          else err
              (unsupported_version version)
              (conn (remaining (methods ++ more) later) out true))
unfolding handle_authentication
handle_authentication_lem version methods more later out =
    let head = version ∷ length methods ∷ [] in
    >>=_ok (read 2) _ _ head (conn (remaining (methods ++ more) later) out true)
      (read_exact head (methods ++ more) later out true (λ e. cc))
    ∙ elim (Bool-cases (version == 5)) [
      | inl e ↦ rw e (
          >>=_ok (read (length methods)) negotiate _ methods (conn (remaining more later) out true)
            (read-remaining methods more later out true)
          ∙ negotiate_lem methods (remaining more later) out)
      | inr e ↦ rw e
    ]
