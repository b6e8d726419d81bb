-- ===== src/Node/Registry.antt =====
-- server/handlers/registry.go. Handlers are values of two types, one for streams with the protocol
-- that each supports, and one for the node. `regexp.Compile` is a parameter.
pub mod Found
use goxic.Prelude.{
  Bool, true, false, List, [], ◌∷◌, ◌++◌, Option, none, some, Bytes, text_eq, if◌then◌else◌,
}
use goxic.Prelude.Dict.{lookup, insert}

-- A compiled pattern: the texts in which it finds a match.
abbrev pub Pattern : Type 0
Pattern = Bytes → Bool

pub record Registry (Handler NodeHandler : Type 0) : Type 0 where
  pub stream_handlers : List (Bytes × Handler)
  pub node_handlers : List NodeHandler
  pub patterns : List (Bytes × Pattern)

abbrev pub new_registry : {Handler NodeHandler : Type 0} → Registry Handler NodeHandler
new_registry = record { stream_handlers = []; node_handlers = []; patterns = [] }

module _ {Handler NodeHandler : Type 0} (protocol : Handler → Bytes)
    (compile : Bytes → Option Pattern) where
  -- The pattern of a handler is kept unless it does not compile, which is the error; the handler is
  -- kept in any case.
  unfoldable pub put_pattern :
      Bytes → Option Pattern → Registry Handler NodeHandler → Registry Handler NodeHandler × Bool
  put_pattern name none r = (r, true)
  put_pattern name (some pattern) r =
      (record r { patterns = insert text_eq name pattern r.patterns }, false)

  -- `RegisterStreamHandler`, with whether it failed.
  unfoldable pub register_stream_handler :
      Handler → Registry Handler NodeHandler → Registry Handler NodeHandler × Bool
  unfolding put_pattern
  register_stream_handler h r =
      put_pattern (protocol h) (compile (protocol h))
        (record r { stream_handlers = insert text_eq (protocol h) h r.stream_handlers })

-- The loop over the patterns, in the order in which Go's map hands them out.
by_pattern :
    {Handler : Type 0} → List (Bytes × Handler) → Bytes → List (Bytes × Pattern) → Option Handler
by_pattern handlers name [] = none
by_pattern handlers name ((pattern, regex) ∷ ps) =
    let rest = by_pattern handlers name ps in
    if regex name
    then elim (lookup text_eq pattern handlers) [ some h ↦ some h | none ↦ rest ]
    else rest

module _ {Handler NodeHandler : Type 0} where
  unfoldable pub register_node_handler :
      NodeHandler → Registry Handler NodeHandler → Registry Handler NodeHandler
  register_node_handler h r = record r { node_handlers = r.node_handlers ++ (h ∷ []) }

  -- `GetStreamHandler`, given the order of the patterns.
  unfoldable pub get_stream_handler :
      Registry Handler NodeHandler → List (Bytes × Pattern) → Bytes → Option Handler
  unfolding by_pattern
  get_stream_handler r order name = elim (lookup text_eq name r.stream_handlers) [
    | some h ↦ some h
    | none ↦ by_pattern r.stream_handlers name order
  ]

-- The loops of `StartNodeHandlers` and `StopNodeHandlers`: the first error ends them.
unfoldable pub until_error : {A W : Type 0} → (A → W → W × Bool) → List A → W → W × Bool
until_error act [] w = (w, false)
until_error act (a ∷ rest) w =
    let (w', failed) = act a w in
    let result = until_error act rest w' in if failed then (w', true) else result
