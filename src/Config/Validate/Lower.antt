-- ===== src/Config/Validate/Lower.antt =====
-- `strings.ToLower` of Go's standard library, as far as a comparison with ASCII text depends on it.
use goxic.Prelude.{◌+◌, ◌&&◌, [], ◌∷◌, Bytes, text_eq, leb, ◌==◌, if◌then◌else◌, take, drop}

-- Besides the letters A to Z, two characters have an ASCII letter as their lower case: U+0130, an I
-- with a dot (bytes 196 176), and U+212A, the Kelvin sign (226 132 170). Other characters, which are left
-- as they are, have a lower case outside of ASCII.
unfoldable pub to_lower : Bytes → Bytes
to_lower [] = []
to_lower (b ∷ s) =
    let rest = to_lower s in
    if leb b'A' b && leb b b'Z'
    then (b + 32) ∷ rest
    else if (b == 0xC4) && text_eq (take 1 rest) (0xB0 ∷ [])
    then b'i' ∷ drop 1 rest
    else if (b == 0xE2) && text_eq (take 2 rest) (0x84 ∷ 0xAA ∷ [])
    then b'k' ∷ drop 2 rest
    else b ∷ rest
