-- ===== src/Prelude/Texts.antt =====
-- What the code asks of a Python str: `in`, `startswith`, `endswith` and a slice from its start.
use Prim.Native.Nat.{ℕ, zero, suc, ◌-◌, ◌≤◌}
use Prim.Native.String.{String, len, slice, count}
use Prim.Native.Char.{code}
use mathlib.Core.Bool.{Bool, false}
use native.Mathlib.Omega.{arith}
use text.Mathlib.Text.{find?, starts_with as native_starts_with}
use text.Mathlib.TextLemmas.{length-cons}
use local_transcription_serv.Prelude.Tests.{text_eq, is_some, ◌==◌, if◌then◌else◌}

-- `pattern in text`
unfoldable pub contains : String → String → Bool
contains pattern text = is_some (find? text pattern)

unfoldable pub starts_with : String → String → Bool
starts_with text prefix = native_starts_with text prefix

unfoldable pub ends_with : String → String → Bool
ends_with text suffix = text_eq (slice text (len text - len suffix) (len text)) suffix

abbrev starts_line : String → Bool
starts_line String.[] = false
starts_line (String.◌∷◌ c text) = code c == b'\n'

-- The text that a file opened for reading in text mode gives: a carriage return with a line feed, and
-- one without, is a line feed.
unfoldable pub universal_newlines : String → String
universal_newlines String.[] = ""
universal_newlines (String.◌∷◌ c text) =
    let rest = universal_newlines text in
    if code c == b'\r'
    then (if starts_line text then rest else String.◌∷◌ "\n" rest)
    else String.◌∷◌ c rest

-- `text[:n]`
unfoldable pub take_chars : ℕ → String → String
take_chars zero text = ""
take_chars (suc n) String.[] = ""
take_chars (suc n) (String.◌∷◌ c text) = String.◌∷◌ c (take_chars n text)

pub count-take_chars : (n : ℕ) (text : String) → count (take_chars n text) ≤ n
unfolding take_chars
count-take_chars zero text = omega arith
count-take_chars (suc n) String.[] = omega arith
count-take_chars (suc n) (String.◌∷◌ c text) =
    omega (arith, count-take_chars n text, length-cons c (take_chars n text))
