-- ===== src/Tests/Clock.antt =====
-- A calendar with the laws that the service relies on, for the tests: a time is written as one
-- "z" for each microsecond, a letter for the sign of its offset and a "z" for each second of that;
-- every named zone is an hour ahead of UTC.
use Prim.Native.Nat.compare as compare_ℕ
use Prim.Native.Nat.{compare as compare_ℕ}
use Prim.Native.Char.{Char, code}
use Prim.Native.String.compare
use Prim.Native.String.{[], ◌∷◌, compare, count}
use text.Mathlib.TextLemmas.{length-cons}
use mathlib.Core.Option
use local_transcription_serv.Prelude.{
  ℤ, pos, negsuc, ℕ, zero, suc, String, Bool, true, false, Option, none, some, ◌==◌, ◌≡◌, ◌≢◌, refl,
  ◌∙◌, ap, sym, arith, text_eq, text_eq_ne, text_compare, if◌then◌else◌,
}
use local_transcription_serv.Models.{
  Calendar, IsLawful, DateTime, TzInfo, timezone, zone, utcoffset,
}

ticks : ℕ → String → String
ticks zero tag = tag
ticks (suc n) tag = "z" ∷ ticks n tag

offset_tag : ℤ → String
offset_tag (pos n) = "u" ∷ ticks n ""
offset_tag (negsuc n) = "w" ∷ ticks n ""

pub zone_shift : String → ℕ → ℤ
zone_shift name t = pos 3600

tag_of : ℕ → Option TzInfo → String
unfolding offset_tag
tag_of t none = "n"
tag_of t (some (timezone offset)) = offset_tag offset
tag_of t (some (zone name)) = offset_tag (zone_shift name t)

pub write : DateTime → String
unfolding ticks tag_of
write d = ticks d.clock (tag_of d.clock d.tzinfo)

at_zero : Option TzInfo → DateTime
at_zero z = record { clock = 0; tzinfo = z }

later : DateTime → DateTime
later d = record d { clock = suc d.clock }

pub read : String → Option DateTime
unfolding at_zero later
read [] = none
read (c ∷ s) =
    let rest = read s in
    if code c == b'z'
    then Option.map later rest
    else (if code c == b'u'
        then some (at_zero (some (timezone (pos (count s)))))
        else (if code c == b'w'
            then some (at_zero (some (timezone (negsuc (count s)))))
            else some (at_zero none)))

abbrev pub clock : Calendar
clock = record { isoformat = write; fromisoformat = read; zone_offset = zone_shift }

count-ticks : (n : ℕ) → count (ticks n "") ≡ n
unfolding ticks
count-ticks zero = refl
count-ticks (suc n) = length-cons "z" (ticks n "") ∙ ap suc (count-ticks n)

read-ticks :
    (t : ℕ) (offset : ℤ)
    → read (ticks t (offset_tag offset))
      ≡ some (record { clock = t; tzinfo = some (timezone offset) })
unfolding read ticks offset_tag at_zero later
read-ticks zero (pos n) = rw (count-ticks n) refl
read-ticks zero (negsuc n) = rw (count-ticks n) refl
read-ticks (suc t) offset = ap (Option.map later) (read-ticks t offset)

read-write :
    (t : ℕ) (z : TzInfo)
    → read (ticks t (tag_of t (some z)))
      ≡ some (record { clock = t; tzinfo = some (timezone (utcoffset clock t z)) })
unfolding tag_of
read-write t (timezone offset) = read-ticks t offset
read-write t (zone name) = read-ticks t (zone_shift name t)

is_cons : String → Bool
is_cons [] = false
is_cons (c ∷ s) = true

cons_ne_nil : (c : Char) (s : String) → c ∷ s ≢ []
unfolding is_cons
cons_ne_nil c s e = absurd (true-ne-false (ap is_cons e))
  where
    true-ne-false : true ≡ false → ⊥
    true-ne-false h = ground arith

nonempty : (t u : ℕ) (z : Option TzInfo) → text_eq (ticks t (tag_of u z)) "" ≡ false
unfolding ticks tag_of offset_tag text_eq zone_shift
nonempty zero u none = refl
nonempty zero u (some (timezone (pos n))) = text_eq_ne _ _ (cons_ne_nil "u" (ticks n ""))
nonempty zero u (some (timezone (negsuc n))) = text_eq_ne _ _ (cons_ne_nil "w" (ticks n ""))
nonempty zero u (some (zone name)) = text_eq_ne _ _ (cons_ne_nil "u" (ticks 3600 ""))
nonempty (suc t) u z = text_eq_ne _ _ (cons_ne_nil "z" (ticks t (tag_of u z)))

compare-ticks : (t u : ℕ) → compare (ticks t "u") (ticks u "u") ≡ compare_ℕ t u
unfolding ticks
compare-ticks zero zero = refl
compare-ticks zero (suc u) = compare.cons-cons "u" "z" [] (ticks u "u") ∙ sym (compare_ℕ.zero-suc u)
compare-ticks (suc t) zero = compare.cons-cons "z" "u" (ticks t "u") [] ∙ sym (compare_ℕ.suc-zero t)
compare-ticks (suc t) (suc u) =
    compare.cons-cons "z" "z" (ticks t "u") (ticks u "u")
    ∙ compare-ticks t u
    ∙ sym (compare_ℕ.suc-suc t u)

pub clock-IsLawful : IsLawful clock
unfolding write text_compare tag_of offset_tag ticks
clock-IsLawful = record {
  from-iso = λ t z. read-write t z;
  iso-nonempty = λ d. nonempty d.clock d.clock d.tzinfo;
  compare-iso = λ t u. compare-ticks t u;
}
