-- ===== src/Ckb/SpentMessage.antt =====
-- packages/cemp-ckb/src/monitor.ts: the regular expression /double.?spend|already|spent|dead|resolve/i
-- on the message of a failed broadcast. A message is read as its UTF-16 units.
use cemp_mobile.Prelude.{
  ℕ, ◌+◌, ◌-◌, ◌/◌, ◌%◌, Bool, true, false, not, ◌&&◌, ◌||◌, List, [], ◌∷◌, ◌++◌, String,
  if◌then◌else◌, ltb, leb, ◌==◌,
}
use Prim.Native.Char.{code}

abbrev units_of : ℕ → List ℕ
units_of n =
    if ltb n 65536 then n ∷ [] else (55296 + (n - 65536) / 1024) ∷ (56320 + (n - 65536) % 1024) ∷ []

unfoldable pub utf16_units : String → List ℕ
utf16_units String.[] = []
utf16_units (String.◌∷◌ c s) = units_of (code c) ++ utf16_units s

-- The flag i: A to Z count as a to z, and no other unit meets a letter of the pattern.
abbrev pub lower : ℕ → ℕ
lower u = if leb 65 u && leb u 90 then u + 32 else u

-- Whether the units begin with the word.
unfoldable pub starts_with_word : List ℕ → List ℕ → Bool
starts_with_word [] units = true
starts_with_word (x ∷ word) [] = false
starts_with_word (x ∷ word) (u ∷ units) = (lower u == x) && starts_with_word word units

-- `.` is any unit but the line ends.
abbrev pub is_dot : ℕ → Bool
is_dot u = not (u == 10) && not (u == 13) && not (u == 8232) && not (u == 8233)

-- `.?` and then the word.
unfoldable pub dot_and_word : List ℕ → List ℕ → Bool
unfolding starts_with_word
dot_and_word word [] = starts_with_word word []
dot_and_word word (u ∷ units) =
    starts_with_word word (u ∷ units) || (is_dot u && starts_with_word word units)

unfoldable pub double_spend_at : List ℕ → List ℕ → Bool
unfolding dot_and_word
double_spend_at [] units = dot_and_word (utf16_units "spend") units
double_spend_at (x ∷ word) [] = false
double_spend_at (x ∷ word) (u ∷ units) = (lower u == x) && double_spend_at word units

-- One of the alternatives begins here.
unfoldable pub matches_here : List ℕ → Bool
unfolding double_spend_at utf16_units
matches_here units =
    double_spend_at (utf16_units "double") units
    || starts_with_word (utf16_units "already") units
    || starts_with_word (utf16_units "spent") units
    || starts_with_word (utf16_units "dead") units
    || starts_with_word (utf16_units "resolve") units

unfoldable pub matches_from : List ℕ → Bool
unfolding matches_here
matches_from [] = matches_here []
matches_from (u ∷ units) = matches_here (u ∷ units) || matches_from units

unfoldable pub spent_elsewhere : String → Bool
unfolding matches_from
spent_elsewhere message = matches_from (utf16_units message)
