-- ===== src/Launch/VirtualMonitors.antt =====
-- server/main.cpp: the option --virtual-monitor, which is matched with the pattern (\d+)x(\d+)@([\d.]+). The functions
-- follow the pattern from left to right: a repetition takes as many characters as it can, none of which the character
-- behind it could be, and the match begins as far to the left as there is one. Texts are lists of UTF-16 code units.
pub mod Pieces
pub mod Matching
use kheadless_krdp.Prelude.{
  ℕ, ◌≡◌, ◌↔◌, ◌⊎◌, refl, sym, ◌∙◌, ap, subst, Bool, true, false, ◌&&◌, ◌||◌, not, Option, none,
  some, List, [], ◌∷◌, ◌++◌, leb, ◌==◌, if◌then◌else◌, All, arith, Bool-cases, Option-cases, inl,
  inr,
}
use mathlib.Core.List.{append_assoc, append-nil}
use kheadless_krdp.Prelude.Int.{ℤ}
use kheadless_krdp.Prelude.Texts.{Text, is_empty}
use kheadless_krdp.AbstractSession.{VirtualMonitor}

abbrev pub is_digit : ℕ → Bool
is_digit c = leb 48 c && leb c 57

-- [\d.]
abbrev pub is_scale : ℕ → Bool
is_scale c = is_digit c || c == 46

-- What a repetition takes of a text, and what it leaves.
pub taken : (ℕ → Bool) → Text → Text
taken p [] = []
taken p (c ∷ cs) = let rest = taken p cs in if p c then c ∷ rest else []

pub left : (ℕ → Bool) → Text → Text
left p [] = []
left p (c ∷ cs) = let rest = left p cs in if p c then rest else c ∷ cs

-- The groups of a match.
abbrev pub Groups : Type 0
Groups = Text × Text × Text

pub match_scale : Text → Text → Text → Option Groups
unfolding taken
match_scale w h text = let s = taken is_scale text in if is_empty s then none else some (w, h, s)

pub match_at : Text → Text → Text → Option Groups
unfolding match_scale
match_at w h [] = none
match_at w h (c ∷ cs) = if c == 64 then match_scale w h cs else none

pub match_height : Text → Text → Option Groups
unfolding match_at taken left
match_height w text =
    let h = taken is_digit text in if is_empty h then none else match_at w h (left is_digit text)

pub match_x : Text → Text → Option Groups
unfolding match_height
match_x w [] = none
match_x w (c ∷ cs) = if c == 120 then match_height w cs else none

-- A match that begins here.
pub match_here : Text → Option Groups
unfolding match_x taken left
match_here text =
    let w = taken is_digit text in if is_empty w then none else match_x w (left is_digit text)

abbrev pub first : Option Groups → Option Groups → Option Groups
first none rest = rest
first (some groups) rest = some groups

unfoldable pub match : Text → Option Groups
unfolding match_here
match [] = none
match (c ∷ cs) = first (match_here (c ∷ cs)) (match cs)

-- `to_int` is QStringView::toInt, and `to_double` stands for toDouble.
abbrev pub made : (to_int : Text → ℤ) (to_double : Text → ℕ) → Text → Groups → VirtualMonitor
made to_int to_double text (w, h, s) = record {
  name = text;
  size = record { width = to_int w; height = to_int h };
  device_pixel_ratio = to_double s;
}
