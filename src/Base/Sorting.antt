-- ===== src/Base/Sorting.antt =====
-- `sorted` on texts, by code points.
use switchstand.Base.Names.{
  ℕ, suc, ◌≡◌, refl, ap, ◌∙◌, inl, inr, String, Bool, true, false, List, [], ◌∷◌, arith,
}
use switchstand.Base.Tests.{ltb, nat_beq, if◌then◌else◌, Bool-cases}
use switchstand.Base.Lists.{length}
use switchstand.Base.Text.{codes}

-- lexicographic order of the code points
unfoldable pub codes_leb : List ℕ → List ℕ → Bool
codes_leb [] ys = true
codes_leb (x ∷ xs) [] = false
codes_leb (x ∷ xs) (y ∷ ys) =
    let rest = codes_leb xs ys in if ltb x y then true else if nat_beq x y then rest else false

unfoldable pub text_leb : String → String → Bool
unfolding codes_leb codes
text_leb s t = codes_leb (codes s) (codes t)

unfoldable pub insert_text : String → List String → List String
unfolding text_leb
insert_text s [] = s ∷ []
insert_text s (t ∷ ts) =
    let rest = insert_text s ts in if text_leb s t then s ∷ t ∷ ts else t ∷ rest

unfoldable pub sorted : List String → List String
unfolding insert_text
sorted [] = []
sorted (s ∷ ss) = insert_text s (sorted ss)

codes_leb_total : (xs ys : List ℕ) → codes_leb xs ys ≡ false → codes_leb ys xs ≡ true
unfolding codes_leb
codes_leb_total [] ys h = cc
codes_leb_total (x ∷ xs) [] h = refl
codes_leb_total (x ∷ xs) (y ∷ ys) h = ground (arith, codes_leb_total xs ys)

-- Neighbours are in order.
abbrev pub AscendsFrom : String → List String → Type 0
AscendsFrom s [] = Unit
AscendsFrom s (t ∷ ts) = (text_leb s t ≡ true) × AscendsFrom t ts

abbrev pub Ascends : List String → Type 0
Ascends [] = Unit
Ascends (s ∷ ss) = AscendsFrom s ss

insert_text-AscendsFrom :
    (s u : String) (ts : List String)
    → text_leb u s ≡ true
    → AscendsFrom u ts
    → AscendsFrom u (insert_text s ts)
unfolding insert_text
insert_text-AscendsFrom s u [] h a = (h, tt)
insert_text-AscendsFrom s u (t ∷ ts) h a = elim (Bool-cases (text_leb s t)) [
  | inl e ↦ rw e (h, (e, a.1))
  | inr e ↦ rw e (a.0, insert_text-AscendsFrom s t ts (codes_leb_total (codes s) (codes t) e) a.1)
]

insert_text-Ascends : (s : String) (ts : List String) → Ascends ts → Ascends (insert_text s ts)
unfolding insert_text
insert_text-Ascends s [] a = tt
insert_text-Ascends s (t ∷ ts) a = elim (Bool-cases (text_leb s t)) [
  | inl e ↦ rw e (e, a)
  | inr e ↦ rw e (insert_text-AscendsFrom s t ts (codes_leb_total (codes s) (codes t) e) a)
]

pub sorted-Ascends : (ss : List String) → Ascends (sorted ss)
unfolding sorted
sorted-Ascends [] = tt
sorted-Ascends (s ∷ ss) = insert_text-Ascends s (sorted ss) (sorted-Ascends ss)

length-insert_text : (s : String) (ts : List String) → length (insert_text s ts) ≡ suc (length ts)
unfolding insert_text
length-insert_text s [] = refl
length-insert_text s (t ∷ ts) = ground (arith, length-insert_text s ts)

pub length-sorted : (ss : List String) → length (sorted ss) ≡ length ss
unfolding sorted
length-sorted [] = refl
length-sorted (s ∷ ss) = length-insert_text s (sorted ss) ∙ ap suc (length-sorted ss)
