-- ===== src/Slots/Reason/Laws.antt =====
-- The names in the reason of a rule and the values that take their places (SqrlRuleSlot.ts and
-- WhenFunctions.ts of packages/sqrl/src).
use Prim.Native.Char.{Char, code}
use mathlib.Core.List.{append_assoc, append-nil}
use text.Mathlib.TextEquality.{codes_equal}
use text.Mathlib.TextPositions.{compare_self}
use sqrl.Prelude.{
  ◌≤◌, String, true, List, [], ◌∷◌, ◌++◌, map, Option, some, length, ok, bind-eq-ok, ◌≡◌, ◌↔◌, refl,
  ap, ◌∙◌, arith, suc, sym, ==_iff, Bool-cases, inl, inr, ◌==◌,
}
use sqrl.Slots.Reason.{
  chars, text_of, is_name_char, Piece, plain, named, Mode, outside, after_dollar, within, plain_all,
  held, restart, close_name, read_char, split_reason, names_in, texts, features_of_reason,
  replace_names, fill_reason,
}

-- The text that pieces come from.
abbrev pub print : List Piece → List Char
print [] = []
print (plain c ∷ pieces) = c ∷ print pieces
print (named name ∷ pieces) = "$" ∷ "{" ∷ name ++ "}" ∷ print pieces

print-append : (xs ys : List Piece) → print (xs ++ ys) ≡ print xs ++ print ys
print-append [] ys = refl
print-append (plain c ∷ xs) ys = ap (λ (r : List Char). c ∷ r) (print-append xs ys)
print-append (named name ∷ xs) ys = rw (print-append xs ys) (simp append_assoc)

print-plain_all : (cs : List Char) → print (plain_all cs) ≡ cs
print-plain_all [] = refl
print-plain_all (c ∷ cs) = ap (λ (r : List Char). c ∷ r) (print-plain_all cs)

text_of-chars : (s : String) → text_of (chars s) ≡ s
text_of-chars String.[] = refl
text_of-chars (String.◌∷◌ c s) = ap (String.◌∷◌ c) (text_of-chars s)

same_char : (c d : Char) → (code c == code d) ≡ true → c ≡ d
same_char c d h =
    let same : code c ≡ code d = (==_iff (code c) (code d)).0 h in
    codes_equal c d (rw same (compare_self (code d)))

print-restart :
    (before : List Char) (c : Char)
    → print (restart before c).0 ++ held (restart before c).1 ≡ before ++ c ∷ []
print-restart before c = elim (Bool-cases (code c == b'$')) [
  | inl dollar ↦
      let is_dollar : c ≡ "$" = same_char c "$" dollar in
      rw (dollar, is_dollar, print-plain_all before) refl
  | inr other ↦
      rw (other, print-append (plain_all before) (plain c ∷ []), print-plain_all before)
        (rw append-nil refl)
]

print-close_name :
    (name : List Char) (c : Char)
    → print (close_name name c).0 ++ held (close_name name c).1 ≡ "$" ∷ "{" ∷ name ++ c ∷ []
print-close_name [] c = print-restart ("$" ∷ "{" ∷ []) c
print-close_name (n ∷ name) c = elim (Bool-cases (code c == b'}')) [
  | inl closing ↦
      let is_closing : c ≡ "}" = same_char c "}" closing in
      rw (closing, is_closing) (rw append-nil refl)
  | inr other ↦ rw other (print-restart ("$" ∷ "{" ∷ n ∷ name) c)
]

-- No character is lost between two steps of the search.
print-read_char :
    (mode : Mode) (c : Char)
    → print (read_char mode c).0 ++ held (read_char mode c).1 ≡ held mode ++ c ∷ []
unfolding read_char
print-read_char outside c = print-restart [] c
print-read_char after_dollar c = elim (Bool-cases (code c == b'{')) [
  | inl opening ↦
      let is_opening : c ≡ "{" = same_char c "{" opening in rw (opening, is_opening) refl
  | inr other ↦ rw other (print-restart ("$" ∷ []) c)
]
print-read_char (within name) c = elim (Bool-cases (is_name_char c)) [
  | inl in_name ↦ rw in_name refl
  | inr other ↦ rw other (print-close_name name c)
]

-- The pieces of a text are all of it.
print-split_reason : (mode : Mode) (cs : List Char) → print (split_reason mode cs) ≡ held mode ++ cs
unfolding split_reason
print-split_reason mode [] = print-plain_all (held mode) ∙ sym (append-nil (held mode))
print-split_reason mode (c ∷ cs) =
    print-append (read_char mode c).0 (split_reason (read_char mode c).1 cs)
    ∙ rw (print-split_reason (read_char mode c).1 cs) (
        sym (append_assoc (print (read_char mode c).0) (held (read_char mode c).1) cs)
        ∙ rw (print-read_char mode c) (append_assoc (held mode) (c ∷ []) cs))

-- Each name put back in its place, as it is written, gives the text back.
abbrev pub written : String → Option String
written name = some (text_of ("$" ∷ "{" ∷ chars name ++ "}" ∷ []))

chars-text_of : (cs : List Char) → chars (text_of cs) ≡ cs
chars-text_of [] = refl
chars-text_of (c ∷ cs) = ap (λ (r : List Char). c ∷ r) (chars-text_of cs)

replace_names-written :
    (pieces : List Piece)
    → replace_names (map written (texts (names_in pieces))) pieces ≡ ok (print pieces)
unfolding replace_names
replace_names-written [] = refl
replace_names-written (plain c ∷ pieces) = rw (replace_names-written pieces) refl
replace_names-written (named name ∷ pieces) =
    rw
      (
        replace_names-written pieces,
        chars-text_of (chars (text_of name) ++ "}" ∷ []),
        chars-text_of name,
      )
      (ap (λ (r : List Char). ok ("$" ∷ "{" ∷ r)) (append_assoc name ("}" ∷ []) (print pieces)))

length-texts : (names : List (List Char)) → length (texts names) ≡ length names
length-texts [] = refl
length-texts (name ∷ names) = ap suc (length-texts names)

replace_names-total :
    (values : List String) (pieces : List Piece)
    → length (names_in pieces) ≤ length values
    → (filled : List Char) × (replace_names (map some values) pieces ≡ ok filled)
unfolding replace_names
replace_names-total values [] h = ([], refl)
replace_names-total values (plain c ∷ pieces) h =
    let (rest, e) = replace_names-total values pieces h in (c ∷ rest, rw e refl)
replace_names-total [] (named name ∷ pieces) h = absurd (omega arith)
replace_names-total (value ∷ values) (named name ∷ pieces) h =
    let (rest, e) = replace_names-total values pieces (omega arith) in
    (chars value ++ rest, rw e refl)

replace_names-needs :
    (values : List String) (pieces : List Piece) (filled : List Char)
    → replace_names (map some values) pieces ≡ ok filled
    → length (names_in pieces) ≤ length values
unfolding replace_names
replace_names-needs values [] filled h = omega arith
replace_names-needs values (plain c ∷ pieces) filled h =
    let (rest, e, _) = bind-eq-ok (replace_names (map some values) pieces) _ h in
    replace_names-needs values pieces rest e
replace_names-needs [] (named name ∷ pieces) filled h = cc
replace_names-needs (value ∷ values) (named name ∷ pieces) filled h =
    let (rest, e, _) = bind-eq-ok (replace_names (map some values) pieces) _ h in
    omega (arith, replace_names-needs values pieces rest e)

-- The features that a reason names, written in their places as `${name}`, give the reason back; and
-- texts can take their places exactly when there is one for each feature that is listed.
pub fill_reason-features :
    (reason : String)
    → (fill_reason (map written (features_of_reason reason)) reason ≡ ok reason)
      × ((values : List String)
          → ((filled : String) × (fill_reason (map some values) reason ≡ ok filled))
            ↔ (length (features_of_reason reason) ≤ length values))
unfolding fill_reason features_of_reason
fill_reason-features reason =
    let pieces = split_reason outside (chars reason) in
    (
      rw (replace_names-written pieces, print-split_reason outside (chars reason))
          (ap ok (text_of-chars reason)),
      λ values. (
        λ (filled, e).
            let (cs, replaced, _) = bind-eq-ok (replace_names (map some values) pieces) _ e in
            omega (
              arith,
              replace_names-needs values pieces cs replaced,
              length-texts (names_in pieces),
            ),
        λ enough.
            let (cs, e) =
              replace_names-total values pieces (omega (arith, length-texts (names_in pieces))) in
            (text_of cs, rw e refl),
      ),
    )
