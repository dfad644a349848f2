-- ===== src/Repl/Words.antt =====
-- Text as the terminal uses it: `TrimSpace`, `ToLower`, `Split`, `Join` and `ParseUint` of Go's
-- libraries, on ASCII bytes.
use ip_tcp.Base.{
  ℕ, ◌+◌, ◌-◌, ◌*◌, ◌≡◌, ◌≢◌, refl, sym, ap, ◌∙◌, Bool, true, false, ◌&&◌, ◌||◌, List, [], ◌∷◌,
  ◌++◌, leb, ltb, ◌==◌, if◌then◌else◌, map, All, Bool-cases, inl, inr, ne→not_==, ==_iff,
}
use ip_tcp.Node.State.{Name}
use ip_tcp.Lnxconfig.{split, cons_first}

abbrev pub is_space : ℕ → Bool
is_space c = c == 32 || (leb 9 c && leb c 13)

abbrev pub trim_left : Name → Name
trim_left [] = []
trim_left (c ∷ text) = let rest = trim_left text in if is_space c then rest else c ∷ text

abbrev pub cons_unless_blank : ℕ → Name → Name
cons_unless_blank c [] = if is_space c then [] else c ∷ []
cons_unless_blank c (d ∷ text) = c ∷ d ∷ text

abbrev pub trim_right : Name → Name
trim_right [] = []
trim_right (c ∷ text) = cons_unless_blank c (trim_right text)

abbrev pub to_lower : ℕ → ℕ
to_lower c = if leb 65 c && leb c 90 then c + 32 else c

-- `cleanInput`
unfoldable pub clean_input : Name → Name
clean_input text = map to_lower (trim_right (trim_left text))

-- `strings.Join(words, " ")`
abbrev pub join : List Name → Name
join [] = []
join (w ∷ []) = w
join (w ∷ v ∷ ws) = w ++ 32 ∷ join (v ∷ ws)

-- What `ParseUint(word, 10, 16)` returns, and whether it returns no error.
pub record Number : Type 0 where
  pub value : ℕ
  pub is_ok : Bool

abbrev is_digit : ℕ → Bool
is_digit c = leb 48 c && leb c 57

-- The first byte that is no digit ends it with 0, the first digit that takes the number past 65535
-- with 65535.
unfoldable pub parse_digits : ℕ → Name → Number
parse_digits n [] = record { value = n; is_ok = true }
parse_digits n (c ∷ w) =
    let n' = 10 * n + (c - 48) in
    let rest = parse_digits n' w in
    if is_digit c
    then if ltb 65535 n' then record { value = 65535; is_ok = false } else rest
    else record { value = 0; is_ok = false }

unfoldable pub parse_uint16 : Name → Number
unfolding parse_digits
parse_uint16 [] = record { value = 0; is_ok = false }
parse_uint16 (c ∷ w) = parse_digits 0 (c ∷ w)

-- A word has no space.
abbrev pub IsWord : Name → Type 0
IsWord w = All (λ c. c ≢ 32) w

join-cons_first : (c : ℕ) (ws : List Name) → join (cons_first c ws) ≡ c ∷ join ws
join-cons_first c [] = refl
join-cons_first c (w ∷ []) = refl
join-cons_first c (w ∷ v ∷ ws) = refl

-- A line has at least one word.
pub split-some : (line : Name) → (w : Name) × (ws : List Name) × (split line ≡ w ∷ ws)
split-some [] = ([], [], refl)
split-some (c ∷ line) = elim (Bool-cases (c == 32)) [
  | inl t ↦ ([], split line, rw t refl)
  | inr f ↦ let (w, ws, e) = split-some line in (c ∷ w, ws, rw f (ap (cons_first c) e))
]

-- Joining the words of a line gives the line.
pub join-split : (line : Name) → join (split line) ≡ line
join-split [] = refl
join-split (c ∷ line) = elim (Bool-cases (c == 32)) [
  | inl t ↦
      let (w, ws, e) = split-some line in
      rw t (
        ap (λ l. join ([] ∷ l)) e
        ∙ ap (λ l. 32 ∷ join l) (sym e)
        ∙ ap (λ l. 32 ∷ l) (join-split line)
        ∙ ap (λ d. d ∷ line) (sym ((==_iff c 32).0 t)))
  | inr f ↦ rw f (join-cons_first c (split line) ∙ ap (λ l. c ∷ l) (join-split line))
]

-- The first word of a line is what stands before its first space.
pub split-word : (w rest : Name) → IsWord w → split (w ++ 32 ∷ rest) ≡ w ∷ split rest
split-word [] rest h = refl
split-word (c ∷ w) rest (ne, h) = rw (ne→not_== c 32 ne) (ap (cons_first c) (split-word w rest h))

-- The last word has none.
pub split-last : (w : Name) → IsWord w → split w ≡ w ∷ []
split-last [] h = refl
split-last (c ∷ w) (ne, h) = rw (ne→not_== c 32 ne) (ap (cons_first c) (split-last w h))
