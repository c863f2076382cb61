-- ===== src/Konfig/Replies.antt =====
-- The lines that the user types at the questions of konfig/kuser.c, and what each does.
use koowaldah.Base.{
  ◌≢◌, ◌⊎◌, inl, inr, ne→==, arith, ℕ, ◌≡◌, refl, ap, ◌∙◌, List, [], ◌∷◌, ◌++◌, length, false, ◌<◌,
  lt→ltb,
}
use koowaldah.Konfig.{ok, first_byte}
use koowaldah.Konfig.Text.{is_space, skip_spaces}
use koowaldah.Konfig.Lines.{Plain}
use koowaldah.Konfig.Ask.{take_line, scan_answer, Reply, choose, again, bool_reply, tristate_reply}

-- A line that fits the buffer and does not open with white space.
abbrev pub IsAnswer : List ℕ → Type 0
IsAnswer [] = ⊥
IsAnswer (c ∷ s) = (is_space c ≡ false) × Plain (c ∷ s) × (length (c ∷ s) < 80)

-- What the user types: each line with the line feed behind it.
unfoldable pub typed : List (List ℕ) → List ℕ
typed [] = []
typed (l ∷ ls) = l ++ 10 ∷ typed ls

abbrev pub AllAnswers : List (List ℕ) → Type 0
AllAnswers [] = Unit
AllAnswers (l ∷ ls) = IsAnswer l × AllAnswers ls

pub take_line-append : (l rest : List ℕ) → Plain l → take_line (l ++ 10 ∷ rest) ≡ (l, 10 ∷ rest)
unfolding take_line
take_line-append [] rest p = refl
take_line-append (c ∷ l) rest (ne, p) = rw (ne, take_line-append l rest p) refl

pub skip_spaces-typed :
    (ls : List (List ℕ)) → AllAnswers ls → skip_spaces (10 ∷ typed ls) ≡ typed ls
unfolding skip_spaces typed
skip_spaces-typed [] all = refl
skip_spaces-typed ([] ∷ ls) (none_such, all) = absurd none_such
skip_spaces-typed ((c ∷ l) ∷ ls) ((ne, _, _), all) = rw ne refl

-- scanf stores the first line and leaves the others.
pub scan_answer_lem :
    (l : List ℕ) (ls : List (List ℕ)) (old : List ℕ)
    → IsAnswer l
    → AllAnswers ls
    → scan_answer (record { answer = old; stdin = typed (l ∷ ls) })
      ≡ ok (record { answer = l; stdin = typed ls })
unfolding scan_answer typed
scan_answer_lem [] ls old a all = absurd a
scan_answer_lem (c ∷ l) ls old (_, p, fits) all =
    rw (take_line-append (c ∷ l) (typed ls) p, lt→ltb (length (c ∷ l)) 80 fits)
      (ap (λ t. ok (record { answer = c ∷ l; stdin = t })) (skip_spaces-typed ls all))

-- The letters that answer a question, small or capital, and the value that each stands for.
pub data YesNo : ℕ → ℕ → Type 0 where
  yes : {c : ℕ} → (c ≡ b'y') ⊎ (c ≡ b'Y') → YesNo c b'Y'
  no : {c : ℕ} → (c ≡ b'n') ⊎ (c ≡ b'N') → YesNo c b'N'

pub data YesNoModule : ℕ → ℕ → Type 0 where
  decided : {c v : ℕ} → YesNo c v → YesNoModule c v
  as_module : {c : ℕ} → (c ≡ b'm') ⊎ (c ≡ b'M') → YesNoModule c b'M'

-- A line that is no answer: it opens with none of the letters, nor with that for help.
abbrev pub IsUnknown : ℕ → Type 0
IsUnknown c = (c ≢ b'y') × (c ≢ b'Y') × (c ≢ b'n') × (c ≢ b'N') × (c ≢ b'h') × (c ≢ b'H') × (c ≢ 0)

abbrev pub AllBad : List (List ℕ) → Type 0
AllBad [] = Unit
AllBad (l ∷ ls) = IsAnswer l × IsUnknown (first_byte l) × AllBad ls

abbrev pub AllWorse : List (List ℕ) → Type 0
AllWorse [] = Unit
AllWorse (l ∷ ls) =
    IsAnswer l
    × IsUnknown (first_byte l)
    × (first_byte l ≢ b'm')
    × (first_byte l ≢ b'M')
    × AllWorse ls

pub bool_reply-YesNo : (c w : ℕ) → YesNo c w → bool_reply c ≡ choose w
unfolding bool_reply
bool_reply-YesNo c w (yes (inl e)) = rw e refl
bool_reply-YesNo c w (yes (inr e)) = rw e refl
bool_reply-YesNo c w (no (inl e)) = rw e refl
bool_reply-YesNo c w (no (inr e)) = rw e refl

pub plain_reply : (c : ℕ) → c ≢ b'm' → c ≢ b'M' → tristate_reply c ≡ bool_reply c
unfolding tristate_reply
plain_reply c no_m no_capital = rw (ne→== c b'm' no_m, ne→== c b'M' no_capital) refl

pub YesNo-plain : (c w : ℕ) → YesNo c w → (c ≢ b'm') × (c ≢ b'M')
YesNo-plain c w (yes (inl e)) = (omega (arith, e), omega (arith, e))
YesNo-plain c w (yes (inr e)) = (omega (arith, e), omega (arith, e))
YesNo-plain c w (no (inl e)) = (omega (arith, e), omega (arith, e))
YesNo-plain c w (no (inr e)) = (omega (arith, e), omega (arith, e))

pub tristate_reply-YesNoModule : (c w : ℕ) → YesNoModule c w → tristate_reply c ≡ choose w
unfolding tristate_reply
tristate_reply-YesNoModule c w (decided d) =
    let (a, b) = YesNo-plain c w d in plain_reply c a b ∙ bool_reply-YesNo c w d
tristate_reply-YesNoModule c w (as_module (inl e)) = rw e refl
tristate_reply-YesNoModule c w (as_module (inr e)) = rw e refl

pub bool_reply-again : (c : ℕ) → IsUnknown c → bool_reply c ≡ again
unfolding bool_reply
bool_reply-again c (a, b, d, e, f, g, h) =
    rw
      (
        ne→== c b'y' a,
        ne→== c b'Y' b,
        ne→== c b'n' d,
        ne→== c b'N' e,
        ne→== c b'h' f,
        ne→== c b'H' g,
        ne→== c 0 h,
      )
      refl

-- Lines to which a question is put again.
abbrev pub AllAgain : (ℕ → Reply) → List (List ℕ) → Type 0
AllAgain reply [] = Unit
AllAgain reply (l ∷ ls) = IsAnswer l × (reply (first_byte l) ≡ again) × AllAgain reply ls

pub AllBad-AllAgain : (ls : List (List ℕ)) → AllBad ls → AllAgain bool_reply ls
AllBad-AllAgain [] bad = tt
AllBad-AllAgain (l ∷ ls) (a, unknown, bad) =
    (a, bool_reply-again (first_byte l) unknown, AllBad-AllAgain ls bad)

pub AllWorse-AllAgain : (ls : List (List ℕ)) → AllWorse ls → AllAgain tristate_reply ls
AllWorse-AllAgain [] bad = tt
AllWorse-AllAgain (l ∷ ls) (a, unknown, no_m, no_capital, bad) = (
  a,
  plain_reply (first_byte l) no_m no_capital ∙ bool_reply-again (first_byte l) unknown,
  AllWorse-AllAgain ls bad,
)

pub AllAnswers-append :
    (reply : ℕ → Reply) (bad : List (List ℕ)) (l : List ℕ) (ls : List (List ℕ))
    → AllAgain reply bad
    → IsAnswer l
    → AllAnswers ls
    → AllAnswers (bad ++ l ∷ ls)
AllAnswers-append reply [] l ls agains a all = (a, all)
AllAnswers-append reply (b ∷ bad) l ls (first, _, agains) a all =
    (first, AllAnswers-append reply bad l ls agains a all)
