-- ===== src/Konfig/Lines.antt =====
-- What read_konfig makes of single lines.
use koowaldah.Base.{
  ℕ, ◌≡◌, refl, sym, ap, ◌∙◌, List, [], ◌∷◌, ◌++◌, append_assoc, length, some, false, arith,
  Bool-cases, inl, inr, ltb, ◌==◌, ◌<◌, ◌^◌, ◌-◌, lt→ltb,
}
use koowaldah.Konfig.{Result, ◌>>=◌, Koption, kopt_setval, setval_loop, bare_name}
use koowaldah.Konfig.Text.{codes, split_at, digits, print_d, Digits, digits-Digits, strip_prefix}
use koowaldah.Konfig.Input.{
  get_lines, kill_last, skip_blanks, parse_line, store_option, read_line, read_lines,
}

abbrev pub read_text : List ℕ → List Koption → Result (List Koption)
read_text text opts = read_lines (get_lines text) opts

-- A text inside one line.
abbrev pub Plain : List ℕ → Type 0
Plain [] = Unit
Plain (c ∷ s) = ((c == 10) ≡ false) × Plain s

pub Plain-append : (a b : List ℕ) → Plain a → Plain b → Plain (a ++ b)
Plain-append [] b p q = q
Plain-append (c ∷ a) b (ne, p) q = (ne, Plain-append a b p q)

Plain-Digits : (s : List ℕ) → Digits s → Plain s
Plain-Digits [] ds = tt
Plain-Digits (c ∷ s) (low, high, ds) = (ground arith, Plain-Digits s ds)

pub Plain-print_d : (v : ℕ) → Plain (print_d v)
unfolding print_d
Plain-print_d v = elim (Bool-cases (ltb v (2 ^ 31))) [
  | inl small ↦ rw small (Plain-Digits (digits 10 v) (digits-Digits 10 v))
  | inr large ↦
      rw large (refl, Plain-Digits (digits 10 (2 ^ 32 - v)) (digits-Digits 10 (2 ^ 32 - v)))
]

get_lines-line :
    (a rest : List ℕ) → Plain a → get_lines (a ++ 10 ∷ rest) ≡ (a ++ 10 ∷ []) ∷ get_lines rest
unfolding get_lines
get_lines-line [] rest p = refl
get_lines-line (c ∷ a) rest (ne, p) = rw (ne, get_lines-line a rest p) refl

kill_last-append : (a : List ℕ) (c : ℕ) → kill_last (a ++ c ∷ []) ≡ a
unfolding kill_last
kill_last-append [] c = refl
kill_last-append (x ∷ []) c = refl
kill_last-append (x ∷ y ∷ a) c = ap (λ t. x ∷ t) (kill_last-append (y ∷ a) c)

-- A text whose first line is `a`.
pub read_text-line :
    (a rest : List ℕ) (opts : List Koption)
    → Plain a
    → read_text (a ++ 10 ∷ rest) opts ≡ (parse_line (skip_blanks a) opts >>= read_text rest)
unfolding read_lines read_line
read_text-line a rest opts p = rw (get_lines-line a rest p, kill_last-append a 10, read_lines) refl

pub read_text-comment :
    (a rest : List ℕ) (opts : List Koption)
    → Plain a
    → read_text (b'#' ∷ (a ++ 10 ∷ rest)) opts ≡ read_text rest opts
unfolding parse_line skip_blanks
read_text-comment a rest opts p = read_text-line (b'#' ∷ a) rest opts (refl, p)

pub read_text-comment_parts :
    (a b rest : List ℕ) (opts : List Koption)
    → Plain a
    → Plain b
    → read_text (b'#' ∷ (a ++ (b ++ 10 ∷ rest))) opts ≡ read_text rest opts
read_text-comment_parts a b rest opts p q =
    ap (λ t. read_text (b'#' ∷ t) opts) (sym (append_assoc a b (10 ∷ rest)))
    ∙ read_text-comment (a ++ b) rest opts (Plain-append a b p q)

pub read_text-blank :
    (rest : List ℕ) (opts : List Koption) → read_text (10 ∷ rest) opts ≡ read_text rest opts
unfolding parse_line skip_blanks
read_text-blank rest opts = read_text-line [] rest opts tt

-- No '=' in a name.
abbrev pub NoEquals : List ℕ → Type 0
NoEquals [] = Unit
NoEquals (c ∷ s) = ((c == b'=') ≡ false) × NoEquals s

split_at-append :
    (name v : List ℕ) → NoEquals name → split_at b'=' (name ++ b'=' ∷ v) ≡ some (name, v)
unfolding split_at
split_at-append [] v no_eq = refl
split_at-append (c ∷ name) v (ne, no_eq) = rw (ne, split_at-append name v no_eq) refl

-- The line of an option.
pub read_text-option :
    (name v rest : List ℕ) (opts opts' : List Koption)
    → Plain name
    → NoEquals name
    → length name < 28
    → Plain v
    → length v < 256
    → setval_loop name v opts ≡ some opts'
    → read_text (codes "OPT_" ++ (name ++ b'=' ∷ (v ++ 10 ∷ rest))) opts ≡ read_text rest opts'
unfolding parse_line store_option skip_blanks kopt_setval bare_name strip_prefix split_at
read_text-option name v rest opts opts' pn no_eq short pv fits set =
    ap (λ t. read_text (codes "OPT_" ++ t) opts) (sym (append_assoc name (b'=' ∷ v) (10 ∷ rest)))
    ∙ read_text-line (codes "OPT_" ++ (name ++ b'=' ∷ v)) rest opts
        (refl, (refl, (refl, (refl, Plain-append name (b'=' ∷ v) pn (refl, pv)))))
    ∙ rw
        (
          split_at-append name v no_eq,
          lt→ltb (length (codes "OPT_" ++ name)) 32 (omega arith),
          lt→ltb (length v) 256 fits,
          set,
        )
        refl
