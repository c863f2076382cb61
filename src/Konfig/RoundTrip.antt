-- ===== src/Konfig/RoundTrip.antt =====
-- What writeback puts into KONFIG, read_konfig reads as the same values.
use koowaldah.Base.{
  ℕ, ◌≡◌, refl, ap, ◌∙◌, List, [], ◌∷◌, ◌++◌, append_assoc, length, some, false, arith, Bool-cases,
  inl, inr, ◌==◌, ◌<◌, ◌^◌,
}
use koowaldah.Konfig.{
  ok, Value, Value.boolean, Value.tristate, Value.int, Value.string, Value.other, Ksection, Koption,
  assign, setval_loop,
}
use koowaldah.Konfig.Text.{codes, print_d, atoi-print_d, length-print_d}
use koowaldah.Konfig.Out.{lf, value_text, kopt2konfig, ksec2konfig, section_text}
use koowaldah.Konfig.Lines.{
  read_text, Plain, Plain-print_d, NoEquals, read_text-comment, read_text-comment_parts,
  read_text-blank, read_text-option,
}

-- A value that a line of KONFIG can hold.
abbrev pub IsWritable : Value → Type 0
IsWritable (boolean v) = (0 < v) × ((v == 10) ≡ false)
IsWritable (tristate v) = (0 < v) × ((v == 10) ≡ false)
IsWritable (int v) = v < 2 ^ 32
IsWritable (string s) = Plain s × (length s < 256)
IsWritable (other t) = ⊥

pub data SameType : Value → Value → Type 0 where
  booleans : (v w : ℕ) → SameType (boolean v) (boolean w)
  tristates : (v w : ℕ) → SameType (tristate v) (tristate w)
  ints : (v w : ℕ) → SameType (int v) (int w)
  strings : (s t : List ℕ) → SameType (string s) (string t)
  others : (t : ℕ) → SameType (other t) (other t)

-- An option that can be written: its texts stay inside their lines, and the name with its prefix fits
-- the buffer of read_konfig.
abbrev pub IsPrintable : Koption → Type 0
IsPrintable o =
    Plain o.desc
    × Plain o.section.desc
    × Plain o.name
    × NoEquals o.name
    × (length o.name < 28)
    × IsWritable o.def

-- The value that was written is the value that is read.
pub value_back :
    {d e : Value}
    → IsWritable d
    → SameType d e
    → (v : List ℕ) × (value_text d ≡ ok v) × Plain v × (length v < 256) × (assign v e ≡ d)
unfolding value_text assign
value_back w (booleans v x) = (v ∷ [], refl, (w.1, tt), omega arith, refl)
value_back w (tristates v x) = (v ∷ [], refl, (w.1, tt), omega arith, refl)
value_back w (ints v x) =
    (print_d v, refl, Plain-print_d v, omega (arith, length-print_d v), ap int (atoi-print_d v w))
value_back w (strings s t) = (s, refl, w.0, w.1, refl)
value_back w (others t) = absurd w

ksec2konfig-read :
    (sec : Ksection) (rest : List ℕ) (opts : List Koption)
    → Plain sec.desc
    → read_text (ksec2konfig sec ++ rest) opts ≡ read_text rest opts
unfolding ksec2konfig
ksec2konfig-read sec rest opts p = simp append_assoc (
    read_text-comment (b' ' ∷ sec.desc)
      (codes "# (" ++ (print_d sec.items ++ (codes " options)" ++ 10 ∷ b'#' ∷ 10 ∷ 10 ∷ rest))) opts
      (refl, p)
    ∙ read_text-comment_parts (codes " (" ++ print_d sec.items) (codes " options)")
        (b'#' ∷ 10 ∷ 10 ∷ rest) opts (refl, (refl, Plain-print_d sec.items))
        (refl, (refl, (refl, (refl, (refl, (refl, (refl, (refl, (refl, tt)))))))))
    ∙ read_text-comment [] (10 ∷ rest) opts tt
    ∙ read_text-blank rest opts)

-- What stands before an option is skipped.
pub section_text-read :
    (ksec : ℕ) (sec : Ksection) (rest : List ℕ) (opts : List Koption)
    → Plain sec.desc
    → read_text ((section_text ksec sec).konfig ++ rest) opts ≡ read_text rest opts
unfolding section_text
section_text-read ksec sec rest opts p = elim (Bool-cases (sec.addr == ksec)) [
  | inl same ↦ rw same refl
  | inr new ↦ rw new (elim (Bool-cases (ksec == 0)) [
    | inl first ↦ rw first (ksec2konfig-read sec rest opts p)
    | inr later ↦ rw later (
        read_text-blank (10 ∷ (ksec2konfig sec ++ rest)) opts
        ∙ read_text-blank (ksec2konfig sec ++ rest) opts
        ∙ ksec2konfig-read sec rest opts p)
  ])
]

-- The texts of an option, which KONFIG holds in two lines.
pub kopt2konfig-read :
    (o : Koption) (v rest : List ℕ) (opts opts' : List Koption)
    → IsPrintable o
    → value_text o.def ≡ ok v
    → Plain v
    → length v < 256
    → setval_loop o.name v opts ≡ some opts'
    → (text : List ℕ) × (kopt2konfig o ≡ ok text)
      × (read_text (text ++ rest) opts ≡ read_text rest opts')
unfolding kopt2konfig
kopt2konfig-read o v rest opts opts' p val pv fits set = (
  codes "# " ++ (o.desc ++ 10 ∷ (codes "OPT_" ++ (o.name ++ b'=' ∷ (v ++ lf)))),
  rw val refl,
  simp append_assoc (
      read_text-comment (b' ' ∷ o.desc) (codes "OPT_" ++ (o.name ++ b'=' ∷ (v ++ 10 ∷ rest))) opts
        (refl, p.0)
      ∙ read_text-option o.name v rest opts opts' p.2 p.3 p.4 pv fits set),
)
