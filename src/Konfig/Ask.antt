-- ===== src/Konfig/Ask.antt =====
-- The questions of konfig/kuser.c. What is printed is left out.
use koowaldah.Base.{
  ℕ, zero, suc, ◌+◌, ◌-◌, ◌^◌, List, [], ◌∷◌, length, ◌||◌, ◌==◌, ltb, if◌then◌else◌, u32,
}
use koowaldah.Konfig.{
  Result, ok, exit_failure, fault, unfinished, ◌>>=◌, Value, Koption, first_byte,
}
use koowaldah.Konfig.Text.{is_digit, skip_spaces, read_digits}

-- The buffer `answer`, and what the user has still to type or has typed.
pub record Console : Type 0 where
  pub answer : List ℕ
  pub stdin : List ℕ

-- The input up to its first line feed, and from there on.
unfoldable pub take_line : List ℕ → List ℕ × List ℕ
take_line [] = ([], [])
take_line (c ∷ s) =
    let (line, rest) = take_line s in if c == 10 then ([], c ∷ s) else (c ∷ line, rest)

abbrev pub store_answer : List ℕ → List ℕ → Console → Result Console
store_answer [] rest con = ok con
store_answer (c ∷ line) rest con =
    if ltb (length (c ∷ line)) 80
    then ok (record { answer = c ∷ line; stdin = skip_spaces rest })
    else fault

-- `scanf("%[^\n]\n", answer)`. At a line feed or at the end of the input nothing fits, and the buffer
-- keeps what it holds. Behind a line all white space is consumed.
unfoldable pub scan_answer : Console → Result Console
unfolding take_line skip_spaces
scan_answer con = let (line, rest) = take_line con.stdin in store_answer line rest con

-- getchar().
unfoldable pub getchar : Console → Console
getchar con = elim con.stdin [ [] ↦ con | c ∷ s ↦ record con { stdin = s } ]

-- What the switch on the first byte of an answer does.
pub data Reply : Type 0 where
  choose : ℕ → Reply
  keep : Reply
  again : Reply

unfoldable pub bool_reply : ℕ → Reply
bool_reply c =
    if c == b'y' || c == b'Y'
    then choose b'Y'
    else if c == b'n' || c == b'N'
    then choose b'N'
    else if c == b'h' || (c == b'H' || c == 0)
    then keep
    else again

unfoldable pub tristate_reply : ℕ → Reply
unfolding bool_reply
tristate_reply c = if c == b'm' || c == b'M' then choose b'M' else bool_reply c

abbrev pub react : Result (ℕ × Console) → Reply → ℕ → Console → Result (ℕ × Console)
react round (choose c) v con = ok (c, con)
react round keep v con = ok (v, getchar con)
react round again v con = round

-- The loop from `entry` on, which a bad answer starts again: the value and the console behind it.
unfoldable pub answer_loop : (ℕ → Reply) → ℕ → ℕ → Console → Result (ℕ × Console)
unfolding scan_answer getchar
answer_loop reply zero v con = unfinished
answer_loop reply (suc fuel) v con = do
  con' ← scan_answer con
  let round = answer_loop reply fuel v con'
  react round (reply (first_byte con'.answer)) v con'

unfoldable pub put_bool_answer : ℕ → ℕ → Console → Result (ℕ × Console)
unfolding answer_loop bool_reply
put_bool_answer fuel v con = answer_loop bool_reply fuel v con

unfoldable pub put_tristate_answer : ℕ → ℕ → Console → Result (ℕ × Console)
unfolding answer_loop tristate_reply
put_tristate_answer fuel v con = answer_loop tristate_reply fuel v con

-- The input behind the digits that it opens with.
unfoldable pub skip_digits : List ℕ → List ℕ
skip_digits [] = []
skip_digits (c ∷ s) = let rest = skip_digits s in if is_digit c then rest else c ∷ s

-- Digits at the front of the input. Without any, `i` has no value.
unfoldable pub scan_digits : List ℕ → Result (ℕ × List ℕ)
unfolding read_digits skip_digits
scan_digits [] = fault
scan_digits (c ∷ s) = if is_digit c then ok (u32 (read_digits 0 (c ∷ s)), skip_digits s) else fault

unfoldable pub negate : ℕ × List ℕ → Result (ℕ × List ℕ)
negate (n, rest) = ok (u32 (2 ^ 32 - n), rest)

-- `scanf("%d", &i)`.
unfoldable pub scan_signed : List ℕ → Result (ℕ × List ℕ)
unfolding scan_digits negate
scan_signed [] = fault
scan_signed (c ∷ s) =
    if c == b'-'
    then (scan_digits s >>= negate)
    else if c == b'+'
    then scan_digits s
    else scan_digits (c ∷ s)

unfoldable pub put_int_answer : Console → Result (ℕ × Console)
unfolding scan_signed skip_spaces
put_int_answer con = do
  (i, rest) ← scan_signed (skip_spaces con.stdin)
  ok (i, record con { stdin = rest })

abbrev pub take_bytes : ℕ → List ℕ → List ℕ × List ℕ
take_bytes zero s = ([], s)
take_bytes (suc n) [] = ([], [])
take_bytes (suc n) (c ∷ s) =
    let (line, rest) = take_bytes n s in if c == 10 then ([], c ∷ s) else (c ∷ line, rest)

abbrev pub store_string : List ℕ → List ℕ → List ℕ → List ℕ → Console → List ℕ × Console
store_string [] rest fresh s con = if first_byte fresh == 0 then (s, getchar con) else (fresh, con)
store_string (c ∷ line) rest fresh s con = (c ∷ line, record con { stdin = skip_spaces rest })

-- The value of a string option: at most 79 bytes of a line. If nothing fits, what malloc's memory
-- holds, `fresh`, decides.
unfoldable pub put_string_answer : List ℕ → List ℕ → Console → List ℕ × Console
unfolding skip_spaces getchar
put_string_answer fresh s con =
    let (line, rest) = take_bytes 79 con.stdin in store_string line rest fresh s con

-- The new value of an option. The second argument is what malloc's memory holds.
unfoldable pub ask_value : ℕ → List ℕ → Value → Console → Result (Value × Console)
unfolding put_bool_answer put_tristate_answer put_int_answer put_string_answer
ask_value fuel fresh (Value.boolean v) con = do
  (c, con') ← put_bool_answer fuel v con
  ok (Value.boolean c, con')
ask_value fuel fresh (Value.tristate v) con = do
  (c, con') ← put_tristate_answer fuel v con
  ok (Value.tristate c, con')
ask_value fuel fresh (Value.int v) con = do (i, con') ← put_int_answer con; ok (Value.int i, con')
ask_value fuel fresh (Value.string s) con =
    let (t, con') = put_string_answer fresh s con in ok (Value.string t, con')
ask_value fuel fresh (Value.other t) con = exit_failure

unfoldable pub ask_option : ℕ → List ℕ → Koption → Console → Result (Koption × Console)
unfolding ask_value
ask_option fuel fresh o con = do
  (d, con') ← ask_value fuel fresh o.def con
  ok (record o { def = d; user_set = o.user_set + 1 }, con')

-- An option that is set already is not asked for.
unfoldable pub ask_once : ℕ → List ℕ → Koption → Console → Result (Koption × Console)
unfolding ask_option
ask_once fuel fresh o con = if o.user_set == 0 then ask_option fuel fresh o con else ok (o, con)

unfoldable pub ask_user : ℕ → List ℕ → List Koption → Console → Result (List Koption × Console)
unfolding ask_once
ask_user fuel fresh [] con = ok ([], con)
ask_user fuel fresh (o ∷ os) con = do
  (o', con') ← ask_once fuel fresh o con
  (os', con'') ← ask_user fuel fresh os con'
  ok (o' ∷ os', con'')
