-- ===== src/Klib/Print/Format.antt =====
-- vsnprintf of kernel/lib/vsnprintf.c: the loop over the format. It never looks at the size of the
-- buffer, so the model has no such argument.
use mathlib.Core.Option
use koowaldah.Base.{
  ℕ, zero, suc, ◌+◌, ◌-◌, ◌%◌, List, [], ◌∷◌, ◌&&◌, ◌||◌, Option, none, some, ◌==◌, ltb, leb,
  if◌then◌else◌, update, sub32,
}
use koowaldah.Base.Checked.{◌>>=◌}
use koowaldah.Klib.{Memory, memory_set, memory_copy, kstrchr, kstrlen}
use koowaldah.Klib.Print.{sprint_int_signed, sprint_int_unsigned}

-- The variables of vsnprintf, with the arguments that are left and the memory.
pub record Printer : Type 0 where
  pub cur : ℕ
  pub old : ℕ
  pub pos : ℕ
  pub fill_tag : ℕ
  pub fill_num : ℕ
  pub fmt_broken : ℕ
  pub args : List ℕ
  pub mem : Memory

-- `pos += memory_copy(pos, src, n);`
unfoldable pub emit : ℕ → ℕ → Printer → Printer
emit src n st =
    let (done, m) = memory_copy st.pos src n st.mem in record st { pos = st.pos + done; mem = m }

-- `*pos++ = c;`
unfoldable pub put_byte : ℕ → Printer → Printer
put_byte c st = record st { pos = st.pos + 1; mem = update st.mem st.pos (c % 256) }

-- The loop that fills up `n` places.
unfoldable pub pad : ℕ → ℕ → Printer → Printer
unfolding put_byte
pad zero tag st = st
pad (suc n) tag st = pad n tag (put_byte tag st)

-- `fill_tag = fill_num = 0;`
abbrev pub reset_fill : Printer → Printer
reset_fill st = record st { fill_tag = 0; fill_num = 0 }

-- va_arg. Behind the last argument its result is undefined.
abbrev pub take_arg : List ℕ → Option (ℕ × List ℕ)
take_arg [] = none
take_arg (a ∷ args) = some (a, args)

-- "%d" and "%l". `sbuf` is the address of the local buffer.
unfoldable pub convert_signed : ℕ → Printer → Option Printer
unfolding emit sprint_int_signed memory_set
convert_signed sbuf st = do
  (a, args) ← take_arg st.args
  (n, m) ← sprint_int_signed sbuf a 10 (memory_set sbuf 0 12 st.mem)
  some (reset_fill (emit sbuf n (record st { args = args; mem = m })))

-- "%x". Without a width there is nothing to fill.
unfoldable pub convert_hex : ℕ → Printer → Option Printer
unfolding emit pad sprint_int_unsigned memory_set
convert_hex sbuf st = do
  (a, args) ← take_arg st.args
  (n, m) ← sprint_int_unsigned sbuf a 16 (memory_set sbuf 0 12 st.mem)
  let padded = pad (st.fill_num - n) st.fill_tag (record st { args = args; mem = m })
  some (reset_fill (emit sbuf n padded))

-- "%p": sizeof(uintptr_t) / 4, which is 1, is taken for the width of an address.
unfoldable pub convert_pointer : ℕ → Printer → Option Printer
unfolding emit put_byte pad sprint_int_unsigned memory_set
convert_pointer sbuf st = do
  (a, args) ← take_arg st.args
  (n, m) ← sprint_int_unsigned sbuf a 16 (memory_set sbuf 0 12 st.mem)
  let prefixed = put_byte b'x' (put_byte b'0' (record st { args = args; mem = m }))
  some (reset_fill (emit sbuf n (pad (1 - n) b'0' prefixed)))

-- "%c".
unfoldable pub convert_char : Printer → Option Printer
unfolding put_byte
convert_char st = do (a, args) ← take_arg st.args; some (put_byte a (record st { args = args }))

-- A null pointer or an empty string is printed as "<null>", which is at `null_text`, and then the
-- width stays.
unfoldable pub print_string : ℕ → ℕ → ℕ → Printer → Option Printer
unfolding emit
print_string fuel null_text a st =
    if a == 0 || st.mem a == 0
    then some (emit null_text 6 st)
    else (do n ← kstrlen fuel a st.mem; some (reset_fill (emit a n st)))

-- "%s".
unfoldable pub convert_string : ℕ → ℕ → Printer → Option Printer
unfolding print_string
convert_string fuel null_text st = do
  (a, args) ← take_arg st.args
  print_string fuel null_text a (record st { args = args })

-- The cases of the switch but the digits.
unfoldable pub convert : ℕ → ℕ → ℕ → ℕ → Printer → Option Printer
unfolding convert_signed convert_hex convert_pointer convert_char convert_string
convert fuel sbuf null_text c st =
    if c == b'd' || c == b'l'
    then convert_signed sbuf st
    else if c == b'x'
    then convert_hex sbuf st
    else if c == b'p'
    then convert_pointer sbuf st
    else if c == b'c'
    then convert_char st
    else if c == b's'
    then convert_string fuel null_text st
    else some (reset_fill (record st { fmt_broken = st.fmt_broken + 1 }))

-- The case of a digit.
unfoldable pub set_fill : ℕ → Printer → Printer
set_fill c st =
    if st.fill_tag == 0
    then record st { fill_tag = c }
    else if st.fill_num == 0
    then record st { fill_num = c - b'0' }
    else record st { fmt_broken = st.fmt_broken + 1 }

-- How the switch is left: by the `break` of the loop, or by that of a conversion.
pub data Switched : Type 0 where
  finished : Printer → Switched
  converted : Printer → Switched

-- From `reswitch` on, with `cur` at the sign '%' or at a digit.
unfoldable pub reswitch : ℕ → ℕ → ℕ → Printer → Option Switched
unfolding convert set_fill
reswitch zero sbuf null_text st = none
reswitch (suc fuel) sbuf null_text st =
    let st' = record st { cur = st.cur + 1 } in
    let c = st.mem (st.cur + 1) in
    let more = reswitch fuel sbuf null_text (set_fill c st') in
    if st.mem st.cur == 0
    then some (finished st')
    else if leb b'0' c && leb c b'9'
    then more
    else Option.map converted (convert fuel sbuf null_text c st')

abbrev pub after_switch : (Printer → Option Printer) → ℕ → Switched → Option Printer
after_switch again end (finished st) = some st
after_switch again end (converted st) =
    let st' = record st { old = st.cur + 1 } in if ltb st.cur end then again st' else some st'

-- `found` is what kstrchr gives.
abbrev pub after_search :
    (Printer → Option Printer) → ℕ → ℕ → ℕ → ℕ → Option ℕ → Printer → Option Printer
after_search again end fuel sbuf null_text none st = some st
after_search again end fuel sbuf null_text (some p) st = do
  switched ← reswitch fuel sbuf null_text (emit st.old (sub32 p st.old) (record st { cur = p }))
  after_switch again end switched

-- The loop; `end` is `format + flen`.
unfoldable pub format_loop : ℕ → ℕ → ℕ → ℕ → Printer → Option Printer
unfolding reswitch emit
format_loop zero end sbuf null_text st = none
format_loop (suc fuel) end sbuf null_text st = do
  found ← kstrchr (suc fuel) st.cur b'%' st.mem
  after_search (format_loop fuel end sbuf null_text) end fuel sbuf null_text found st

-- The result, and memory behind the call.
unfoldable pub vsnprintf : ℕ → ℕ → ℕ → ℕ → ℕ → List ℕ → Memory → Option (ℕ × Memory)
unfolding format_loop emit
vsnprintf fuel sbuf null_text buf format args m = do
  len ← kstrlen fuel format m
  let end = format + (len + 1)
  st ← format_loop fuel end sbuf null_text (record {
    cur = format;
    old = format;
    pos = buf;
    fill_tag = 0;
    fill_num = 0;
    fmt_broken = 0;
    args = args;
    mem = m;
  })
  let st' = emit st.old (sub32 end st.old) st
  some (st'.pos - buf, st'.mem)
