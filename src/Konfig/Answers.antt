-- ===== src/Konfig/Answers.antt =====
-- What the questions of konfig/kuser.c make of the user's lines.
use koowaldah.Base.{
  length-append, arith, ℕ, zero, suc, ◌+◌, ◌≡◌, refl, ap, ◌∙◌, List, [], ◌∷◌, ◌++◌, length, true,
  false, ◌==◌, ◌<◌,
}
use koowaldah.Konfig.{ok, unfinished, Value, Koption, first_byte}
use koowaldah.Konfig.Ask.{
  Console, take_line, scan_answer, Reply, choose, again, bool_reply, tristate_reply, answer_loop,
  put_bool_answer, put_tristate_answer, ask_value, ask_option, ask_once, ask_user,
}
use koowaldah.Konfig.Replies.{
  IsAnswer, typed, AllAnswers, scan_answer_lem, YesNo, YesNoModule, AllBad, AllWorse,
  bool_reply-YesNo, tristate_reply-YesNoModule, AllAgain, AllBad-AllAgain, AllWorse-AllAgain,
  AllAnswers-append,
}

-- The options, the lines that answer the questions about them, and the options behind the questions.
-- An option that is set is not asked for. Lines that are no answer may stand before the one that chooses
-- the value of a boolean or a tristate.
pub data Answered : List Koption → List (List ℕ) → List Koption → Type 0 where
  none_left : Answered [] [] []
  passed :
      {os rs : List Koption} {ls : List (List ℕ)} (o : Koption)
      → (o.user_set == 0) ≡ false
      → Answered os ls rs
      → Answered (o ∷ os) ls (o ∷ rs)
  boolean_line :
      {os rs : List Koption} {ls : List (List ℕ)} (o : Koption) (v w : ℕ) (bad : List (List ℕ))
      (l : List ℕ)
      → (o.user_set == 0) ≡ true
      → o.def ≡ Value.boolean v
      → AllBad bad
      → IsAnswer l
      → YesNo (first_byte l) w
      → Answered os ls rs
      → Answered
          (o ∷ os)
          (bad ++ l ∷ ls)
          (record o { def = Value.boolean w; user_set = o.user_set + 1 } ∷ rs)
  tristate_line :
      {os rs : List Koption} {ls : List (List ℕ)} (o : Koption) (v w : ℕ) (bad : List (List ℕ))
      (l : List ℕ)
      → (o.user_set == 0) ≡ true
      → o.def ≡ Value.tristate v
      → AllWorse bad
      → IsAnswer l
      → YesNoModule (first_byte l) w
      → Answered os ls rs
      → Answered
          (o ∷ os)
          (bad ++ l ∷ ls)
          (record o { def = Value.tristate w; user_set = o.user_set + 1 } ∷ rs)

Answered-AllAnswers :
    {os rs : List Koption} {ls : List (List ℕ)} → Answered os ls rs → AllAnswers ls
Answered-AllAnswers none_left = tt
Answered-AllAnswers (passed o set r) = Answered-AllAnswers r
Answered-AllAnswers (boolean_line o v w bad l unset def bads a choice r) =
    AllAnswers-append bool_reply bad l _ (AllBad-AllAgain bad bads) a (Answered-AllAnswers r)
Answered-AllAnswers (tristate_line o v w bad l unset def bads a choice r) =
    AllAnswers-append tristate_reply bad l _ (AllWorse-AllAgain bad bads) a (Answered-AllAnswers r)

answer_loop_lem :
    (reply : ℕ → Reply) (fuel v w : ℕ) (bad : List (List ℕ)) (l : List ℕ) (ls : List (List ℕ))
    (old : List ℕ)
    → length bad < fuel
    → AllAgain reply bad
    → IsAnswer l
    → AllAnswers ls
    → reply (first_byte l) ≡ choose w
    → answer_loop reply fuel v (record { answer = old; stdin = typed (bad ++ l ∷ ls) })
      ≡ ok (w, record { answer = l; stdin = typed ls })
unfolding answer_loop
answer_loop_lem reply zero v w bad l ls old enough agains a all choice = absurd (omega arith)
answer_loop_lem reply (suc fuel) v w [] l ls old enough agains a all choice =
    rw (scan_answer_lem l ls old a all, choice) refl
answer_loop_lem reply (suc fuel) v w (b ∷ bad) l ls old enough (first, repeat, agains) a all
      choice =
    rw
      (
        scan_answer_lem b (bad ++ l ∷ ls) old first (AllAnswers-append reply bad l ls agains a all),
        repeat,
      )
      (answer_loop_lem reply fuel v w bad l ls b (omega arith) agains a all choice)

ask_once_lem :
    (fuel : ℕ) (fresh : List ℕ) (o : Koption) (d e : Value) (con con' : Console)
    → (o.user_set == 0) ≡ true
    → o.def ≡ d
    → ask_value fuel fresh d con ≡ ok (e, con')
    → ask_once fuel fresh o con ≡ ok (record o { def = e; user_set = o.user_set + 1 }, con')
unfolding ask_once ask_option
ask_once_lem fuel fresh o d e con con' unset def value =
    let here : ask_value fuel fresh o.def con ≡ ok (e, con') =
      ap (λ x. ask_value fuel fresh x con) def ∙ value in
    simp (unset, here)

ask_next :
    (fuel : ℕ) (fresh : List ℕ) (o o' : Koption) (os rs : List Koption) (con con' con'' : Console)
    → ask_once fuel fresh o con ≡ ok (o', con')
    → ask_user fuel fresh os con' ≡ ok (rs, con'')
    → ask_user fuel fresh (o ∷ os) con ≡ ok (o' ∷ rs, con'')
unfolding ask_user
ask_next fuel fresh o o' os rs con con' con'' first later = rw (first, later) refl

module _ (fuel : ℕ) (fresh : List ℕ) (v w : ℕ) (bad : List (List ℕ)) (l : List ℕ)
    (ls : List (List ℕ)) (old : List ℕ) (enough : length bad < fuel) where
  ask_boolean :
      AllAgain bool_reply bad
      → IsAnswer l
      → AllAnswers ls
      → YesNo (first_byte l) w
      → ask_value fuel fresh
          (Value.boolean v)
          (record { answer = old; stdin = typed (bad ++ l ∷ ls) })
        ≡ ok (Value.boolean w, record { answer = l; stdin = typed ls })
  unfolding ask_value put_bool_answer
  ask_boolean agains a all choice =
      rw
        (answer_loop_lem bool_reply fuel v w bad l ls old enough agains a all
          (bool_reply-YesNo (first_byte l) w choice))
        refl

  ask_tristate :
      AllAgain tristate_reply bad
      → IsAnswer l
      → AllAnswers ls
      → YesNoModule (first_byte l) w
      → ask_value fuel fresh
          (Value.tristate v)
          (record { answer = old; stdin = typed (bad ++ l ∷ ls) })
        ≡ ok (Value.tristate w, record { answer = l; stdin = typed ls })
  unfolding ask_value put_tristate_answer
  ask_tristate agains a all choice =
      rw
        (answer_loop_lem tristate_reply fuel v w bad l ls old enough agains a all
          (tristate_reply-YesNoModule (first_byte l) w choice))
        refl

ask_once_set :
    (fuel : ℕ) (fresh : List ℕ) (o : Koption) (con : Console)
    → (o.user_set == 0) ≡ false
    → ask_once fuel fresh o con ≡ ok (o, con)
unfolding ask_once
ask_once_set fuel fresh o con set = simp set

-- Where each option that is not set is a boolean or a tristate, and among the lines that the user types,
-- each of which fits the buffer and does not open with white space, there are for each of these options
-- any number that open with no letter that its question knows, and then one that opens with `y` or `n`,
-- or for a tristate `m`, small or capital, ask_user ends, with more fuel for each question than there
-- are lines. It uses up the lines, leaves the options that were set as they were, and gives each other
-- the value Y, N or M of the letter and counts it as set.
pub ask_user_lem :
    {os rs : List Koption} {ls : List (List ℕ)} (fuel : ℕ) (fresh old : List ℕ)
    → Answered os ls rs
    → length ls < fuel
    → (last : List ℕ) × (ask_user fuel fresh os (record { answer = old; stdin = typed ls })
        ≡ ok (rs, record { answer = last; stdin = [] }))
unfolding ask_user typed
ask_user_lem fuel fresh old none_left enough = (old, refl)
ask_user_lem {os} {rs} {ls} fuel fresh old (passed {os = os'} {rs = rs'} o set r) enough =
    let (last, e) = ask_user_lem fuel fresh old r enough in
    (last, ask_next fuel fresh o o os' rs' _ _ _ (ask_once_set fuel fresh o _ set) e)
ask_user_lem fuel fresh old
      (boolean_line {os = os'} {rs = rs'} {ls = ls'} o v w bad l unset def bads a choice r) enough =
    let size = length-append bad (l ∷ ls') in
    let (last, e) = ask_user_lem fuel fresh l r (omega (arith, size, enough)) in
    let value =
      ask_boolean fuel fresh v w bad l ls' old (omega (arith, size, enough))
        (AllBad-AllAgain bad bads) a (Answered-AllAnswers r) choice in
    (
      last,
      ask_next fuel fresh o _ os' rs' _ _ _ (ask_once_lem fuel fresh o _ _ _ _ unset def value) e,
    )
ask_user_lem fuel fresh old
      (tristate_line {os = os'} {rs = rs'} {ls = ls'} o v w bad l unset def bads a choice r)
      enough =
    let size = length-append bad (l ∷ ls') in
    let (last, e) = ask_user_lem fuel fresh l r (omega (arith, size, enough)) in
    let value =
      ask_tristate fuel fresh v w bad l ls' old (omega (arith, size, enough))
        (AllWorse-AllAgain bad bads) a (Answered-AllAnswers r) choice in
    (
      last,
      ask_next fuel fresh o _ os' rs' _ _ _ (ask_once_lem fuel fresh o _ _ _ _ unset def value) e,
    )

-- With a stale answer that the question does not know and no line to read (the input is at its end,
-- or at the line feed that "%d" leaves behind a number), the question is put for ever.
pub answer_loop-stuck :
    (reply : ℕ → Reply) (fuel v : ℕ) (con : Console)
    → reply (first_byte con.answer) ≡ again
    → (take_line con.stdin).0 ≡ []
    → answer_loop reply fuel v con ≡ unfinished
unfolding answer_loop scan_answer
answer_loop-stuck reply zero v con bad no_line = refl
answer_loop-stuck reply (suc fuel) v con bad no_line =
    rw (no_line, bad, answer_loop-stuck reply fuel v con bad no_line) refl
