-- ===== src/Kqueue.antt =====
-- kernel/lib/kqueue.c: a queue of bytes on pages. The list of pages stands for klist0 nodes, the page
-- next to the head first; pages are pushed at its front and pulled from its end.
pub mod Contents
pub mod Push
use mathlib.Core.List.{reverse}
use koowaldah.Base.{
  ℕ, zero, suc, ◌+◌, ◌-◌, List, [], ◌∷◌, ◌++◌, length, take, drop, Option, none, some, Bool, ◌==◌,
  ltb, leb, if◌then◌else◌,
}
use koowaldah.Base.Checked.{◌>>=◌}

-- struct kqueue_page: how far `base` has moved, and the `count` bytes from there on.
pub record KqueuePage : Type 0 where
  pub offset : ℕ
  pub held : List ℕ

-- struct kqueue_t, with the number of pages that get_page can still give.
pub record Kqueue : Type 0 where
  pub pages : List KqueuePage
  pub count : ℕ
  pub free_pages : ℕ

-- A page less the 16 bytes of its header.
abbrev pub max_count : ℕ
max_count = 4080

unfoldable pub kqueue_create : ℕ → Kqueue
kqueue_create free = record { pages = []; count = 0; free_pages = free }

unfoldable pub kqueue_size : Kqueue → ℕ
kqueue_size q = q.count

-- The first `n` bytes of the data copied behind those of a page; `none` is a write behind its end.
unfoldable pub store_bytes : ℕ → List ℕ → KqueuePage → Option KqueuePage
store_bytes n bytes p =
    if leb (p.offset + length p.held + n) max_count
    then some (record p { held = p.held ++ take n bytes })
    else none

-- How a push ends that does not run into a bug().
pub data Pushed : Type 0 where
  pushed_all : Kqueue → Pushed
  enomem : Kqueue → Pushed

-- A new page with the first `t` bytes of the data.
abbrev pub add_page : ℕ → List ℕ → Kqueue → Kqueue
add_page t bytes q = record {
  pages = record { offset = 0; held = take t bytes } ∷ q.pages;
  count = q.count + t;
  free_pages = q.free_pages - 1;
}

-- MIN(len, MAX_COUNT).
abbrev pub chunk_size : ℕ → ℕ
chunk_size len = if ltb len max_count then len else max_count

-- The loop that adds pages. Each takes its bytes from the start of the data, which is never advanced.
-- queue_shrink is a bug().
unfoldable pub push_pages : ℕ → List ℕ → ℕ → ℕ → Kqueue → Option Pushed
push_pages zero bytes len pushed q = none
push_pages (suc fuel) bytes len pushed q =
    let t = chunk_size len in
    let q' = add_page t bytes q in
    let more = push_pages fuel bytes (len - t) (pushed + t) q' in
    if q.free_pages == 0
    then (if pushed == 0 then some (enomem q) else none)
    else if len - t == 0
    then some (pushed_all q')
    else more

-- The front page with `n` more bytes.
abbrev pub grow_front : ℕ → KqueuePage → List KqueuePage → Kqueue → Kqueue
grow_front n p ps q = record q { pages = p ∷ ps; count = q.count + n }

abbrev pub push_front : List ℕ → ℕ → List KqueuePage → Kqueue → Option Pushed
push_front bytes len [] q = push_pages (suc len) bytes len 0 q
push_front bytes len (p ∷ ps) q =
    let room = max_count - length p.held in
    if ltb (length p.held) max_count
    then (if leb len room
        then (do p' ← store_bytes len bytes p; some (pushed_all (grow_front len p' ps q)))
        else (do
          p' ← store_bytes room bytes p
          push_pages (suc len) bytes (len - room) room (grow_front room p' ps q)))
    else push_pages (suc len) bytes len 0 q

unfoldable pub kqueue_push : List ℕ → ℕ → Kqueue → Option Pushed
unfolding push_pages store_bytes
kqueue_push bytes len q = push_front bytes len q.pages q

-- What a pull leaves: the pages, those at the end first, with the bytes copied out, the function's
-- result and the pages given back.
pub record Pulled : Type 0 where
  pub left : List KqueuePage
  pub bytes : List ℕ
  pub result : ℕ
  pub freed : ℕ

-- The loop over the pages from the end on; `pulled` bytes are done.
unfoldable pub pull_loop : ℕ → ℕ → List KqueuePage → Pulled
pull_loop len pulled [] = record { left = []; bytes = []; result = pulled; freed = 0 }
pull_loop len pulled (p ∷ ps) =
    let rest = pull_loop (len - length p.held) (pulled + length p.held) ps in
    if ltb len (length p.held)
    then record {
      left = record { offset = p.offset + len; held = drop len p.held } ∷ ps;
      bytes = take len p.held;
      result = len;
      freed = 0;
    }
    else record {
      left = rest.left;
      bytes = p.held ++ rest.bytes;
      result = rest.result;
      freed = rest.freed + 1;
    }

-- The bytes copied out, the result and the queue.
unfoldable pub kqueue_pull_tail : ℕ → Kqueue → List ℕ × ℕ × Kqueue
unfolding pull_loop
kqueue_pull_tail len q =
    let r = pull_loop len 0 (reverse q.pages) in
    (
      r.bytes,
      r.result,
      record {
        pages = reverse r.left;
        count = q.count - length r.bytes;
        free_pages = q.free_pages + r.freed;
      },
    )
