-- ===== src/ThreadQueue/Holds.antt =====
-- What a thread queue promises: it is a list of threads, each of which knows its queue, under a
-- lock. An operation keeps what shares no node with the nodes that it is about.
use koowaldah.Base.{ℕ, Option, none, some, List, [], ◌∷◌, ◌++◌, ◌≡◌, arith, update}
use koowaldah.Klist.Ring.{NotIn, Ring}
use koowaldah.Klist.Frame.{Apart, Apart-append_left, Apart-append_right}
use koowaldah.ThreadQueue.{Queues, set_counter}

-- Each of the threads is recorded to be on the queue `o`.
abbrev pub OwnedBy : Option ℕ → (ℕ → Option ℕ) → List ℕ → Type 0
OwnedBy o krunq_head [] = Unit
OwnedBy o krunq_head (t ∷ ts) = (krunq_head t ≡ o) × OwnedBy o krunq_head ts

-- The queue `q` holds the threads `ts`, head first, and its lock's counter is `n`.
pub record Holds (q : ℕ) (n : ℕ) (ts : List ℕ) (s : Queues) : Type 0 where
  pub ring : Ring s.links q ts
  pub owned : OwnedBy (some q) s.krunq_head ts
  pub lock : s.counter q ≡ n

-- The thread `t` is on no queue.
pub record Idle (t : ℕ) (s : Queues) : Type 0 where
  pub alone : Ring s.links t []
  pub unowned : s.krunq_head t ≡ none

-- From `s` to `s'` every queue and every idle thread stays as it is, but for those with a node
-- among `nodes`.
pub record Keeps (nodes : List ℕ) (s s' : Queues) : Type 0 where
  pub queues : (r m : ℕ) (us : List ℕ) → Apart nodes (r ∷ us) → Holds r m us s → Holds r m us s'
  pub threads : (u : ℕ) → Apart nodes (u ∷ []) → Idle u s → Idle u s'

pub Keeps-refl : (nodes : List ℕ) (s : Queues) → Keeps nodes s s
Keeps-refl nodes s = record { queues = λ r m us p holds. holds; threads = λ u p idle. idle }

pub Keeps-trans :
    (xs ys : List ℕ) (s s1 s2 : Queues) → Keeps xs s s1 → Keeps ys s1 s2 → Keeps (xs ++ ys) s s2
Keeps-trans xs ys s s1 s2 k l = record {
  queues = λ r m us p holds.
      l.queues r m us (Apart-append_right xs ys (r ∷ us) p)
        (k.queues r m us (Apart-append_left xs ys (r ∷ us) p) holds);
  threads = λ u p idle.
      l.threads u (Apart-append_right xs ys (u ∷ []) p)
        (k.threads u (Apart-append_left xs ys (u ∷ []) p) idle);
}

-- What happens between a lock and an unlock of a queue among `nodes`.
pub Keeps-locked :
    (q : ℕ) (nodes : List ℕ) (s s1 s2 s3 : Queues)
    → ((zs : List ℕ) → Apart nodes zs → NotIn q zs)
    → Keeps (q ∷ []) s s1
    → Keeps nodes s1 s2
    → Keeps (q ∷ []) s2 s3
    → Keeps nodes s s3
Keeps-locked q nodes s s1 s2 s3 among k l m = record {
  queues = λ r n us p holds.
      m.queues r n us (among (r ∷ us) p, tt)
        (l.queues r n us p (k.queues r n us (among (r ∷ us) p, tt) holds));
  threads = λ u p idle.
      m.threads u (among (u ∷ []) p, tt) (l.threads u p (k.threads u (among (u ∷ []) p, tt) idle));
}

pub OwnedBy-append :
    (o : Option ℕ) (f : ℕ → Option ℕ) (ts us : List ℕ)
    → OwnedBy o f ts
    → OwnedBy o f us
    → OwnedBy o f (ts ++ us)
OwnedBy-append o f [] us p q = q
OwnedBy-append o f (t ∷ ts) us p q = (p.0, OwnedBy-append o f ts us p.1 q)

pub OwnedBy-append_left :
    (o : Option ℕ) (f : ℕ → Option ℕ) (ts us : List ℕ)
    → OwnedBy o f (ts ++ us)
    → OwnedBy o f ts × OwnedBy o f us
OwnedBy-append_left o f [] us p = (tt, p)
OwnedBy-append_left o f (t ∷ ts) us p =
    let (front, back) = OwnedBy-append_left o f ts us p.1 in ((p.0, front), back)

pub OwnedBy-update :
    (o p : Option ℕ) (f : ℕ → Option ℕ) (t : ℕ) (ts : List ℕ)
    → NotIn t ts
    → OwnedBy o f ts
    → OwnedBy o (update f t p) ts
OwnedBy-update o p f t [] out owned = tt
OwnedBy-update o p f t (u ∷ ts) out owned = (ground arith, OwnedBy-update o p f t ts out.1 owned.1)

pub Holds-set_counter :
    (q n m : ℕ) (ts : List ℕ) (s : Queues) → Holds q n ts s → Holds q m ts (set_counter q m s)
Holds-set_counter q n m ts s holds = record {
  ring = holds.ring;
  owned = holds.owned;
  lock = ground arith;
}

pub Keeps-set_counter : (q m : ℕ) (s : Queues) → Keeps (q ∷ []) s (set_counter q m s)
Keeps-set_counter q m s = record {
  queues = λ r n us p holds. record {
    ring = holds.ring;
    owned = holds.owned;
    lock = ground (arith, p.0.0, holds.lock);
  };
  threads = λ u p idle. record { alone = idle.alone; unowned = idle.unowned };
}
