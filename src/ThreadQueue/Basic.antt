-- ===== src/ThreadQueue/Basic.antt =====
-- The functions of include/thread.h that are called with the lock held, and what they do to lists.
use koowaldah.Base.{ℕ, none, some, false, List, [], ◌∷◌, ◌++◌, ◌≡◌, ◌≢◌, arith, refl}
use koowaldah.Klist
use koowaldah.Klist.Ring.{NotIn, Distinct-delete, Ring-rotate}
use koowaldah.Klist.Frame.{Apart-append_right, append_frame, prepend_frame, unlink_frame}
use koowaldah.Klist.Laws.{append_head, prepend_head, unlink_lem, is_empty_lem, is_nil}
use koowaldah.ThreadQueue.{
  Queues, set_krunq_head, set_counter, set_links, spin_lock, spin_unlock, spin_trylock,
  insert_head_held, insert_tail_held, remove_thread_held,
}
use koowaldah.ThreadQueue.Holds.{
  Holds, Idle, Keeps, OwnedBy-update, OwnedBy-append, OwnedBy-append_left,
}

pub spin_lock_lem :
    (q : ℕ) (ts : List ℕ) (s : Queues) → Holds q 0 ts s → spin_lock q s ≡ some (set_counter q 1 s)
unfolding spin_lock
spin_lock_lem q ts s holds = rw (holds.lock) refl

pub spin_unlock_lem :
    (q : ℕ) (ts : List ℕ) (s : Queues) → Holds q 1 ts s → spin_unlock q s ≡ some (set_counter q 0 s)
unfolding spin_unlock
spin_unlock_lem q ts s holds = rw (holds.lock) refl

abbrev pub linked_head : ℕ → ℕ → Queues → Queues
linked_head t q s = set_krunq_head t (some q) (set_links (Klist.append t q s.links) s)

pub insert_head_held_lem :
    (t q : ℕ) (ts : List ℕ) (s : Queues)
    → Holds q 1 ts s
    → Idle t s
    → insert_head_held t q s ≡ some (linked_head t q s)
unfolding insert_head_held spin_trylock
insert_head_held_lem t q ts s holds idle =
    rw (is_empty_lem s.links t [] idle.alone, holds.lock) refl

pub linked_head-Holds :
    (t q : ℕ) (ts : List ℕ) (s : Queues)
    → Holds q 1 ts s
    → NotIn t (q ∷ ts)
    → Holds q 1 (t ∷ ts) (linked_head t q s)
linked_head-Holds t q ts s holds out = record {
  ring = append_head s.links q t ts holds.ring out;
  owned = (ground arith, OwnedBy-update (some q) (some q) s.krunq_head t ts out.1 holds.owned);
  lock = holds.lock;
}

pub linked_head-Keeps :
    (t q : ℕ) (ts : List ℕ) (s : Queues)
    → Holds q 1 ts s
    → t ≢ q
    → Keeps (t ∷ q ∷ ts) s (linked_head t q s)
linked_head-Keeps t q ts s holds ne = record {
  queues = λ r m us p other. record {
    ring = append_frame s.links q t r ts us holds.ring ne p.0 p.1 other.ring;
    owned = OwnedBy-update (some r) (some q) s.krunq_head t us p.0.1 other.owned;
    lock = other.lock;
  };
  threads = λ u p idle. record {
    alone = append_frame s.links q t u ts [] holds.ring ne p.0 p.1 idle.alone;
    unowned = ground (arith, p.0.0, idle.unowned);
  };
}

abbrev pub linked_tail : ℕ → ℕ → Queues → Queues
linked_tail t q s = set_krunq_head t (some q) (set_links (Klist.prepend t q s.links) s)

pub insert_tail_held_lem :
    (t q : ℕ) (ts : List ℕ) (s : Queues)
    → Holds q 1 ts s
    → Idle t s
    → insert_tail_held t q s ≡ some (linked_tail t q s)
unfolding insert_tail_held spin_trylock
insert_tail_held_lem t q ts s holds idle =
    rw (is_empty_lem s.links t [] idle.alone, holds.lock) refl

pub linked_tail-Holds :
    (t q : ℕ) (ts : List ℕ) (s : Queues)
    → Holds q 1 ts s
    → NotIn t (q ∷ ts)
    → Holds q 1 (ts ++ t ∷ []) (linked_tail t q s)
linked_tail-Holds t q ts s holds out = record {
  ring = prepend_head s.links q t ts holds.ring out;
  owned =
      OwnedBy-append (some q) _ ts (t ∷ [])
        (OwnedBy-update (some q) (some q) s.krunq_head t ts out.1 holds.owned) (ground arith, tt);
  lock = holds.lock;
}

pub linked_tail-Keeps :
    (t q : ℕ) (ts : List ℕ) (s : Queues)
    → Holds q 1 ts s
    → t ≢ q
    → Keeps (t ∷ q ∷ ts) s (linked_tail t q s)
linked_tail-Keeps t q ts s holds ne = record {
  queues = λ r m us p other. record {
    ring = prepend_frame s.links q t r ts us holds.ring ne p.0 p.1 other.ring;
    owned = OwnedBy-update (some r) (some q) s.krunq_head t us p.0.1 other.owned;
    lock = other.lock;
  };
  threads = λ u p idle. record {
    alone = prepend_frame s.links q t u ts [] holds.ring ne p.0 p.1 idle.alone;
    unowned = ground (arith, p.0.0, idle.unowned);
  };
}

abbrev pub unlinked : ℕ → Queues → Queues
unlinked t s = set_krunq_head t none (set_links (Klist.unlink t s.links) s)

pub is_nil-cons : (ys : List ℕ) (q : ℕ) (xs : List ℕ) → is_nil (ys ++ q ∷ xs) ≡ false
is_nil-cons [] q xs = refl
is_nil-cons (y ∷ ys) q xs = refl

pub remove_thread_held_lem :
    (t q : ℕ) (xs ys : List ℕ) (s : Queues)
    → Holds q 1 (xs ++ t ∷ ys) s
    → remove_thread_held t s ≡ some (unlinked t s)
unfolding remove_thread_held
remove_thread_held_lem t q xs ys s holds =
    let owned_t = (OwnedBy-append_left (some q) s.krunq_head xs (t ∷ ys) holds.owned).1.0 in
    let around = is_empty_lem s.links t (ys ++ q ∷ xs) (Ring-rotate s.links q t xs ys holds.ring) in
    rw (owned_t, around, is_nil-cons ys q xs) refl

pub unlinked-Holds :
    (t q : ℕ) (xs ys : List ℕ) (s : Queues)
    → Holds q 1 (xs ++ t ∷ ys) s
    → Holds q 1 (xs ++ ys) (unlinked t s) × Idle t (unlinked t s)
unlinked-Holds t q xs ys s holds =
    let (rest, alone) = unlink_lem s.links q t xs ys holds.ring in
    let (front, back) = OwnedBy-append_left (some q) s.krunq_head xs (t ∷ ys) holds.owned in
    let (distinct, out) = Distinct-delete t (q ∷ xs) ys holds.ring.1 in
    (
      record {
        ring = rest;
        owned =
            OwnedBy-update (some q) none s.krunq_head t (xs ++ ys) out.1
              (OwnedBy-append (some q) s.krunq_head xs ys front back.1);
        lock = holds.lock;
      },
      record { alone = alone; unowned = ground arith },
    )

pub unlinked-Keeps :
    (t q : ℕ) (xs ys : List ℕ) (s : Queues)
    → Holds q 1 (xs ++ t ∷ ys) s
    → Keeps (q ∷ xs ++ t ∷ ys) s (unlinked t s)
unlinked-Keeps t q xs ys s holds = record {
  queues = λ r m us p other.
      let at_t = Apart-append_right xs (t ∷ ys) (r ∷ us) p.1 in
      record {
        ring = unlink_frame s.links q t r xs ys us holds.ring p other.ring;
        owned = OwnedBy-update (some r) none s.krunq_head t us at_t.0.1 other.owned;
        lock = other.lock;
      };
  threads = λ u p idle.
      let at_t = Apart-append_right xs (t ∷ ys) (u ∷ []) p.1 in
      record {
        alone = unlink_frame s.links q t u xs ys [] holds.ring p idle.alone;
        unowned = ground (arith, at_t.0.0, idle.unowned);
      };
}
