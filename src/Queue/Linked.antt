-- ===== src/Queue/Linked.antt =====
-- Several threads on one queue: how a state with a thread inside a critical section belongs to the
-- calls made one after the other.
use mathlib.Core.List.{Perm, perm_middle}
use mathlib.Core.List.Perm
use mathlib.Core.Path.{subst, transport}
use boost_dbus.Common.{
  Bool, true, false, ◌≡◌, refl, sym, ap, ap₂, ◌∙◌, List, [], ◌∷◌, ◌++◌, none, some, append-nil,
  append_assoc,
}
use boost_dbus.Queue.{Closure, Queue, empty, push, async_pop, Op, step, run}
use boost_dbus.Queue.Fifo.{queue}
use boost_dbus.Queue.Mutex.{
  Thread, locks, tests, appends_message, reads_handler, appends_handler, reads_message,
  removes_handler, removes_message, posts, unlocks, returned, Shared,
}

abbrev rest_of : {A : Type 0} → List A → List A
rest_of [] = []
rest_of (x ∷ xs) = xs

pub nothing : {A : Type 0} → (xs ys : List A) → xs ++ ys ≡ [] → (xs ≡ []) × (ys ≡ [])
nothing [] ys e = (refl, e)
nothing (x ∷ xs) ys e = absurd (cc)

alone : {A : Type 0} → (xs ys : List A) (t x : A) → xs ++ t ∷ ys ≡ x ∷ [] → (xs ≡ []) × (ys ≡ [])
alone [] ys t x e = (refl, cc)
alone (y ∷ []) ys t x e = absurd (cc)
alone (y ∷ z ∷ xs) ys t x e = absurd (cc)

-- An element of the second list moves to the end of the first.
pub sooner :
    {A : Type 0}
    → (zs xs ys all : List A) (c : A) → Perm (zs ++ (xs ++ c ∷ ys)) all
    → Perm ((zs ++ c ∷ []) ++ (xs ++ ys)) all
sooner zs xs ys all c h =
    rw (append_assoc zs (c ∷ []) (xs ++ ys))
      (Perm.trans (Perm.append_left zs (Perm.symm (perm_middle xs ys))) h)

-- One more element in both.
pub also :
    {A : Type 0}
    → (zs xs ys all : List A) (c : A) → Perm (zs ++ (xs ++ ys)) all
    → Perm (zs ++ (xs ++ c ∷ ys)) (all ++ c ∷ [])
also zs xs ys all c h =
    Perm.trans (Perm.append_left zs (perm_middle xs ys))
      (Perm.trans (perm_middle zs (xs ++ ys)) (Perm.trans last (Perm.append_right (c ∷ []) h)))
  where
    last : Perm (c ∷ (zs ++ (xs ++ ys))) ((zs ++ (xs ++ ys)) ++ c ∷ [])
    last = Perm.symm (
        subst (λ l. Perm ((zs ++ (xs ++ ys)) ++ c ∷ []) (c ∷ l)) (append-nil (zs ++ (xs ++ ys)))
          (perm_middle (zs ++ (xs ++ ys)) []))

module _ {M H : Type 0} where
  abbrev pub each : {A : Type 0} → (Thread M H → List A) → List (Thread M H) → List A
  each f [] = []
  each f (t ∷ ts) = f t ++ each f ts

  pub each-append :
      {A : Type 0}
      → (f : Thread M H → List A) (xs : List (Thread M H)) (t : Thread M H)
      → (ys : List (Thread M H)) → each f (xs ++ t ∷ ys) ≡ each f xs ++ (f t ++ each f ys)
  each-append f [] t ys = refl
  each-append f (x ∷ xs) t ys =
      ap (λ l. f x ++ l) (each-append f xs t ys)
      ∙ sym (append_assoc (f x) (each f xs) (f t ++ each f ys))

  -- The closure that a thread is about to post, after it has given the mutex back.
  abbrev pub flying : Thread M H → List (Closure M H)
  flying (posts c) = c ∷ []
  flying _ = []

  -- The call of a thread that has not taken the mutex yet.
  abbrev pub pending : Thread M H → List (Op M H)
  pending (locks o) = o ∷ []
  pending _ = []

  -- The thread, where it holds the mutex.
  abbrev pub inside : Thread M H → List (Thread M H)
  inside (locks o) = []
  inside (posts c) = []
  inside returned = []
  inside t = t ∷ []

  -- The queue after the rest of a critical section, where `posted` is a list of closures in the order of
  -- the critical sections.
  abbrev pub finish : Thread M H → Queue M H → Queue M H
  finish (tests o) q = step o q
  finish (appends_message m) q = record q { messages = q.messages ++ m ∷ [] }
  finish (appends_handler h) q = record q { handlers = q.handlers ++ h ∷ [] }
  finish (reads_handler m) q = push m q
  finish (reads_message h) q = async_pop h q
  finish (removes_handler c) q = record q {
    handlers = rest_of q.handlers;
    posted = q.posted ++ c ∷ [];
  }
  finish (removes_message c) q = record q {
    messages = rest_of q.messages;
    posted = q.posted ++ c ∷ [];
  }
  finish (unlocks none) q = q
  finish (unlocks (some c)) q = record q { posted = q.posted ++ c ∷ [] }
  finish _ q = q

  abbrev pub settle : List (Thread M H) → Queue M H → Queue M H
  settle [] q = q
  settle (t ∷ ts) q = settle ts (finish t q)

  -- The mutex is free and no thread is inside, or one is.
  abbrev pub Owner : Bool → List (Thread M H) → Type 0
  Owner false ts = ts ≡ []
  Owner true ts = (t : Thread M H) × (ts ≡ t ∷ [])

  -- A thread does not take the front of an empty deque.
  abbrev pub Can : Thread M H → List M → List H → Type 0
  Can (reads_handler m) ms [] = ⊥
  Can (removes_handler c) ms [] = ⊥
  Can (reads_message h) [] hs = ⊥
  Can (removes_message c) [] hs = ⊥
  Can t ms hs = Unit {0}

  abbrev pub AllCan : List (Thread M H) → List M → List H → Type 0
  AllCan [] ms hs = Unit {0}
  AllCan (t ∷ ts) ms hs = Can t ms hs × AllCan ts ms hs

  -- `log` lists the closures in the order of the critical sections.
  pub record Linked (os : List (Op M H)) (s : Shared M H) (ins : List (Thread M H))
      (fly : List (Closure M H)) (pend : List (Op M H)) : Type 0 where
    pub log : List (Closure M H)
    pub owner : Owner s.locked ins
    pub able : AllCan ins s.messages s.handlers
    pub settled : settle ins (queue s.messages s.handlers log) ≡ run s.acquired empty
    pub accounted : Perm (s.posted ++ fly) log
    pub made : Perm (s.acquired ++ pend) os

  pub run-last :
      (os : List (Op M H)) (o : Op M H) (q : Queue M H) → run (os ++ o ∷ []) q ≡ step o (run os q)
  unfolding run
  run-last [] o q = refl
  run-last (p ∷ os) o q = run-last os o (step p q)

  pub settle-alone :
      (ls rs : List (Thread M H)) (t : Thread M H) (q : Queue M H)
      → ls ≡ []
      → rs ≡ []
      → settle (ls ++ t ∷ rs) q ≡ finish t q
  settle-alone ls rs t q a b = ap₂ (λ x y. settle (x ++ t ∷ y) q) a b

  pub Owner-inside :
      (l : Bool) (ls rs : List (Thread M H)) (t : Thread M H)
      → Owner l (ls ++ t ∷ rs)
      → (l ≡ true) × (ls ≡ []) × (rs ≡ [])
  Owner-inside true ls rs t (x, e) = let (a, b) = alone ls rs t x e in (refl, a, b)
  Owner-inside false ls rs t e = absurd (cons-ne (nothing ls (t ∷ rs) e).1)
    where
      cons-ne : t ∷ rs ≡ [] → ⊥
      cons-ne e = cc

  abbrev pub shared :
      (l : Bool) (ms : List M) (hs : List H) (ps : List (Closure M H)) (acq : List (Op M H))
      → Shared M H
  shared l ms hs ps acq = record {
    locked = l;
    messages = ms;
    handlers = hs;
    posted = ps;
    acquired = acq;
  }

module _ {M H : Type 0} (os : List (Op M H)) (ls rs : List (Thread M H)) where
  -- A step inside the critical section leads to the same end.
  pub within :
      (t t' : Thread M H) (l : Bool) (ms ms' : List M) (hs hs' : List H)
      → (ps fly : List (Closure M H)) (acq pend : List (Op M H)) → Can t' ms' hs'
      → ((log : List (Closure M H)) → finish t' (queue ms' hs' log) ≡ finish t (queue ms hs log))
      → Linked os (shared l ms hs ps acq) (ls ++ t ∷ rs) fly pend
      → Linked os (shared l ms' hs' ps acq) (ls ++ t' ∷ rs) fly pend
  within t t' l ms ms' hs hs' ps fly acq pend can same i =
      let (on, a, b) = Owner-inside l ls rs t i.owner in
      record {
        log = i.log;
        owner = subst (λ x. Owner x (ls ++ t' ∷ rs)) (sym on) (t', ap₂ (λ x y. x ++ t' ∷ y) a b);
        able = transport (sym (ap₂ (λ x y. AllCan (x ++ t' ∷ y) ms' hs') a b)) (can, tt);
        settled =
            settle-alone ls rs t' (queue ms' hs' i.log) a b
            ∙ same i.log
            ∙ sym (settle-alone ls rs t (queue ms hs i.log) a b)
            ∙ i.settled;
        accounted = i.accounted;
        made = i.made;
      }
