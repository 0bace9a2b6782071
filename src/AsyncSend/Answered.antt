-- ===== src/AsyncSend/Answered.antt =====
-- include/dbus/detail/async_send_op.hpp: a reply comes to the handler of its call.
use boost_dbus.Common.{
  ℕ, ◌+◌, ◌≡◌, refl, ap, ◌∙◌, Bool, true, false, List, [], ◌∷◌, ◌++◌, none, some, if◌then◌else◌,
  ◌==◌, append_assoc, Among, Bool-cases, Option-cases, inl, inr, arith,
}
use boost_dbus.Connection.{Connection, start}
use boost_dbus.AsyncSend.{
  Sender, idle, plain, with_reply, callback, async_send, async_send_op, Event, sends, replies,
  happen,
}
use boost_dbus.AsyncSend.Pending.{
  find_op, without, take_op-find, find_op-without, find_op-more, find_op-last, AllBelow,
  AllBelow-without, AllBelow-last,
}

Among-append : {A : Type 0} (x : A) (l k : List A) → Among x l → Among x (l ++ k)
Among-append x l k (xs, ys, e) = (xs, ys ++ k, ap (λ z. z ++ k) e ∙ append_assoc xs (x ∷ ys) k)

module _ {M H : Type 0} where
  -- How many method calls are sent.
  abbrev pub sent_calls : (M → Bool) → List (Event M H) → ℕ
  sent_calls c [] = 0
  sent_calls c (sends m h ∷ ks) = if c m then 1 + sent_calls c ks else sent_calls c ks
  sent_calls c (replies p r ∷ ks) = sent_calls c ks

  -- No reply to a pending call comes.
  abbrev pub NoReply : ℕ → List (Event M H) → Type 0
  NoReply n [] = Unit
  NoReply n (sends m h ∷ ks) = NoReply n ks
  NoReply n (replies p r ∷ ks) = ((p == n) ≡ false) × NoReply n ks

  callback-missing : (p : ℕ) (r : M) (s : Sender M H) → find_op p s.ops ≡ none → callback p r s ≡ s
  unfolding callback
  callback-missing p r s e = rw (take_op-find p s.ops, e, callback) refl

  callback-found :
      (p : ℕ) (r : M) (s : Sender M H) (h : H)
      → find_op p s.ops ≡ some h
      → callback p r s ≡ record s { ops = without p s.ops; posted = s.posted ++ (h, r) ∷ [] }
  unfolding callback
  callback-found p r s h e = rw (take_op-find p s.ops, e, callback) refl

  -- A method call that is sent waits under the next number.
  sent_call :
      (c : M → Bool) (m : M) (h : H) (s : Sender M H)
      → c m ≡ true
      → async_send c m h s ≡ record {
        connection = start s.connection;
        sent = s.sent ++ with_reply m ∷ [];
        next_call = s.next_call + 1;
        ops = s.ops ++ (s.next_call, h) ∷ [];
        posted = s.posted;
      }
  unfolding async_send async_send_op
  sent_call c m h s e = rw (e) refl

  sent_other :
      (c : M → Bool) (m : M) (h : H) (s : Sender M H)
      → c m ≡ false
      → async_send c m h s
        ≡ record s { connection = start s.connection; sent = s.sent ++ plain m ∷ [] }
  unfolding async_send async_send_op
  sent_other c m h s e = rw (e) refl

  -- What a state has that waits for a reply to `n`, or has it posted, it keeps.
  send-keeps :
      (P : Sender M H → Type 0) (c : M → Bool) (m : M) (h : H) (s : Sender M H)
      → P (record {
        connection = start s.connection;
        sent = s.sent ++ with_reply m ∷ [];
        next_call = s.next_call + 1;
        ops = s.ops ++ (s.next_call, h) ∷ [];
        posted = s.posted;
      })
      → P (record s { connection = start s.connection; sent = s.sent ++ plain m ∷ [] })
      → P (async_send c m h s)
  send-keeps P c m h s call other = elim (Bool-cases (c m)) [
    | inl e ↦ rw (sent_call c m h s e) call
    | inr e ↦ rw (sent_other c m h s e) other
  ]

  reply-keeps :
      (P : Sender M H → Type 0) (p : ℕ) (r : M) (s : Sender M H)
      → P s
      → ((h : H) → P (record s { ops = without p s.ops; posted = s.posted ++ (h, r) ∷ [] }))
      → P (callback p r s)
  reply-keeps P p r s same taken = elim (Option-cases (find_op p s.ops)) [
    | inl e ↦ rw (callback-missing p r s e) same
    | inr (h, e) ↦ rw (callback-found p r s h e) (taken h)
  ]

  posted_stays :
      (c : M → Bool) (x : H × M) (ks : List (Event M H)) (s : Sender M H)
      → Among x s.posted
      → Among x (happen c ks s).posted
  unfolding happen
  posted_stays c x [] s a = a
  posted_stays c x (sends m h ∷ ks) s a =
      posted_stays c x ks (async_send c m h s) (send-keeps (λ t. Among x t.posted) c m h s a a)
  posted_stays c x (replies p r ∷ ks) s a =
      posted_stays c x ks (callback p r s)
        (reply-keeps (λ t. Among x t.posted) p r s a (λ h. Among-append x s.posted ((h, r) ∷ []) a))

  -- All pending calls have numbers that were given out.
  happen-AllBelow :
      (c : M → Bool) (ks : List (Event M H)) (s : Sender M H)
      → AllBelow s.next_call s.ops
      → AllBelow (happen c ks s).next_call (happen c ks s).ops
        × ((happen c ks s).next_call ≡ s.next_call + sent_calls c ks)
  unfolding happen
  happen-AllBelow c [] s below = (below, omega arith)
  happen-AllBelow c (sends m h ∷ ks) s below = elim (Bool-cases (c m)) [
    | inl e ↦
        let (rest, n) =
          happen-AllBelow c ks (async_send c m h s)
            (rw (sent_call c m h s e) (AllBelow-last s.next_call h s.ops below)) in
        (rest, rw (e) (omega (arith, n, ap (λ t. t.next_call) (sent_call c m h s e))))
    | inr e ↦
        let (rest, n) =
          happen-AllBelow c ks (async_send c m h s) (rw (sent_other c m h s e) below) in
        (rest, rw (e) (omega (arith, n, ap (λ t. t.next_call) (sent_other c m h s e))))
  ]
  happen-AllBelow c (replies p r ∷ ks) s below =
      let one : AllBelow (callback p r s).next_call (callback p r s).ops
          × ((callback p r s).next_call ≡ s.next_call) =
        reply-keeps (λ t. AllBelow t.next_call t.ops × (t.next_call ≡ s.next_call)) p r s
          (below, refl) (λ h. (AllBelow-without s.next_call p s.ops below, refl)) in
      let (rest, n) = happen-AllBelow c ks (callback p r s) one.0 in (rest, omega (arith, n, one.1))

  -- A handler that waits gets the first reply to its call.
  waits-answered :
      (c : M → Bool) (n : ℕ) (h : H) (r : M) (ks ls : List (Event M H)) (s : Sender M H)
      → find_op n s.ops ≡ some h
      → NoReply n ks
      → Among (h, r) (happen c (ks ++ replies n r ∷ ls) s).posted
  unfolding happen
  waits-answered c n h r [] ls s there quiet =
      posted_stays c (h, r) ls (callback n r s)
        (rw (callback-found n r s h there) (s.posted, [], refl))
  waits-answered c n h r (sends m g ∷ ks) ls s there quiet =
      waits-answered c n h r ks ls (async_send c m g s)
        (send-keeps (λ t. find_op n t.ops ≡ some h) c m g s
          (find_op-more n h s.ops (s.next_call, g) there) there)
        quiet
  waits-answered c n h r (replies p q ∷ ks) ls s there quiet =
      waits-answered c n h r ks ls (callback p q s)
        (reply-keeps (λ t. find_op n t.ops ≡ some h) p q s there
          (λ g. find_op-without p n s.ops quiet.0 ∙ there))
        quiet.1

  happen-append :
      (c : M → Bool) (ks ls : List (Event M H)) (s : Sender M H)
      → happen c (ks ++ ls) s ≡ happen c ls (happen c ks s)
  unfolding happen
  happen-append c [] ls s = refl
  happen-append c (sends m h ∷ ks) ls s = happen-append c ks ls (async_send c m h s)
  happen-append c (replies p r ∷ ks) ls s = happen-append c ks ls (callback p r s)

  -- A method call is sent with a handler. Later, after any sends and any replies to other calls, its
  -- reply comes: the handler is posted with that reply, whatever comes before and behind.
  pub happen-answers :
      (c : M → Bool) (connection : Connection) (before ks behind : List (Event M H)) (m r : M)
      → (h : H) → c m ≡ true
      → NoReply (sent_calls c before) ks
      → Among
          (h, r)
          (happen c
            (before ++ sends m h ∷ (ks ++ replies (sent_calls c before) r ∷ behind))
            (idle connection)).posted
  unfolding happen
  happen-answers c connection before ks behind m r h is_call quiet =
      let s = happen c before (idle connection) in
      let (below, n) = happen-AllBelow c before (idle connection) tt in
      let waits : find_op (sent_calls c before) (async_send c m h s).ops ≡ some h =
        ap (λ t. find_op (sent_calls c before) t.ops) (sent_call c m h s is_call)
        ∙ ap (λ k. find_op k (s.ops ++ (s.next_call, h) ∷ [])) (omega (arith, n))
        ∙ find_op-last s.next_call h s.ops below in
      rw
        (happen-append c before (sends m h ∷ (ks ++ replies (sent_calls c before) r ∷ behind))
          (idle connection))
        (waits-answered c (sent_calls c before) h r ks behind (async_send c m h s) waits quiet)
