-- ===== src/Net/LoopThread/Handover.antt =====
-- The thread and its owner, in any order of their steps.
use simple_http_server.Common.{
  ◌≡◌, ◌≢◌, refl, sym, ap, subst, if_cases, ◌∙◌, ◌⊎◌, inl, inr, Bool, true, false, if◌then◌else◌,
  Bool-cases,
}
use simple_http_server.Net.EventLoop.{EventLoop, quit_loop}
use simple_http_server.Net.LoopThread.{
  ThreadPhase, absent, spawned, made, published, looping, left, ended, OwnerPhase, fresh, waiting,
  running, quitting, joining, destroyed, crashed, LoopThread, new_loop_thread, start_thread,
  wait_for_loop, make_loop, publish_loop, enter_loop, test_quit, clear_loop, test_loop, quit_thread,
  join_thread,
}

-- `self_quits` says whether what the loop runs, or another thread, may make it quit.
pub data Step {ℓ} {F : Type ℓ} (self_quits : Bool) (t : LoopThread F) : LoopThread F → Type ℓ where
  starts : t.owner ≡ fresh → Step self_quits t (start_thread t)
  waits : t.owner ≡ waiting → Step self_quits t (wait_for_loop t)
  makes :
      (callback : EventLoop F → EventLoop F)
      → t.thread ≡ spawned
      → Step self_quits t (make_loop callback t)
  publishes : t.thread ≡ made → Step self_quits t (publish_loop t)
  enters : t.thread ≡ published → Step self_quits t (enter_loop t)
  tests_quit : t.thread ≡ looping → Step self_quits t (test_quit t)
  clears : t.thread ≡ left → Step self_quits t (clear_loop t)
  tests_loop : (t.owner ≡ fresh) ⊎ (t.owner ≡ running) → Step self_quits t (test_loop t)
  quits : t.owner ≡ quitting → Step self_quits t (quit_thread t)
  joins : t.owner ≡ joining → t.thread ≡ ended → Step self_quits t (join_thread t)
  is_made_to_quit :
      self_quits ≡ true
      → t.has_loop ≡ true
      → Step self_quits t (record t { own = quit_loop true t.own })

pub data Reach {ℓ} {F : Type ℓ} (self_quits : Bool) (t : LoopThread F) : LoopThread F → Type ℓ where
  here : Reach self_quits t t
  next : {u v : LoopThread F} → Reach self_quits t u → Step self_quits u v → Reach self_quits t v

-- `loop_` is set between the two critical sections of the thread.
abbrev pub is_public : ThreadPhase → Bool
is_public published = true
is_public looping = true
is_public left = true
is_public _ = false

-- Both critical sections are still to come.
abbrev pub is_early : ThreadPhase → Bool
is_early absent = true
is_early spawned = true
is_early made = true
is_early _ = false

abbrev pub is_absent : ThreadPhase → Bool
is_absent absent = true
is_absent _ = false

-- What holds of the thread where its owner is here.
abbrev pub Fits : OwnerPhase → ThreadPhase → Bool → Type 0
Fits fresh p joined = (p ≡ absent) × (joined ≡ false)
Fits waiting p joined = (is_absent p ≡ false) × (joined ≡ false)
Fits running p joined = (is_early p ≡ false) × (joined ≡ false)
Fits quitting p joined = (is_early p ≡ false) × (joined ≡ false)
Fits joining p joined = (is_early p ≡ false) × (joined ≡ false)
Fits crashed p joined = (p ≡ ended) × (joined ≡ false)
Fits destroyed p joined = (p ≡ ended) ⊎ (p ≡ absent)

pub record IsHandedOver {ℓ} {F : Type ℓ} (t : LoopThread F) : Type ℓ where
  pub public : t.has_loop ≡ is_public t.thread
  pub fits : Fits t.owner t.thread t.joined
  pub over : t.joined ≡ true → t.thread ≡ ended

-- The thread goes from `p` to `q` and its owner stays.
Fits-move :
    (o : OwnerPhase) (p q : ThreadPhase) (joined : Bool)
    → p ≢ absent
    → p ≢ ended
    → is_absent q ≡ false
    → (is_early p ≡ false → is_early q ≡ false)
    → Fits o p joined
    → Fits o q joined
Fits-move fresh p q j a e h k f = absurd (a f.0)
Fits-move waiting p q j a e h k f = (h, f.1)
Fits-move running p q j a e h k f = (k f.0, f.1)
Fits-move quitting p q j a e h k f = (k f.0, f.1)
Fits-move joining p q j a e h k f = (k f.0, f.1)
Fits-move crashed p q j a e h k f = absurd (e f.0)
Fits-move destroyed p q j a e h k (inl f) = absurd (e f)
Fits-move destroyed p q j a e h k (inr f) = absurd (a f)

public_or_over : (p : ThreadPhase) → is_early p ≡ false → is_public p ≡ false → p ≡ ended
public_or_over absent e h = cc
public_or_over spawned e h = cc
public_or_over made e h = cc
public_or_over published e h = cc
public_or_over looping e h = cc
public_or_over left e h = cc
public_or_over ended e h = refl

not_early : (p : ThreadPhase) → is_public p ≡ true → is_early p ≡ false
not_early absent e = cc
not_early spawned e = cc
not_early made e = cc
not_early published e = refl
not_early looping e = refl
not_early left e = refl
not_early ended e = cc

module _ {ℓ} {F : Type ℓ} where
  -- A step of the thread.
  thread-IsHandedOver :
      (t u : LoopThread F) (p q : ThreadPhase)
      → t.thread ≡ p
      → u.thread ≡ q
      → u.owner ≡ t.owner
      → u.joined ≡ t.joined
      → u.has_loop ≡ is_public q
      → p ≢ absent
      → p ≢ ended
      → is_absent q ≡ false
      → (is_early p ≡ false → is_early q ≡ false)
      → IsHandedOver t
      → IsHandedOver u
  thread-IsHandedOver t u p q at to owner joined public a e h k s = record {
    public = public ∙ ap is_public (sym to);
    fits =
        rw (owner, joined, to)
          (Fits-move t.owner p q t.joined a e h k (subst (λ r. Fits t.owner r t.joined) at s.fits));
    over = λ j. absurd (e (sym at ∙ s.over (sym joined ∙ j)));
  }

  -- A step of the owner.
  owner-IsHandedOver :
      (t u : LoopThread F) (o : OwnerPhase)
      → u.owner ≡ o
      → u.thread ≡ t.thread
      → u.has_loop ≡ t.has_loop
      → Fits o t.thread u.joined
      → (u.joined ≡ true → t.thread ≡ ended)
      → IsHandedOver t
      → IsHandedOver u
  owner-IsHandedOver t u o owner thread same fits over s = record {
    public = same ∙ s.public ∙ ap is_public (sym thread);
    fits = rw (owner, thread) fits;
    over = λ j. thread ∙ over j;
  }

  held_at :
      (t : LoopThread F) (o : OwnerPhase) → t.owner ≡ o → IsHandedOver t → Fits o t.thread t.joined
  held_at t o e s = subst (λ p. Fits p t.thread t.joined) e s.fits

  wait-IsHandedOver :
      (t : LoopThread F) → t.owner ≡ waiting → IsHandedOver t → IsHandedOver (wait_for_loop t)
  unfolding wait_for_loop
  wait-IsHandedOver t e s =
      if_cases IsHandedOver t.has_loop _ _
        (λ f.
          owner-IsHandedOver t _ running refl refl refl
            (not_early t.thread (sym s.public ∙ f), (held_at t waiting e s).1) s.over s)
        (λ f. s)

  test_loop-IsHandedOver :
      (t : LoopThread F)
      → ((t.owner ≡ fresh) ⊎ (t.owner ≡ running))
      → IsHandedOver t
      → IsHandedOver (test_loop t)
  unfolding test_loop
  test_loop-IsHandedOver t (inl e) s =
      let f = held_at t fresh e s in
      let null : t.has_loop ≡ false = s.public ∙ ap is_public f.0 in
      owner-IsHandedOver t _ destroyed (ap (λ b. if b then quitting else destroyed) null) refl refl
        (inr f.0) s.over s
  test_loop-IsHandedOver t (inr e) s =
      let f = held_at t running e s in
      elim (Bool-cases t.has_loop) [
        | inl set ↦
            owner-IsHandedOver t _ quitting (ap (λ b. if b then quitting else destroyed) set) refl
              refl f s.over s
        | inr null ↦
            owner-IsHandedOver t _ destroyed (ap (λ b. if b then quitting else destroyed) null) refl
              refl (inl (public_or_over t.thread f.0 (sym s.public ∙ null))) s.over s
      ]

  quit-IsHandedOver :
      (t : LoopThread F) → t.owner ≡ quitting → IsHandedOver t → IsHandedOver (quit_thread t)
  unfolding quit_thread
  quit-IsHandedOver t e s =
      let f = held_at t quitting e s in
      if_cases IsHandedOver t.has_loop _ _
        (λ set. owner-IsHandedOver t _ joining refl refl refl f s.over s)
        (λ null.
          owner-IsHandedOver t _ crashed refl refl refl
            (public_or_over t.thread f.0 (sym s.public ∙ null), f.1) s.over s)

  test_quit-IsHandedOver :
      (t : LoopThread F) → t.thread ≡ looping → IsHandedOver t → IsHandedOver (test_quit t)
  unfolding test_quit
  test_quit-IsHandedOver t e s =
      if_cases IsHandedOver t.own.quit _ _
        (λ _.
          thread-IsHandedOver t _ looping left e refl refl refl (s.public ∙ ap is_public e)
            (λ k. cc) (λ k. cc) refl (λ k. refl) s)
        (λ _. s)

  Step-IsHandedOver : {b : Bool} {t u : LoopThread F} → Step b t u → IsHandedOver t → IsHandedOver u
  unfolding start_thread make_loop publish_loop enter_loop clear_loop join_thread
  Step-IsHandedOver {t = t} (starts e) s =
      let f = held_at t fresh e s in
      record {
        public = s.public ∙ ap is_public f.0;
        fits = (refl, f.1);
        over = λ j. absurd (let k : false ≡ true = sym f.1 ∙ j in cc);
      }
  Step-IsHandedOver {t = t} (waits e) s = wait-IsHandedOver t e s
  Step-IsHandedOver {t = t} (makes callback e) s =
      thread-IsHandedOver t _ spawned made e refl refl refl (s.public ∙ ap is_public e) (λ k. cc)
        (λ k. cc) refl (λ k. cc) s
  Step-IsHandedOver {t = t} (publishes e) s =
      thread-IsHandedOver t _ made published e refl refl refl refl (λ k. cc) (λ k. cc) refl
        (λ k. refl) s
  Step-IsHandedOver {t = t} (enters e) s =
      thread-IsHandedOver t _ published looping e refl refl refl (s.public ∙ ap is_public e)
        (λ k. cc) (λ k. cc) refl (λ k. refl) s
  Step-IsHandedOver {t = t} (tests_quit e) s = test_quit-IsHandedOver t e s
  Step-IsHandedOver {t = t} (clears e) s =
      thread-IsHandedOver t _ left ended e refl refl refl refl (λ k. cc) (λ k. cc) refl (λ k. refl)
        s
  Step-IsHandedOver {t = t} (tests_loop e) s = test_loop-IsHandedOver t e s
  Step-IsHandedOver {t = t} (quits e) s = quit-IsHandedOver t e s
  Step-IsHandedOver {t = t} (joins e over) s =
      owner-IsHandedOver t _ destroyed refl refl refl (inl over) (λ _. over) s
  Step-IsHandedOver (is_made_to_quit e f) s = record {
    public = s.public;
    fits = s.fits;
    over = s.over;
  }

  -- The thread and its owner, from the constructor on, in any order of their steps, whatever the
  -- callback does with the loop and whether or not the loop is made to quit by others: `loop_` is
  -- set exactly while the thread is between its two critical sections; an owner that is out of
  -- `startLoop` finds the loop made and published; one that has joined has a thread that has ended;
  -- and where the destructor goes through a null pointer, the thread had ended behind its test.
  pub Reach-IsHandedOver :
      {self_quits : Bool} {t : LoopThread F} → Reach self_quits new_loop_thread t → IsHandedOver t
  Reach-IsHandedOver here = record { public = refl; fits = (refl, refl); over = λ e. cc }
  Reach-IsHandedOver (next r st) = Step-IsHandedOver st (Reach-IsHandedOver r)
