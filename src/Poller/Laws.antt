-- ===== src/Poller/Laws.antt =====
-- When polling ends, with what, and what the options have to do with it.
use radondb_clickhouse_opera.Base.{
  ℕ, zero, suc, ◌+◌, ◌*◌, ◌<◌, ◌≤◌, ◌≡◌, refl, ap, ◌⊎◌, inl, inr, Bool, true, false, Option, none,
  List, [], ◌∷◌, ◌++◌, arith,
}
use radondb_clickhouse_opera.Base.Tests.{if◌then◌else◌, Bool-cases}
use radondb_clickhouse_opera.Base.Lists.{length, AllOf}
use radondb_clickhouse_opera.Poller.{
  StatefulSetPollOptions, StatefulSet, PollError, Reply, found, not_found, get_failed, Round,
  Verdict, returned, waiting, after_get, check_timeout, poll_round, proceed, poll_loop,
}

abbrev pub IsReturned : Verdict → Type 0
IsReturned (returned e) = Unit
IsReturned waiting = ⊥

proceed-IsReturned : (v w : Verdict) → IsReturned v → IsReturned (proceed v w)
unfolding proceed
proceed-IsReturned (returned e) w h = tt
proceed-IsReturned waiting w h = absurd h

proceed-later : (v w : Verdict) → IsReturned w → IsReturned (proceed v w)
unfolding proceed
proceed-later (returned e) w h = tt
proceed-later waiting w h = h

Verdict-cases : (v : Verdict) → (v ≡ waiting) ⊎ ((e : Option PollError) × (v ≡ returned e))
Verdict-cases (returned e) = inr (e, refl)
Verdict-cases waiting = inl refl

module _ (opts : StatefulSetPollOptions) (f : StatefulSet → Bool) where
  -- each round begins with a finished context, or a main interval or more after the one before
  abbrev pub Paced : ℕ → List Round → Type 0
  Paced t [] = Unit
  Paced t (r ∷ rounds) =
      ((r.done ≡ true) ⊎ (t ≤ r.since_at_timeout))
      × Paced (r.since_at_timeout + opts.main_interval) rounds

  -- the earliest time of round `n` after a round at `t`
  abbrev pub clock_after : ℕ → ℕ → ℕ
  clock_after t zero = t
  clock_after t (suc n) = clock_after (t + opts.main_interval) n

  clock_after_mono : (s t n : ℕ) → s ≤ t → clock_after s n ≤ clock_after t n
  clock_after_mono s t zero h = h
  clock_after_mono s t (suc n) h =
      clock_after_mono (s + opts.main_interval) (t + opts.main_interval) n (omega arith)

  clock_after-eq : (t n : ℕ) → clock_after t n ≡ t + n * opts.main_interval
  clock_after-eq t zero = omega arith
  clock_after-eq t (suc n) = omega (arith, clock_after-eq (t + opts.main_interval) n)

  round-done : (r : Round) → r.done ≡ true → poll_round opts f r ≡ returned none
  unfolding poll_round
  round-done r h = rw h refl

  round-late : (r : Round) → opts.timeout ≤ r.since_at_timeout → IsReturned (poll_round opts f r)
  unfolding poll_round check_timeout
  round-late r h = elim (Bool-cases r.done) [
    | inl e ↦ rw e tt
    | inr e ↦
        rw e (check_timeout-late (after_get opts f r.reply r.since_at_create) r.since_at_timeout h)
  ]
    where
      check_timeout-late :
          (v : Verdict) (since : ℕ)
          → opts.timeout ≤ since
          → IsReturned (check_timeout opts f v since)
      check_timeout-late (returned e) since h = tt
      check_timeout-late waiting since h = ground arith

  poll_loop-late :
      (n t : ℕ) (rounds : List Round)
      → length rounds ≡ suc n
      → Paced t rounds
      → opts.timeout ≤ clock_after t n
      → IsReturned (poll_loop opts f rounds)
  unfolding poll_loop
  poll_loop-late n t [] l h k = absurd (omega (arith, l))
  poll_loop-late zero t (r ∷ rounds) l (inl d, p) k =
      proceed-IsReturned (poll_round opts f r) (poll_loop opts f rounds) (rw (round-done r d) tt)
  poll_loop-late zero t (r ∷ rounds) l (inr q, p) k =
      proceed-IsReturned (poll_round opts f r) (poll_loop opts f rounds)
        (round-late r (omega (arith, q, k)))
  poll_loop-late (suc n) t (r ∷ rounds) l (inl d, p) k =
      proceed-IsReturned (poll_round opts f r) (poll_loop opts f rounds) (rw (round-done r d) tt)
  poll_loop-late (suc n) t (r ∷ rounds) l (inr q, p) k =
      proceed-later (poll_round opts f r) (poll_loop opts f rounds) (
        poll_loop-late n (r.since_at_timeout + opts.main_interval) rounds (omega (arith, l)) p (
          omega (
            arith,
            k,
            clock_after_mono (t + opts.main_interval) (r.since_at_timeout + opts.main_interval) n
                (omega (arith, q)),
          )))

  -- Polling a StatefulSet returns at the latest in round n + 1, when n main intervals make up the
  -- timeout and each round begins with a finished context or a main interval or more after the one
  -- before.
  pub poll_loop-IsReturned :
      (n : ℕ) (rounds : List Round)
      → length rounds ≡ suc n
      → Paced 0 rounds
      → opts.timeout ≤ n * opts.main_interval
      → IsReturned (poll_loop opts f rounds)
  poll_loop-IsReturned n rounds l p h =
      poll_loop-late n 0 rounds l p (omega (arith, h, clock_after-eq 0 n))

  abbrev pub Undecided : Reply → ℕ → Type 0
  Undecided (found sts) since = f sts ≡ false
  Undecided not_found since = since < opts.create_timeout
  Undecided get_failed since = ⊥

  -- a round after which polling goes on: the context is not done, the object is missing for less
  -- than the create timeout or is there and not as wanted, and the timeout is not reached
  abbrev pub GoesOn : Round → Type 0
  GoesOn r =
      (r.done ≡ false) × (Undecided r.reply r.since_at_create × (r.since_at_timeout < opts.timeout))

  parts-waiting :
      (d : Bool) (reply : Reply) (c t : ℕ)
      → (if d then returned none else check_timeout opts f (after_get opts f reply c) t) ≡ waiting
      → (d ≡ false) × (Undecided reply c × (t < opts.timeout))
  unfolding after_get check_timeout
  parts-waiting d (found sts) c t h = ground arith
  parts-waiting d not_found c t h = ground arith
  parts-waiting d get_failed c t h = ground arith

  parts-ok :
      (d : Bool) (reply : Reply) (c t : ℕ)
      → (if d then returned none else check_timeout opts f (after_get opts f reply c) t)
        ≡ returned none
      → (d ≡ true) ⊎ ((sts : StatefulSet) × (reply ≡ found sts) × (f sts ≡ true))
  unfolding after_get check_timeout
  parts-ok true reply c t h = inl refl
  parts-ok false (found sts) c t h = inr (sts, refl, ground arith)
  parts-ok false not_found c t h = ground arith
  parts-ok false get_failed c t h = ground arith

  round-GoesOn : (r : Round) → poll_round opts f r ≡ waiting → GoesOn r
  unfolding poll_round
  round-GoesOn r h = parts-waiting r.done r.reply r.since_at_create r.since_at_timeout h

  round-ok :
      (r : Round)
      → poll_round opts f r ≡ returned none
      → (r.done ≡ true) ⊎ ((sts : StatefulSet) × (r.reply ≡ found sts) × (f sts ≡ true))
  unfolding poll_round
  round-ok r h = parts-ok r.done r.reply r.since_at_create r.since_at_timeout h

  -- the round that ends a loop, after rounds that all go on
  abbrev pub EndsWith : (Round → Type 0) → List Round → Type 0
  EndsWith P rounds =
      (before : List Round) × (r : Round) × (after : List Round) × (rounds ≡ before ++ r ∷ after)
      × AllOf GoesOn before
      × P r

  poll_loop-first :
      (rounds : List Round) (e : Option PollError)
      → poll_loop opts f rounds ≡ returned e
      → EndsWith (λ r. poll_round opts f r ≡ returned e) rounds
  unfolding poll_loop proceed
  poll_loop-first [] e h = ground arith
  poll_loop-first (r ∷ rounds) e h = elim (Verdict-cases (poll_round opts f r)) [
    | inl w ↦
        let (before, q, after, split, ons, p) = poll_loop-first rounds e (ground arith) in
        (r ∷ before, q, after, ap (λ (rs : List Round). r ∷ rs) split, (round-GoesOn r w, ons), p)
    | inr (d, k) ↦ ([], r, rounds, refl, tt, ground arith)
  ]

  -- Polling ends without an error only at a round at which the context is done or the StatefulSet
  -- is as wanted, after rounds at which neither held and no timeout was reached.
  pub poll_loop-ok :
      (rounds : List Round)
      → poll_loop opts f rounds ≡ returned none
      → EndsWith
          (λ r. (r.done ≡ true) ⊎ ((sts : StatefulSet) × (r.reply ≡ found sts) × (f sts ≡ true)))
          rounds
  poll_loop-ok rounds h =
      let (before, r, after, split, ons, p) = poll_loop-first rounds none h in
      (before, r, after, split, ons, round-ok r p)
