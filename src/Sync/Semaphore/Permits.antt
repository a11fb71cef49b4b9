-- ===== src/Sync/Semaphore/Permits.antt =====
-- `Semaphore` of mt_asyncio/asyncio/_sync.py over every history of acquiring, releasing and
-- cancelled tasks.
use mt_asyncio.Prelude.{
  ℕ, ◌+◌, ◌<◌, ◌≡◌, ◌⊎◌, inr, refl, Bool, true, false, Option, List, [], ◌∷◌, arith, contains,
  count_if, Distinct, contains-append, count_if-hit, count_if-agree, contains-remove,
  Distinct-remove, Distinct-snoc, count_if-remove, All,
}
use mt_asyncio.Futures.{World, done, is_finished, cancel, create_future}
use mt_asyncio.Sync.Handover.{
  given, Served, finished-given, done-given, next-given, Served-member, Served-rest, Served-passed,
  Served-Distinct, All-contains, finished-cancel, done-cancel, next-cancel,
}
use mt_asyncio.Sync.Semaphore.{
  System, acquires, resumes, throws, creates, cancels, step, start, granted,
}

-- Futures, deque and permits fit together; `n` is the number of permits.
pub record Inv (n : ℕ) (s : System) : Type 0 where
  pub fresh : (g : ℕ) → contains g s.open_waits ≡ true → g < s.world.next
  pub distinct : Distinct s.open_waits
  pub lined_up : Distinct s.semaphore.waiters
  pub queued :
      (g : ℕ)
      → contains g s.semaphore.waiters ≡ true
      → (contains g s.open_waits ≡ true) × (is_finished (s.world.fut g).state ≡ false)
  pub settled :
      (g : ℕ)
      → contains g s.open_waits ≡ true
      → (contains g s.semaphore.waiters ≡ true) ⊎ (done s.world g ≡ true)
  pub idle : (s.semaphore.value ≡ 0) ⊎ (s.semaphore.waiters ≡ [])
  pub balance : s.semaphore.value + s.holders + s.unwinding + granted s ≡ n

pub start-Inv : (w : World Bool) (n : ℕ) → Inv n (start w n)
start-Inv w n = record {
  fresh = λ g h. cc;
  distinct = tt;
  lined_up = tt;
  queued = λ g h. cc;
  settled = λ g h. cc;
  idle = inr refl;
  balance = omega arith;
}

module _ {n : ℕ} {s : System} (inv : Inv n s) where
  open inv use {fresh, distinct, lined_up, queued, settled, idle, balance}

  abbrev is_done_ok : World Bool → ℕ → Bool
  is_done_ok w g = is_finished (w.fut g).state

  same_count :
      (w : World Bool)
      → ((g : ℕ) → contains g s.open_waits ≡ true → is_done_ok w g ≡ is_done_ok s.world g)
      → count_if (is_done_ok w) s.open_waits ≡ granted s
  same_count w h = count_if-agree (is_done_ok s.world) (is_done_ok w) s.open_waits h

  pub acquires-Inv : Inv n (step s acquires)
  unfolding step create_future
  acquires-Inv = record {
    fresh = λ g h. ground (arith, fresh g);
    distinct = ground (arith, fresh s.world.next);
    lined_up = ground (
      arith,
      queued s.world.next,
      fresh s.world.next,
      Distinct-snoc s.semaphore.waiters s.world.next lined_up,
    );
    queued = λ g h.
        ground
          (arith, queued g, fresh g, contains-append g s.semaphore.waiters (s.world.next ∷ []));
    settled = λ g h.
        ground
          (arith, settled g, fresh g, contains-append g s.semaphore.waiters (s.world.next ∷ []));
    idle = ground arith;
    balance = ground (
      arith,
      same_count (create_future s.world).1 (λ g c. ground (arith, fresh g c)),
      fresh s.world.next,
    );
  }

  pub throws-Inv : (f : ℕ) → Inv n (step s (throws f))
  unfolding step
  throws-Inv f = record {
    fresh = λ g h. ground (arith, fresh g, contains-remove g f s.open_waits distinct);
    distinct = ground (arith, Distinct-remove f s.open_waits distinct);
    lined_up = ground (arith, Distinct-remove f s.semaphore.waiters lined_up);
    queued = λ g h. ground (
      arith,
      queued g,
      contains-remove g f s.open_waits distinct,
      contains-remove g f s.semaphore.waiters lined_up,
    );
    settled = λ g h. ground (
      arith,
      settled g,
      contains-remove g f s.open_waits distinct,
      contains-remove g f s.semaphore.waiters lined_up,
    );
    idle = ground (arith);
    balance = ground (
      arith,
      settled f,
      queued f,
      count_if-remove (λ g. is_finished (s.world.fut g).state) f s.open_waits,
    );
  }

  pub resumes-Inv : (f : ℕ) → Inv n (step s (resumes f))
  unfolding step
  resumes-Inv f = record {
    fresh = λ g h. ground (arith, fresh g, contains-remove g f s.open_waits distinct);
    distinct = ground (arith, Distinct-remove f s.open_waits distinct);
    lined_up = ground (arith);
    queued = λ g h. ground (arith, queued g, contains-remove g f s.open_waits distinct);
    settled = λ g h. ground (arith, settled g, contains-remove g f s.open_waits distinct);
    idle = ground (arith);
    balance = ground (
      arith,
      settled f,
      queued f,
      count_if-remove (λ g. is_finished (s.world.fut g).state) f s.open_waits,
    );
  }

  pub creates-Inv : Inv n (step s creates)
  unfolding step
  creates-Inv = record {
    fresh = λ g h. ground (arith, fresh g);
    distinct = distinct;
    lined_up = lined_up;
    queued = λ g h. ground (arith, queued g, fresh g);
    settled = λ g h. ground (arith, settled g, fresh g);
    idle = idle;
    balance =
        ground (arith, same_count (create_future s.world).1 (λ g c. ground (arith, fresh g c)));
  }

  pub cancels-Inv : (f : ℕ) (msg : Option ℕ) → Inv n (step s (cancels f msg))
  unfolding step
  cancels-Inv f msg =
      let w = (cancel f msg s.world).1 in
      record {
        fresh = λ g h. ground (arith, fresh g, next-cancel s.world f msg);
        distinct = distinct;
        lined_up = lined_up;
        queued = λ g h. ground (arith, queued g, finished-cancel s.world f msg g);
        settled = λ g h. ground (arith, settled g, done-cancel s.world f msg g);
        idle = idle;
        balance = ground (arith, same_count w (λ g c. finished-cancel s.world f msg g));
      }

  -- No waiter is pending: the permit goes back to the counter.
  pub returned-Inv :
      All (λ g. done s.world g ≡ true) s.semaphore.waiters
      → Inv
          (n + 1)
          (record s { semaphore = record { value = s.semaphore.value + 1; waiters = [] } })
  returned-Inv all = record {
    fresh = fresh;
    distinct = distinct;
    lined_up = tt;
    queued = λ g h. cc;
    settled = λ g h. ground (arith, settled g, All-contains s.world s.semaphore.waiters g all);
    idle = inr refl;
    balance = omega arith;
  }

  -- The permit goes to the first pending waiter, and the counter stays.
  pub transferred-Inv :
      (f : ℕ) (rest : List ℕ)
      → Served s.world s.semaphore.waiters f rest
      → Inv (n + 1) (record s {
        world = given s.world f true;
        semaphore = record { value = s.semaphore.value; waiters = rest };
      })
  transferred-Inv f rest e = record {
    fresh = λ g h. ground (arith, fresh g, next-given s.world f true);
    distinct = distinct;
    lined_up = (Served-Distinct e lined_up).0;
    queued = λ g h. ground (
      arith,
      queued g,
      Served-rest e g h,
      Served-Distinct e lined_up,
      finished-given s.world f true g,
    );
    settled = λ g h. ground (arith, settled g h, Served-passed e g, done-given s.world f true g);
    idle = ground (arith, Served-member e);
    balance = ground (
      arith,
      queued f (Served-member e),
      count_if-hit (is_done_ok s.world) (is_done_ok (given s.world f true)) f s.open_waits
          (λ a. finished-given s.world f true a) ((queued f (Served-member e)).1) distinct,
    );
  }
