-- ===== src/Sched/Kept.antt =====
-- The moves of a task keep the run queues sound.
use bleed_kernel.Common.{
  put, put_all, count, count-here, count-there, erase_first, count-erase_first_self,
  count-erase_first_ne, ℕ, ◌<◌, ◌≡◌, refl, sym, ap, ◌∙◌, true, false, none, some, List, ◌∷◌,
  if◌then◌else◌, arith,
}
use mathlib.Core.Bool.{false≢true}
use bleed_kernel.Sched.Queue.{Task, PrioArray, prio_levels, appended, without}
use bleed_kernel.Sched.Sound.{
  is_at, IsQueued, count_append, not_at, is_at_own, at_other, appended-Moved, without-Moved,
  Moved-bits, Moved-listed,
}

module _ (task : ℕ → Task) (array : ℕ → PrioArray) (active : ℕ)
    (v : IsQueued task array active) where
  -- A store that does not touch what the queues are about.
  pub put-IsQueued :
      (t : ℕ) (x : Task)
      → x.ready_array ≡ (task t).ready_array
      → x.ready_prio ≡ (task t).ready_prio
      → x.idle ≡ (task t).idle
      → IsQueued (put t x task) array active
  put-IsQueued t x e p i = record {
    listed = λ a q.
        put_all (λ u y. count u ((array a).queue q) ≡ (if is_at a q y then 1 else 0)) t x task
          (v.listed a q t ∙ rw (e, p) refl) (λ u ne. v.listed a q u);
    bits = v.bits;
    placed =
        put_all (λ u y. (a : ℕ) → y.ready_array ≡ some a → (a < 2) × (y.ready_prio < prio_levels)) t
          x task (λ a at. rw p (v.placed t a (sym e ∙ at))) (λ u ne. v.placed u);
    two = v.two;
    idle =
        put_all (λ u y. y.idle ≡ true → y.ready_array ≡ none) t x task
          (λ idle. e ∙ v.idle t (sym i ∙ idle)) (λ u ne. v.idle u);
  }

  -- A task that is in no queue comes to the end of one.
  pub enqueued-IsQueued :
      (t a p : ℕ) (x : Task)
      → (task t).ready_array ≡ none
      → x.ready_array ≡ some a
      → x.ready_prio ≡ p
      → x.idle ≡ false
      → a < 2
      → p < prio_levels
      → IsQueued (put t x task) (put a (appended t p (array a)) array) active
  enqueued-IsQueued t a p x out into level busy small low =
      let m = appended-Moved t a p array in
      let before : count t ((array a).queue p) ≡ 0 =
        v.listed a p t ∙ ap (λ c. if c then 1 else 0) (not_at a p (task t) out) in
      record {
        listed =
            Moved-listed task array active v a p t _ _ x m
              (λ u.
                count_append u t ((array a).queue p)
                ∙ put_all (λ u y. count u (t ∷ (array a).queue p) ≡ (if is_at a p y then 1 else 0))
                    t x task
                    (rw (is_at_own a p x into level)
                      (omega (arith, count-here t ((array a).queue p), before)))
                    (λ u ne. count-there u t ((array a).queue p) ne ∙ v.listed a p u) u)
              (λ b q ne. at_other a p b q x into level ne ∙ sym (not_at b q (task t) out));
        bits = Moved-bits task array active v a p _ _ m;
        placed =
            put_all
              (λ u y. (a : ℕ) → y.ready_array ≡ some a → (a < 2) × (y.ready_prio < prio_levels)) t x
              task
              (λ b e.
                let same : b ≡ a = cc in (omega (arith, same, small), omega (arith, level, low)))
              (λ u ne. v.placed u);
        two = v.two;
        idle =
            put_all (λ u y. y.idle ≡ true → y.ready_array ≡ none) t x task
              (λ idle. absurd (false≢true (sym busy ∙ idle))) (λ u ne. v.idle u);
      }

  -- A task leaves the queue that it is in.
  pub dequeued-IsQueued :
      (t a : ℕ) (x : Task)
      → (task t).ready_array ≡ some a
      → x.ready_array ≡ none
      → IsQueued (put t x task) (put a (without t (task t).ready_prio (array a)) array) active
  dequeued-IsQueued t a x inside out =
      let p : ℕ = (task t).ready_prio in
      let queue : List ℕ = (array a).queue p in
      let m = without-Moved task array active v t a p in
      let before : count t queue ≡ 1 =
        v.listed a p t ∙ ap (λ c. if c then 1 else 0) (is_at_own a p (task t) inside refl) in
      record {
        listed =
            Moved-listed task array active v a p t _ _ x m
              (put_all (λ u y. count u (erase_first t queue) ≡ (if is_at a p y then 1 else 0)) t x
                task (rw (not_at a p x out) (omega (arith, count-erase_first_self t queue, before)))
                (λ u ne. count-erase_first_ne t u queue (ground arith) ∙ v.listed a p u))
              (λ b q ne. not_at b q x out ∙ sym (at_other a p b q (task t) inside refl ne));
        bits = Moved-bits task array active v a p _ _ m;
        placed =
            put_all
              (λ u y. (a : ℕ) → y.ready_array ≡ some a → (a < 2) × (y.ready_prio < prio_levels)) t x
              task (λ b e. cc) (λ u ne. v.placed u);
        two = v.two;
        idle =
            put_all (λ u y. y.idle ≡ true → y.ready_array ≡ none) t x task (λ idle. out)
              (λ u ne. v.idle u);
      }
