-- ===== src/Wait/Deadlines.antt =====
-- The list of deadlines: who is on it, in which order, and what a tick does to it.
use bleed_kernel.Common.{
  if_either, put, put_all, put_ne, ne→==, count, count_nil, count-here, count-there, erase_first,
  count-erase_first_self, count-erase_first_ne, ℕ, zero, suc, ◌+◌, ◌^◌, ◌≤◌, ◌<◌, ◌≡◌, refl, sym,
  ap, ap₂, ◌∙◌, inl, inr, Bool, true, false, some, List, [], ◌∷◌, if◌then◌else◌, leb, ◌==◌,
  Bool-cases, arith, length, All, leb→le, leb_false→lt, ==→eq,
}
use mathlib.Core.Bool.{false≢true}
use mathlib.Core.Path.{subst}
use bleed_kernel.Sched.Queue.{Sched}
use bleed_kernel.Sched.Calls.{sched_wake_task}
use bleed_kernel.Wait.Calls.{Waits, insert_by, deadline_remove, wake_task, deadline_loop}

-- Soonest first.
abbrev pub IsSorted : (ℕ → ℕ) → List ℕ → Type 0
IsSorted due [] = Unit
IsSorted due (x ∷ xs) = All (λ y. due x ≤ due y) xs × IsSorted due xs

-- The deadlines are in order, and a task is on the list once if it says that it is, and not if not.
pub record IsLine (due : ℕ → ℕ) (queued : ℕ → Bool) (line : List ℕ) : Type 0 where
  pub sorted : IsSorted due line
  pub once : (t : ℕ) → count t line ≡ (if queued t then 1 else 0)
  pub small : (t : ℕ) → due t < 2 ^ 64

abbrev pub IsTimed : Waits → Type 0
IsTimed w = IsLine w.event_deadline w.deadline_queued w.deadlines

All-insert_by :
    (P : ℕ → Type 0) (due : ℕ → ℕ) (t : ℕ) (xs : List ℕ)
    → All P xs
    → P t
    → All P (insert_by due t xs)
unfolding insert_by
All-insert_by P due t [] all p = (p, tt)
All-insert_by P due t (x ∷ xs) all p =
    if_either (All P) (leb (due x) (due t)) _ _ (λ e. (all.0, All-insert_by P due t xs all.1 p))
      (λ e. (p, all))

All-later :
    (due : ℕ → ℕ) (a b : ℕ) (xs : List ℕ)
    → a ≤ b
    → All (λ y. b ≤ due y) xs
    → All (λ y. a ≤ due y) xs
All-later due a b [] le all = tt
All-later due a b (x ∷ xs) le all = (omega (arith, le, all.0), All-later due a b xs le all.1)

-- deadline_insert keeps the order.
pub insert_by-IsSorted :
    (due : ℕ → ℕ) (t : ℕ) (xs : List ℕ) → IsSorted due xs → IsSorted due (insert_by due t xs)
unfolding insert_by
insert_by-IsSorted due t [] sorted = (tt, tt)
insert_by-IsSorted due t (x ∷ xs) sorted =
    if_either (IsSorted due) (leb (due x) (due t)) _ _
      (λ e. (
        All-insert_by (λ y. due x ≤ due y) due t xs sorted.0 (leb→le (due x) (due t) e),
        insert_by-IsSorted due t xs sorted.1,
      ))
      (λ e.
        let later : due t ≤ due x = omega (arith, leb_false→lt (due x) (due t) e) in
        ((later, All-later due (due t) (due x) xs later sorted.0), sorted))

pub count-insert_by :
    (u : ℕ) (due : ℕ → ℕ) (t : ℕ) (xs : List ℕ) → count u (insert_by due t xs) ≡ count u (t ∷ xs)
unfolding insert_by count
count-insert_by u due t [] = refl
count-insert_by u due t (x ∷ xs) =
    let rest = count-insert_by u due t xs in
    if_either (λ ys. count u ys ≡ count u (t ∷ x ∷ xs)) (leb (due x) (due t)) _ _
      (λ e. omega (arith, rest)) (λ e. refl)

absent_head : (t x : ℕ) (xs : List ℕ) → count t (x ∷ xs) ≡ 0 → ((x == t) ≡ false) × (count t xs ≡ 0)
absent_head t x xs absent = elim (Bool-cases (t == x)) [
  | inl e ↦
      let same : t ≡ x = ==→eq t x e in
      absurd (omega (arith, count-here x xs, subst (λ k. count k (x ∷ xs) ≡ 0) same absent))
  | inr ne ↦ (ground arith, sym (count-there t x xs ne) ∙ absent)
]

-- The deadline of a task that is not on the list does not matter to it.
All-put :
    (P : ℕ → Type 0) (due : ℕ → ℕ) (t d : ℕ) (xs : List ℕ)
    → count t xs ≡ 0
    → All (λ y. P (due y)) xs
    → All (λ y. P (put t d due y)) xs
All-put P due t d [] absent all = tt
All-put P due t d (x ∷ xs) absent all =
    let (ne, rest) = absent_head t x xs absent in
    (subst P (sym (put_ne t x d due ne)) all.0, All-put P due t d xs rest all.1)

pub IsSorted-put :
    (due : ℕ → ℕ) (t d : ℕ) (xs : List ℕ)
    → count t xs ≡ 0
    → IsSorted due xs
    → IsSorted (put t d due) xs
IsSorted-put due t d [] absent sorted = tt
IsSorted-put due t d (x ∷ xs) absent sorted =
    let (ne, rest) = absent_head t x xs absent in
    (
      All-put (λ n. put t d due x ≤ n) due t d xs rest
          (subst (λ n. All (λ y. n ≤ due y) xs) (sym (put_ne t x d due ne)) sorted.0),
      IsSorted-put due t d xs rest sorted.1,
    )

-- The head of the list goes, when it is due.
removed_head :
    (t : ℕ) (ts : List ℕ) (w : Waits)
    → IsTimed w
    → w.deadlines ≡ t ∷ ts
    → (let r = wake_task t (deadline_remove t w) in
        (r.deadlines ≡ ts) × IsTimed r × (r.event_deadline ≡ w.event_deadline))
unfolding erase_first
removed_head t ts w v eq =
    let Good : Waits → Type 0 =
      λ r. (r.deadlines ≡ ts) × IsTimed r × (r.event_deadline ≡ w.event_deadline) in
    let there : count t w.deadlines ≡ 1 + count t ts =
      ap (count t) eq ∙ count-here t ts ∙ omega arith in
    if_either Good (w.deadline_queued t) _ _
      (λ queued.
        let line : erase_first t w.deadlines ≡ ts =
          ap (erase_first t) eq ∙ (let same : (t == t) ≡ true = ground arith in rw same refl) in
        let once : count t w.deadlines ≡ 1 = v.once t ∙ ap (λ b. if b then 1 else 0) queued in
        (
          line,
          record {
            sorted = subst (IsSorted w.event_deadline) (sym line) (rw eq at v.sorted).1;
            once =
                put_all (λ u b. count u (erase_first t w.deadlines) ≡ (if b then 1 else 0)) t false
                  w.deadline_queued (omega (arith, count-erase_first_self t w.deadlines, once))
                  (λ u ne. count-erase_first_ne t u w.deadlines (ground arith) ∙ v.once u);
            small = v.small;
          },
          refl,
        ))
      (λ out. absurd (omega (arith, there, v.once t ∙ ap (λ b. if b then 1 else 0) out)))

none_due :
    (due : ℕ → ℕ) (now u : ℕ) (xs : List ℕ)
    → All (λ y. now < due y) xs
    → due u ≤ now
    → count u xs ≡ 0
none_due due now u [] all le = count_nil u
none_due due now u (x ∷ xs) all le =
    let ne : (u == x) ≡ false = ne→== u x (λ e. omega (arith, le, all.0, ap due e)) in
    count-there u x xs ne ∙ none_due due now u xs all.1 le

later_than :
    (due : ℕ → ℕ) (now t : ℕ) (xs : List ℕ)
    → now < due t
    → All (λ y. due t ≤ due y) xs
    → All (λ y. now < due y) xs
later_than due now t [] lt all = tt
later_than due now t (x ∷ xs) lt all = (omega (arith, lt, all.0), later_than due now t xs lt all.1)

-- How often a task is on the list when those that are due have left it.
abbrev pub left_on : (ℕ → ℕ) → ℕ → List ℕ → ℕ → ℕ
left_on due now line u = if leb (due u) now then 0 else count u line

-- The tasks at the front of a line that are due, and waking them one after the other.
unfoldable pub due_first : (ℕ → ℕ) → ℕ → List ℕ → List ℕ
due_first due now [] = []
due_first due now (t ∷ ts) =
    let rest = due_first due now ts in if leb (due t) now then t ∷ rest else []

unfoldable pub wake_in_turn : List ℕ → Sched → Sched
wake_in_turn [] s = s
wake_in_turn (t ∷ ts) s = wake_in_turn ts (sched_wake_task (some t) s)

deadline_remove_sched : (t : ℕ) (w : Waits) → (deadline_remove t w).sched ≡ w.sched
deadline_remove_sched t w =
    if_either (λ (r : Waits). r.sched ≡ w.sched) (w.deadline_queued t) _ _ (λ e. refl) (λ e. refl)

-- The loop takes every task off the list that is due, and no other.
pub record Expired (now : ℕ) (w r : Waits) : Type 0 where
  pub timed : IsTimed r
  pub same : r.event_deadline ≡ w.event_deadline
  pub left : (u : ℕ) → count u r.deadlines ≡ left_on w.event_deadline now w.deadlines u
  pub ahead : All (λ y. now < w.event_deadline y) r.deadlines
  pub woken : r.sched ≡ wake_in_turn (due_first w.event_deadline now w.deadlines) w.sched

stays :
    (now t : ℕ) (ts : List ℕ) (w : Waits)
    → IsTimed w
    → w.deadlines ≡ t ∷ ts
    → now < w.event_deadline t
    → Expired now w w
unfolding due_first wake_in_turn
stays now t ts w v eq lt =
    let all : All (λ y. now < w.event_deadline y) (t ∷ ts) =
      (lt, later_than w.event_deadline now t ts lt (rw eq at v.sorted).0) in
    let ahead : All (λ y. now < w.event_deadline y) w.deadlines = rw eq all in
    record {
      timed = v;
      same = refl;
      left = λ u. elim (Bool-cases (leb (w.event_deadline u) now)) [
        | inl due ↦ rw due (
            none_due w.event_deadline now u w.deadlines ahead (leb→le (w.event_deadline u) now due))
        | inr not_yet ↦ rw not_yet refl
      ];
      ahead = ahead;
      woken = sym (
          ap (λ l. wake_in_turn (due_first w.event_deadline now l) w.sched) eq
          ∙ (let late : leb (w.event_deadline t) now ≡ false = ground arith in rw late refl));
    }

left_head :
    (due : ℕ → ℕ) (now t : ℕ) (ts : List ℕ) (u : ℕ)
    → leb (due t) now ≡ true
    → left_on due now ts u ≡ left_on due now (t ∷ ts) u
left_head due now t ts u le = elim (Bool-cases (leb (due u) now)) [
  | inl e ↦ rw e refl
  | inr ne ↦
      let other : (u == t) ≡ false =
        ne→== u t (λ same. false≢true (sym ne ∙ ap (λ k. leb (due k) now) same ∙ le)) in
      rw ne (sym (count-there u t ts other))
]

pub deadline_loop-Expired :
    (fuel now : ℕ) (line : List ℕ) (w : Waits)
    → IsTimed w
    → w.deadlines ≡ line
    → length line < fuel
    → Expired now w (deadline_loop fuel now line w)
unfolding deadline_loop due_first wake_in_turn
deadline_loop-Expired zero now line w v eq enough = absurd (omega arith)
deadline_loop-Expired (suc fuel) now [] w v eq enough = record {
  timed = v;
  same = refl;
  left = λ u. rw eq (
      if_either (λ n. count u [] ≡ n) (leb (w.event_deadline u) now) _ _ (λ e. count_nil u)
        (λ e. refl));
  ahead = rw eq tt;
  woken = rw eq refl;
}
deadline_loop-Expired (suc fuel) now (t ∷ ts) w v eq enough =
    let r : Waits = wake_task t (deadline_remove t w) in
    let (line, timed, same) = removed_head t ts w v eq in
    if_either (Expired now w) (leb (w.event_deadline t) now) _ _
      (λ due.
        let x : Expired now r (deadline_loop fuel now r.deadlines r) =
          deadline_loop-Expired fuel now r.deadlines r timed refl
            (omega (arith, enough, ap length line)) in
        record {
          timed = x.timed;
          same = x.same ∙ same;
          left = λ u.
              x.left u
              ∙ ap₂ (λ f l. left_on f now l u) same line
              ∙ left_head w.event_deadline now t ts u due
              ∙ ap (λ l. left_on w.event_deadline now l u) (sym eq);
          ahead =
              subst (λ f. All (λ y. now < f y) (deadline_loop fuel now r.deadlines r).deadlines)
                same x.ahead;
          woken =
              x.woken
              ∙ ap₂ (λ f l. wake_in_turn (due_first f now l) r.sched) same line
              ∙ ap
                  (λ z.
                    wake_in_turn (due_first w.event_deadline now ts) (sched_wake_task (some t) z))
                  (deadline_remove_sched t w)
              ∙ sym (
                  ap (λ l. wake_in_turn (due_first w.event_deadline now l) w.sched) eq
                  ∙ (rw due refl));
        })
      (λ not_yet. stays now t ts w v eq (leb_false→lt (w.event_deadline t) now not_yet))
